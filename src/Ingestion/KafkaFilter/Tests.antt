-- ===== src/Ingestion/KafkaFilter/Tests.antt =====
-- internal/ingestion/kafka_filter.go: a program compiled and run on messages.
use alertmesh_new.Prelude.{
  ◌+◌, String, Bool, true, none, some, [], ◌∷◌, ◌≡◌, refl, inl, inr, arith, str_eq, trim_space,
}
use alertmesh_new.Ingestion.KafkaFilter.{
  Libs, bool_value, KafkaMapping, KafkaFilterConfig, KafkaProgram, compiled, path_field,
  compile_kafka_program,
}
use alertmesh_new.Ingestion.KafkaFilter.Times.{parse_by, parse_flexible_time}
use alertmesh_new.Ingestion.KafkaFilter.Times.Units.{parse_flexible_time-units}
use alertmesh_new.Ingestion.KafkaFilter.Apply.{apply, apply_for_consumer}
use alertmesh_new.Ingestion.KafkaFilter.Apply.Blind.{without_hits, apply_for_consumer-eq-apply}
use alertmesh_new.Ingestion.KafkaFilter.Apply.Kept.{IsAnswer, apply-IsAnswer}
use alertmesh_new.Ingestion.KafkaFilter.Helpers.{normalize_path}
use alertmesh_new.Ingestion.KafkaFilter.Ready.{IsReady, compile_kafka_program-IsReady}

-- Every path of a payload gives the path itself, and every program is true.
abbrev lib : Libs
lib = record {
  valid = λ payload. true;
  get_path = λ payload path. some path;
  compiles_bool = λ src. true;
  compiles_string = λ src. true;
  run = λ src payload. some (bool_value true);
  parse_layout = λ layout text. none;
  unix_epoch = 62135596800000000000;
  sha256_hex = λ text. text;
}

abbrev mapping : KafkaMapping
mapping = record {
  alertname = "name";
  severity = "level";
  fingerprint = "";
  starts_at = "";
  ends_at = "";
  summary = "text";
  description = "";
  status_path = "resolved";
  resolved_when = "";
  labels = ("pod", "pod") ∷ ("", "skipped") ∷ [];
  annotations = [];
}

abbrev cfg : KafkaFilterConfig
cfg = record { filter = " code > 499 "; mapping = mapping }

abbrev program : KafkaProgram
program = record {
  cfg = cfg;
  filter = some "code > 499";
  resolved_when = none;
  alertname = path_field "name" "name";
  severity = path_field "level" "level";
  fingerprint = path_field "" "";
  starts_at = path_field "" "";
  ends_at = path_field "" "";
  status_path = path_field "resolved" "resolved";
  summary = path_field "text" "text";
  description = path_field "" "";
  labels = record { key = "pod"; field = path_field "pod" "pod" } ∷ [];
  annotations = [];
}

compile_run : compile_kafka_program lib cfg ≡ compiled program
unfolding compile_kafka_program
compile_run = refl

compile_kafka_program-IsReady_example : IsReady lib cfg program
compile_kafka_program-IsReady_example = compile_kafka_program-IsReady lib cfg program compile_run

apply_for_consumer-eq-apply_example :
    apply_for_consumer lib program "{}" "kafka" "id" 7 9
    ≡ without_hits (apply lib program "{}" "kafka" "id" 7 9)
apply_for_consumer-eq-apply_example = apply_for_consumer-eq-apply lib program "{}" "kafka" "id" 7 9

apply-IsAnswer_example :
    IsAnswer lib program "{}"
      (apply lib program "{}" "kafka" "id" 7 9).0
      (apply lib program "{}" "kafka" "id" 7 9).0.alert
apply-IsAnswer_example = apply-IsAnswer lib program "{}" "kafka" "id" 7 9

keep_run : (apply lib program "{}" "kafka" "id" 7 9).0.keep ≡ true
unfolding apply
keep_run = refl

parse_flexible_time-units_example :
    parse_flexible_time lib " 1700000000123 " ≡ some (lib.unix_epoch + 1700000000123000000)
unfolding trim_space parse_by
parse_flexible_time-units_example =
    parse_flexible_time-units lib " 1700000000123 " 1700000000123000000 refl (ground arith)
      (omega arith) (omega arith) (omega arith) (omega arith) (inr (inl refl))

-- A segment is an id if it is "42".
abbrev is_42 : String → Bool
is_42 segment = str_eq segment "42"

normalize_run : normalize_path is_42 "/users/42/" ≡ "/users/{id}/"
unfolding normalize_path
normalize_run = refl
