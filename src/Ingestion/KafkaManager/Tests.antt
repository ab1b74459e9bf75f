-- ===== src/Ingestion/KafkaManager/Tests.antt =====
-- internal/ingestion/kafka_manager.go: reloads of one source.
use mathlib.Core.List.{[], ◌∷◌}
use alertmesh_new.Prelude.{
  String, true, false, none, some, ◌≡◌, refl, arith, contains, lookup, map, pos,
}
use alertmesh_new.Ingestion.KafkaFilter.{Libs, KafkaMapping}
use alertmesh_new.Ingestion.KafkaManager.{
  KafkaRow, Links, ReaderGroup, Groups, can_spawn, reload_groups,
}
use alertmesh_new.Ingestion.KafkaManager.Reloads.{AllServed}
use alertmesh_new.Ingestion.KafkaManager.Stuck.{reload_groups-AllServed, reload_groups_stuck}

abbrev lib : Libs
lib = record {
  valid = λ payload. true;
  get_path = λ payload path. none;
  compiles_bool = λ src. true;
  compiles_string = λ src. true;
  run = λ src payload. none;
  parse_layout = λ layout text. none;
  unix_epoch = 0;
  sha256_hex = λ text. text;
}

abbrev mapping : KafkaMapping
mapping = record {
  alertname = "name";
  severity = "level";
  fingerprint = "";
  starts_at = "";
  ends_at = "";
  summary = "";
  description = "";
  status_path = "";
  resolved_when = "";
  labels = [];
  annotations = [];
}

-- The topic is the text of the configuration.
abbrev links : Links
links = record {
  row_config = λ text. record {
    filter = "";
    mapping = mapping;
    topic = text;
    group_id = "alertmesh";
    consumer_concurrency = pos 2;
    sasl_mechanism = "";
    sasl_user = "";
  };
  decrypt_secret = λ text. none;
  password_member = λ text. none;
  scram_accepts = λ user password. true;
}

abbrev source : String → KafkaRow
source config = record {
  id = "s";
  name = "logs";
  endpoint = "broker:9092, ";
  config = config;
  secret_enc = "";
}

abbrev group : ReaderGroup
group = record { ds_name = "logs"; hash = ("broker:9092, ", "orders"); workers = 2; running = true }

abbrev running : Groups
running = ("s", group) ∷ []

reload_groups-AllServed_example :
    AllServed (source "orders" ∷ []) (reload_groups lib links (some (source "orders" ∷ [])) [])
    × ((k : String)
        → contains (map (λ (row : KafkaRow). row.id) (source "orders" ∷ [])) k ≡ false
        → lookup k (reload_groups lib links (some (source "orders" ∷ [])) []) ≡ none)
unfolding can_spawn lookup
reload_groups-AllServed_example =
    reload_groups-AllServed lib links (source "orders" ∷ []) [] (refl, tt) (refl, tt)
      (λ k g e. ground (arith, e))

reload_groups_stuck_example :
    lookup "s" (
      reload_groups lib links
        (some (source "orders" ∷ []))
        (reload_groups lib links (some (source "" ∷ [])) running))
    ≡ some (record group { running = false })
unfolding can_spawn lookup
reload_groups_stuck_example =
    reload_groups_stuck lib links (source "orders") (source "") group running refl refl refl refl
      refl
