-- ===== src/Ingestion/KafkaFilter.antt =====
-- internal/ingestion/kafka_filter.go: the configuration of a Kafka source and `CompileKafkaProgram`.
--
-- An expression program is named by its source. `Libs` stands for gjson, expr, time.Parse and the hash:
-- a payload is the text of its JSON, and what an expression gives under the environment of a payload
-- depends on the two only. A Go map is a list of its entries in the order in which a loop meets them.
pub mod Times
pub mod Cells
pub mod Apply
pub mod Ready
pub mod Helpers
mod Tests
use Prim.Native.String
use alertmesh_new.Prelude.{
  ℕ, String, Bool, true, false, not, Option, none, some, List, [], ◌∷◌, ◌||◌, str_eq, if◌then◌else◌,
  Assoc, trim_space, after_prefix,
}

pub data Value : Type 0 where
  bool_value : Bool → Value
  string_value : String → Value
  nil_value : Value
  -- any other, with what fmt.Sprint prints
  other_value : String → Value

pub record Libs : Type 0 where
  -- gjson.ValidBytes
  pub valid : String → Bool
  -- Get on the parsed payload, and String on the result; `none` where it does not exist
  pub get_path : String → String → Option String
  -- whether expr.Compile accepts a source, as a Boolean and as a string
  pub compiles_bool : String → Bool
  pub compiles_string : String → Bool
  -- expr.Run of a program on the environment of a payload; `none` is an error
  pub run : String → String → Option Value
  -- time.Parse of a text by a layout
  pub parse_layout : String → String → Option ℕ
  -- the start of 1970 on the clock of the model
  pub unix_epoch : ℕ
  -- the SHA-256 digest, in hexadecimal
  pub sha256_hex : String → String

pub record KafkaMapping : Type 0 where
  pub alertname : String
  pub severity : String
  pub fingerprint : String
  pub starts_at : String
  pub ends_at : String
  pub summary : String
  pub description : String
  pub status_path : String
  pub resolved_when : String
  pub labels : Assoc String
  pub annotations : Assoc String

pub record KafkaFilterConfig : Type 0 where
  pub filter : String
  pub mapping : KafkaMapping

pub record CompiledField : Type 0 where
  pub raw : String
  pub is_expr : Bool
  pub program : Option String
  pub path : String

pub record LabelField : Type 0 where
  pub key : String
  pub field : CompiledField

-- `hasFilter` is whether `filter` is there, and likewise for `resolvedWhen`.
pub record KafkaProgram : Type 0 where
  pub cfg : KafkaFilterConfig
  pub filter : Option String
  pub resolved_when : Option String
  pub alertname : CompiledField
  pub severity : CompiledField
  pub fingerprint : CompiledField
  pub starts_at : CompiledField
  pub ends_at : CompiledField
  pub status_path : CompiledField
  pub summary : CompiledField
  pub description : CompiledField
  pub labels : List LabelField
  pub annotations : List LabelField

unfoldable pub has_value : CompiledField → Bool
has_value f =
    if f.is_expr then elim f.program [ none ↦ false | some src ↦ true ] else not (str_eq f.path "")

pub data CompileError : Type 0 where
  alertname_blank : CompileError
  severity_blank : CompileError
  -- the name of the part that does not compile
  bad_part : String → CompileError

pub data Compiled {ℓ} (A : Type ℓ) : Type ℓ where
  error : CompileError → Compiled A
  compiled : A → Compiled A

unfoldable pub on_success {ℓ κ} :
    {A : Type ℓ} {B : Type κ} → Compiled A → (A → Compiled B) → Compiled B
on_success (error e) f = error e
on_success (compiled a) f = f a

abbrev pub blank : String → Bool
blank s = str_eq (trim_space s) ""

-- The Boolean expression of a configuration, if it has one.
unfoldable pub compile_condition : Libs → String → String → Compiled (Option String)
unfolding trim_space
compile_condition lib name raw =
    let src = trim_space raw in
    if str_eq src ""
    then compiled none
    else if lib.compiles_bool src
    then compiled (some src)
    else error (bad_part name)

-- The expression after `expr:`, if the text has that prefix.
unfoldable pub expr_body : String → Option String
unfolding trim_space after_prefix
expr_body raw = elim (after_prefix "expr:" (trim_space raw)) [
  | none ↦ none
  | some body ↦ some (trim_space body)
]

abbrev pub path_field : String → String → CompiledField
path_field raw path = record { raw = raw; is_expr = false; program = none; path = path }

abbrev pub expr_field : String → String → CompiledField
expr_field raw body = record { raw = raw; is_expr = true; program = some body; path = "" }

-- A cell that is not blank, from the expression that it holds, if any.
unfoldable pub compile_body :
    Libs → String → String → String → Option String → Compiled CompiledField
compile_body lib name raw trimmed none = compiled (path_field raw trimmed)
compile_body lib name raw trimmed (some body) =
    if str_eq body ""
    then error (bad_part name)
    else if lib.compiles_string body
    then compiled (expr_field raw body)
    else error (bad_part name)

unfoldable pub compile_string_field : Libs → String → String → Compiled CompiledField
unfolding expr_body compile_body
compile_string_field lib name raw =
    if blank raw
    then compiled (path_field raw "")
    else compile_body lib name raw (trim_space raw) (expr_body (trim_space raw))

-- The loops over `mapping.Labels` and `mapping.Annotations`.
unfoldable pub compile_entries : Libs → String → Assoc String → Compiled (List LabelField)
unfolding compile_string_field on_success
compile_entries lib prefix [] = compiled []
compile_entries lib prefix (entry ∷ entries) =
    let rest = compile_entries lib prefix entries in
    if str_eq entry.0 "" || blank entry.1
    then rest
    else on_success (compile_string_field lib (String.◌++◌ prefix entry.0) entry.1)
        (λ f. on_success rest (λ fs. compiled (record { key = entry.0; field = f } ∷ fs)))

-- What follows the tests of the two required paths.
unfoldable pub compile_parts : Libs → KafkaFilterConfig → Compiled KafkaProgram
unfolding on_success compile_condition compile_string_field compile_entries
compile_parts lib cfg =
    let m = cfg.mapping in
    on_success (compile_condition lib "filter" cfg.filter) (λ filter.
      on_success (compile_condition lib "resolved_when" m.resolved_when) (λ resolved_when.
        on_success (compile_string_field lib "alertname" m.alertname) (λ alertname.
          on_success (compile_string_field lib "severity" m.severity) (λ severity.
            on_success (compile_string_field lib "fingerprint" m.fingerprint) (λ fingerprint.
              on_success (compile_string_field lib "starts_at" m.starts_at) (λ starts_at.
                on_success (compile_string_field lib "ends_at" m.ends_at) (λ ends_at.
                  on_success (compile_string_field lib "status_path" m.status_path) (λ status_path.
                    on_success (compile_string_field lib "summary" m.summary) (λ summary.
                      on_success (compile_string_field lib "description" m.description)
                        (λ description.
                          on_success (compile_entries lib "labels." m.labels) (λ labels.
                            on_success (compile_entries lib "annotations." m.annotations)
                              (λ annotations. compiled (record {
                                cfg = cfg;
                                filter = filter;
                                resolved_when = resolved_when;
                                alertname = alertname;
                                severity = severity;
                                fingerprint = fingerprint;
                                starts_at = starts_at;
                                ends_at = ends_at;
                                status_path = status_path;
                                summary = summary;
                                description = description;
                                labels = labels;
                                annotations = annotations;
                              })))))))))))))

unfoldable pub compile_kafka_program : Libs → KafkaFilterConfig → Compiled KafkaProgram
unfolding compile_parts
compile_kafka_program lib cfg =
    if blank cfg.mapping.alertname
    then error alertname_blank
    else if blank cfg.mapping.severity
    then error severity_blank
    else compile_parts lib cfg
