-- ===== src/Ingestion/KafkaManager.antt =====
-- internal/ingestion/kafka_manager.go: `Reload` with what it starts and stops, and the handling of one
-- message by `processorLoop`.
--
-- A group of readers is what the manager knows of it, and whether its workers have been stopped.
-- `RowConfig` is what `asStringMap`, `asFloat`, `asBool` and `extractMapping` read from the decoded
-- configuration of a row. `Links` stands for the decoding, the cipher, and the SASL library.
pub mod Reloads
pub mod Stuck
mod Tests
use Prim.Native.String.{[], ◌∷◌}
use Prim.Native.Char.{Char, code}
use mathlib.Core.List.{List, [] as nil, ◌∷◌ as cons, ◌++◌}
use alertmesh_new.Prelude.{
  ℕ, String, Bool, true, false, not, Option, none, some, ◌&&◌, ◌||◌, ◌==◌, ltb, str_eq,
  if◌then◌else◌, Assoc, lookup, insert, contains, map, trim_space, to_upper, ℤ, pos, negsuc,
}
use alertmesh_new.Engine.Alert.{RawAlert}
use alertmesh_new.Ingestion.KafkaFilter.{
  Libs, KafkaMapping, KafkaProgram, Compiled, error, compiled, compile_kafka_program,
}
use alertmesh_new.Ingestion.KafkaFilter.Apply.{KafkaApplyResult, or_else, apply_for_consumer}
use alertmesh_new.Ingestion.Tracker.{Message, Tracker, ack}

pub record KafkaRow : Type 0 where
  pub id : String
  pub name : String
  pub endpoint : String
  pub config : String
  pub secret_enc : String

pub record RowConfig : Type 0 where
  pub filter : String
  pub mapping : KafkaMapping
  pub topic : String
  pub group_id : String
  pub consumer_concurrency : ℤ
  pub sasl_mechanism : String
  pub sasl_user : String

pub record Links : Type 0 where
  -- jsonToMapBytes, and the members that are read
  pub row_config : String → RowConfig
  -- config.Decrypt under the key of the server, `none` where there is no key or it fails
  pub decrypt_secret : String → Option String
  -- the member sasl_password of a JSON object of strings; `none` where the text is no such object
  pub password_member : String → Option String
  -- whether scram.Mechanism accepts a user and a password
  pub scram_accepts : String → String → Bool

-- `configHash`
abbrev pub Signature : Type 0
Signature = String × String

abbrev pub config_hash : KafkaRow → Signature
config_hash row = (row.endpoint, row.config)

abbrev pub same_hash : Signature → Signature → Bool
same_hash a b = str_eq a.0 b.0 && str_eq a.1 b.1

pub record ReaderGroup : Type 0 where
  pub ds_name : String
  pub hash : Signature
  pub workers : ℕ
  pub running : Bool

-- `resolveConsumerConcurrency`
unfoldable pub resolve_consumer_concurrency : ℤ → ℕ
resolve_consumer_concurrency (negsuc n) = 1
resolve_consumer_concurrency (pos n) = if ltb n 1 then 1 else if ltb 32 n then 32 else n

abbrev pub push_char : Char → List String → List String
push_char c nil = cons (c ∷ []) nil
push_char c (cons p ps) = cons (c ∷ p) ps

-- strings.Split(endpoint, ","): 44 is the comma.
unfoldable pub split_commas : String → List String
split_commas [] = cons [] nil
split_commas (c ∷ s) =
    let rest = split_commas s in if code c == 44 then cons [] rest else push_char c rest

unfoldable pub trimmed_parts : List String → List String
unfolding trim_space
trimmed_parts nil = nil
trimmed_parts (cons p ps) =
    let rest = trimmed_parts ps in
    if str_eq (trim_space p) "" then rest else cons (trim_space p) rest

unfoldable pub split_brokers : String → List String
unfolding split_commas trimmed_parts
split_brokers endpoint = trimmed_parts (split_commas endpoint)

-- `decryptSASLPassword`
unfoldable pub decrypt_sasl_password : Links → String → String
unfolding trim_space
decrypt_sasl_password lk stored =
    if str_eq stored ""
    then ""
    else let plaintext = or_else stored (lk.decrypt_secret stored) in
      trim_space (or_else plaintext (lk.password_member plaintext))

-- Whether `buildDialer` gives a dialer.
unfoldable pub build_dialer : Links → KafkaRow → RowConfig → Bool
unfolding trim_space to_upper decrypt_sasl_password
build_dialer lk row cfg =
    let mech = trim_space cfg.sasl_mechanism in
    let user = trim_space cfg.sasl_user in
    let password = decrypt_sasl_password lk row.secret_enc in
    if str_eq mech ""
    then true
    else if str_eq user "" || str_eq password ""
    then false
    else if str_eq (to_upper mech) "PLAIN"
    then true
    else (str_eq (to_upper mech) "SCRAM-SHA-256" || str_eq (to_upper mech) "SCRAM-SHA-512")
      && lk.scram_accepts user password

abbrev pub is_nil : List String → Bool
is_nil nil = true
is_nil (cons x xs) = false

abbrev pub is_compiled : Compiled KafkaProgram → Bool
is_compiled (error e) = false
is_compiled (compiled p) = true

-- The tests of `spawnReaderGroup`.
unfoldable pub can_spawn : Libs → Links → KafkaRow → Bool
unfolding compile_kafka_program split_brokers build_dialer
can_spawn lib lk row =
    let cfg = lk.row_config row.config in
    is_compiled (compile_kafka_program lib (record { filter = cfg.filter; mapping = cfg.mapping }))
    && (not (is_nil (split_brokers row.endpoint))
        && (not (str_eq cfg.topic "") && (not (str_eq cfg.group_id "") && build_dialer lk row cfg)))

unfoldable pub spawn_reader_group : Libs → Links → KafkaRow → Option ReaderGroup
unfolding can_spawn resolve_consumer_concurrency
spawn_reader_group lib lk row =
    if can_spawn lib lk row
    then some (record {
      ds_name = row.name;
      hash = config_hash row;
      workers = resolve_consumer_concurrency (lk.row_config row.config).consumer_concurrency;
      running = true;
    })
    else none

abbrev pub Groups : Type 0
Groups = Assoc ReaderGroup

-- `stopGroupLocked`: the group is in the map as before, with its workers stopped.
unfoldable pub stop_group : String → ReaderGroup → Groups → Groups
unfolding insert
stop_group id g groups = insert id (record g { running = false }) groups

-- A group that cannot be started is left to the next reload.
unfoldable pub start_group : String → Option ReaderGroup → Groups → Groups
unfolding insert
start_group id none groups = groups
start_group id (some g) groups = insert id g groups

module _ (lib : Libs) (lk : Links) where
  unfoldable pub renew_group : KafkaRow → Option ReaderGroup → Groups → Groups
  unfolding stop_group start_group spawn_reader_group
  renew_group row none groups = start_group row.id (spawn_reader_group lib lk row) groups
  renew_group row (some g) groups =
      if same_hash g.hash (config_hash row)
      then groups
      else start_group row.id (spawn_reader_group lib lk row) (stop_group row.id g groups)

  -- The loop of `Reload` over the rows.
  unfoldable pub renew_groups : List KafkaRow → Groups → Groups
  unfolding lookup renew_group
  renew_groups nil groups = groups
  renew_groups (cons row rows) groups =
      renew_groups rows (renew_group row (lookup row.id groups) groups)

-- The loop of `Reload` over the groups: those that are not wanted are stopped and deleted.
unfoldable pub keep_wanted : List String → Groups → Groups
keep_wanted want nil = nil
keep_wanted want (cons entry groups) =
    let rest = keep_wanted want groups in if contains want entry.0 then cons entry rest else rest

-- `Reload`, with the enabled rows, or `none` where the query fails.
unfoldable pub reload_groups : Libs → Links → Option (List KafkaRow) → Groups → Groups
unfolding renew_groups keep_wanted
reload_groups lib lk none groups = groups
reload_groups lib lk (some rows) groups =
    keep_wanted (map (λ row. row.id) rows) (renew_groups lib lk rows groups)

-- The label of a drop.
unfoldable pub drop_reason : String → String
drop_reason s =
    if contains
      (cons "filter_false" (
        cons "missing_alertname"
          (cons "missing_severity" (cons "bad_json" (cons "filter_error" nil)))))
      s
    then s
    else "other"

pub data Handled : Type 0 where
  -- KafkaMessagesDropped with its reason
  counted_drop : String → Handled
  -- a call of the pipeline
  piped : RawAlert → Handled

-- What becomes of an answer: an error is dropped as filter_error, whatever its reason.
unfoldable pub handle_answer : KafkaApplyResult → Option String → List Handled
unfolding drop_reason
handle_answer res (some e) = cons (counted_drop "filter_error") nil
handle_answer res none =
    if not res.keep
    then cons (counted_drop (drop_reason res.reason)) nil
    else elim res.alert [ none ↦ nil | some alert ↦ cons (piped alert) nil ]

-- One round of `processorLoop`: every path acknowledges the message.
unfoldable pub process_message :
    Libs → KafkaProgram → String → ℕ → ℕ → Message → Tracker → List Handled × Tracker
unfolding apply_for_consumer handle_answer ack
process_message lib p ds_id now later msg tracker =
    let answer = apply_for_consumer lib p msg.payload "kafka" ds_id now later in
    (handle_answer answer.0 answer.1, ack tracker msg)
