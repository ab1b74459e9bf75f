-- ===== src/Ingestion/KafkaFilter/Cells.antt =====
-- internal/ingestion/kafka_filter.go: `evalField` and `pathString`, and the cells that go into a map.
--
-- `MappingHits` is threaded through the cells: `none` is the nil map.
use Prim.Native.String
use alertmesh_new.Prelude.{
  String, true, false, not, Option, none, some, List, [], ◌∷◌, str_eq, if◌then◌else◌, Assoc, insert,
}
use alertmesh_new.Ingestion.KafkaFilter.{
  Libs, Value, bool_value, string_value, nil_value, other_value, CompiledField, LabelField,
  has_value,
}

abbrev pub Hits : Type 0
Hits = Option (Assoc String)

-- How the mapping can end early.
pub data Stop : Type 0 where
  mapping_error : String → Stop
  missing_alertname : Stop
  missing_severity : Stop

pub data Outcome (A : Type 0) : Type 0 where
  stopped : Stop → Outcome A
  value : A → Outcome A

-- Code that writes to the hits and may stop.
abbrev pub Evaluation : Type 0 → Type 0
Evaluation A = Hits → Hits × Outcome A

unfoldable pub pass : {A B : Type 0} → Hits × Outcome A → (A → Evaluation B) → Hits × Outcome B
pass (hits, stopped s) f = (hits, stopped s)
pass (hits, value a) f = f a hits

unfoldable pub and_then : {A B : Type 0} → Evaluation A → (A → Evaluation B) → Evaluation B
unfolding pass
and_then m f hits = pass (m hits) f

abbrev pub give : {A : Type 0} → A → Evaluation A
give a hits = (hits, value a)

abbrev pub stop : {A : Type 0} → Stop → Evaluation A
stop s hits = (hits, stopped s)

unfoldable pub record_hit : String → String → Hits → Hits
unfolding insert
record_hit key text none = none
record_hit key text (some hits) = some (insert key text hits)

unfoldable pub text_of : Value → String
text_of (bool_value true) = "true"
text_of (bool_value false) = "false"
text_of (string_value s) = s
text_of nil_value = ""
text_of (other_value s) = s

-- `pathString` for a path, and the expression branch of `evalField` for its answer; `name` is the name
-- in the error.
unfoldable pub path_string : String → Option String → Evaluation String
unfolding record_hit
path_string path none hits = (record_hit path "" hits, value "")
path_string path (some s) hits = (record_hit path s hits, value s)

unfoldable pub expr_string : String → String → Option Value → Evaluation String
unfolding record_hit text_of
expr_string name raw none hits = (hits, stopped (mapping_error name))
expr_string name raw (some v) hits =
    (record_hit (String.◌++◌ "expr:" raw) (text_of v) hits, value (text_of v))

-- `evalField` of a cell on a payload.
unfoldable pub eval_field : Libs → String → String → CompiledField → Evaluation String
unfolding has_value path_string expr_string
eval_field lib payload name f hits =
    if not (has_value f)
    then (hits, value "")
    else if not f.is_expr
    then path_string f.path (lib.get_path payload f.path) hits
    else elim f.program [
      | none ↦ (hits, value "")
      | some src ↦ expr_string name f.raw (lib.run src payload) hits
    ]

-- A value that is not empty goes into the map.
abbrev pub put_text : String → String → Assoc String → Assoc String
put_text key v table = if str_eq v "" then table else insert key v table

unfoldable pub put_cell :
    Libs → String → String → String → CompiledField → Assoc String → Evaluation (Assoc String)
unfolding and_then eval_field insert
put_cell lib payload name key f table =
    and_then (eval_field lib payload name f) (λ v. give (put_text key v table))

-- The loops over `p.labels` and `p.annotations`.
unfoldable pub put_cells :
    Libs → String → String → List LabelField → Assoc String → Evaluation (Assoc String)
unfolding and_then put_cell
put_cells lib payload prefix [] table = give table
put_cells lib payload prefix (lf ∷ rest) table =
    and_then (put_cell lib payload (String.◌++◌ prefix lf.key) lf.key lf.field table)
      (put_cells lib payload prefix rest)
