-- ===== src/Ingestion/KafkaFilter/Apply/Blind.antt =====
-- internal/ingestion/kafka_filter.go: `Apply` and `ApplyForConsumer` differ in the debug map only.
use Prim.Native.String
use alertmesh_new.Prelude.{
  ℕ, String, Bool, true, false, not, Option, none, some, List, [], ◌∷◌, ◌≡◌, refl, sym, ◌∙◌, subst,
  Assoc, str_eq, if◌then◌else◌,
}
use alertmesh_new.Ingestion.KafkaFilter.{
  Libs, Value, CompiledField, LabelField, KafkaProgram, has_value,
}
use alertmesh_new.Ingestion.KafkaFilter.Cells.{
  Hits, mapping_error, missing_alertname, missing_severity, Outcome, stopped, value, Evaluation,
  pass, and_then, give, stop, record_hit, path_string, expr_string, eval_field, put_cell, put_cells,
  put_text,
}
use alertmesh_new.Ingestion.KafkaFilter.Apply.{
  Answer, Mapped, identify, collect_labels, collect_annotations, map_fields, refusal, answer_of,
  filtered, run_filter, apply_with, apply, apply_for_consumer, with_filter, says_yes, refused,
  start,
}

-- The map decides nothing, and a nil map stays nil.
record IsBlind {A : Type 0} (m : Evaluation A) : Type 0 where
  same : (hits : Hits) → (m hits).1 ≡ (m none).1
  nil : (m none).0 ≡ none

pass-blind :
    {A B : Type 0} (f : A → Evaluation B) (o : Outcome A) (hits left : Hits)
    → ((a : A) → IsBlind (f a))
    → left ≡ none
    → ((pass (hits, o) f).1 ≡ (pass (left, o) f).1) × ((pass (left, o) f).0 ≡ none)
unfolding pass
pass-blind f (stopped s) hits left b e = (refl, e)
pass-blind f (value a) hits left b e =
    ((b a).same hits ∙ sym ((b a).same left), subst (λ h. (f a h).0 ≡ none) (sym e) (b a).nil)

and_then-IsBlind :
    {A B : Type 0} {m : Evaluation A} {f : A → Evaluation B}
    → IsBlind m
    → ((a : A) → IsBlind (f a))
    → IsBlind (and_then m f)
unfolding and_then
and_then-IsBlind {m = m} {f = f} h b = record {
  same = λ hits.
      subst (λ o. (pass ((m hits).0, o) f).1 ≡ (pass (m none) f).1) (sym (h.same hits))
        (pass-blind f (m none).1 (m hits).0 (m none).0 b h.nil).0;
  nil = (pass-blind f (m none).1 none (m none).0 b h.nil).1;
}

give-IsBlind : {A : Type 0} (a : A) → IsBlind (give a)
give-IsBlind a = record { same = λ hits. refl; nil = refl }

path_string-IsBlind : (path : String) (o : Option String) → IsBlind (path_string path o)
unfolding path_string record_hit
path_string-IsBlind path none = record { same = λ hits. refl; nil = refl }
path_string-IsBlind path (some s) = record { same = λ hits. refl; nil = refl }

expr_string-IsBlind : (name raw : String) (o : Option Value) → IsBlind (expr_string name raw o)
unfolding expr_string record_hit
expr_string-IsBlind name raw none = record { same = λ hits. refl; nil = refl }
expr_string-IsBlind name raw (some v) = record { same = λ hits. refl; nil = refl }

if-IsBlind :
    {A : Type 0} (b : Bool) (m n : Evaluation A)
    → IsBlind m
    → IsBlind n
    → IsBlind (λ hits. if b then m hits else n hits)
if-IsBlind true m n h i = h
if-IsBlind false m n h i = i

eval_field-IsBlind :
    (lib : Libs) (payload name : String) (f : CompiledField)
    → IsBlind (eval_field lib payload name f)
unfolding eval_field
eval_field-IsBlind lib payload name f =
    if-IsBlind (not (has_value f)) (give "")
      (λ hits.
        if not f.is_expr
        then path_string f.path (lib.get_path payload f.path) hits
        else run_program f.program hits)
      (give-IsBlind "")
      (if-IsBlind (not f.is_expr) (path_string f.path (lib.get_path payload f.path))
        (run_program f.program) (path_string-IsBlind f.path (lib.get_path payload f.path))
        (run_program-IsBlind f.program))
  where
    run_program : Option String → Evaluation String
    run_program o hits = elim o [
      | none ↦ (hits, value "")
      | some src ↦ expr_string name f.raw (lib.run src payload) hits
    ]

    run_program-IsBlind : (o : Option String) → IsBlind (run_program o)
    run_program-IsBlind none = record { same = λ hits. refl; nil = refl }
    run_program-IsBlind (some src) = expr_string-IsBlind name f.raw (lib.run src payload)

put_cell-IsBlind :
    (lib : Libs) (payload name key : String) (f : CompiledField) (table : Assoc String)
    → IsBlind (put_cell lib payload name key f table)
unfolding put_cell
put_cell-IsBlind lib payload name key f table =
    and_then-IsBlind (eval_field-IsBlind lib payload name f)
      (λ v. give-IsBlind (put_text key v table))

put_cells-IsBlind :
    (lib : Libs) (payload prefix : String) (fields : List LabelField) (table : Assoc String)
    → IsBlind (put_cells lib payload prefix fields table)
unfolding put_cells
put_cells-IsBlind lib payload prefix [] table = give-IsBlind table
put_cells-IsBlind lib payload prefix (lf ∷ rest) table =
    and_then-IsBlind
      (put_cell-IsBlind lib payload (String.◌++◌ prefix lf.key) lf.key lf.field table)
      (put_cells-IsBlind lib payload prefix rest)

identify-IsBlind :
    (lib : Libs) (p : KafkaProgram) (payload : String) → IsBlind (identify lib p payload)
unfolding identify
identify-IsBlind lib p payload =
    and_then-IsBlind (eval_field-IsBlind lib payload "mapping.alertname" p.alertname) (λ alertname.
      and_then-IsBlind (eval_field-IsBlind lib payload "mapping.severity" p.severity)
        (λ severity. checked alertname severity (str_eq alertname "") (str_eq severity "")))
  where
    checked :
        (alertname severity : String) (a s : Bool)
        → IsBlind {A = String × String} (
            if a
            then stop missing_alertname
            else if s
            then stop missing_severity
            else give (alertname, severity))
    checked alertname severity true s = record { same = λ hits. refl; nil = refl }
    checked alertname severity false true = record { same = λ hits. refl; nil = refl }
    checked alertname severity false false = record { same = λ hits. refl; nil = refl }

collect_annotations-IsBlind :
    (lib : Libs) (p : KafkaProgram) (payload : String) → IsBlind (collect_annotations lib p payload)
unfolding collect_annotations
collect_annotations-IsBlind lib p payload =
    and_then-IsBlind (put_cell-IsBlind lib payload "mapping.summary" "summary" p.summary [])
      (λ summary.
        and_then-IsBlind
          (put_cell-IsBlind lib payload "mapping.description" "description" p.description summary)
          (λ both.
            and_then-IsBlind
              (put_cells-IsBlind lib payload "mapping.annotations." p.annotations both)
              (λ all. give-IsBlind (with_filter p.cfg.filter all))))

map_fields-IsBlind :
    (lib : Libs) (p : KafkaProgram) (payload source : String)
    → IsBlind (map_fields lib p payload source)
unfolding map_fields collect_labels
map_fields-IsBlind lib p payload source =
    let cell = eval_field-IsBlind lib payload in
    and_then-IsBlind (identify-IsBlind lib p payload) (λ who.
      and_then-IsBlind
        (put_cells-IsBlind lib payload "mapping.labels." p.labels
          (("alertname", who.0) ∷ ("severity", who.1) ∷ ("source", source) ∷ []))
        (λ labels. and_then-IsBlind (collect_annotations-IsBlind lib p payload) (λ annotations.
          and_then-IsBlind (cell "mapping.starts_at" p.starts_at) (λ starts_at.
            and_then-IsBlind (cell "mapping.ends_at" p.ends_at) (λ ends_at.
              and_then-IsBlind (cell "mapping.status_path" p.status_path) (λ status.
                and_then-IsBlind (cell "mapping.fingerprint" p.fingerprint)
                  (λ fingerprint. give-IsBlind _)))))))

-- An answer without its debug map.
abbrev pub without_hits : Answer → Answer
without_hits a = (record a.0 { mapping_hits = none }, a.1)

answer_of-blind :
    (lib : Libs) (p : KafkaProgram) (payload source id : String) (now later : ℕ)
    (filter_eval : Option Bool) (o : Outcome Mapped) (hits left : Hits)
    → left ≡ none
    → without_hits (answer_of lib p payload source id now later filter_eval (hits, o))
      ≡ answer_of lib p payload source id now later filter_eval (left, o)
unfolding answer_of refusal
answer_of-blind lib p payload source id now later fe (stopped (mapping_error name)) hits left e =
    rw e refl
answer_of-blind lib p payload source id now later fe (stopped missing_alertname) hits left e =
    rw e refl
answer_of-blind lib p payload source id now later fe (stopped missing_severity) hits left e =
    rw e refl
answer_of-blind lib p payload source id now later fe (value m) hits left e = rw e refl

mapped-blind :
    (lib : Libs) (p : KafkaProgram) (payload source id : String) (now later : ℕ)
    (filter_eval : Option Bool) (hits : Hits)
    → without_hits (
        answer_of lib p payload source id now later filter_eval
          (map_fields lib p payload source hits))
      ≡ answer_of lib p payload source id now later filter_eval
          (map_fields lib p payload source none)
mapped-blind lib p payload source id now later fe hits =
    let m = map_fields lib p payload source in
    let b = map_fields-IsBlind lib p payload source in
    subst
      (λ o.
        without_hits (answer_of lib p payload source id now later fe ((m hits).0, o))
        ≡ answer_of lib p payload source id now later fe (m none))
      (sym (b.same hits))
      (answer_of-blind lib p payload source id now later fe (m none).1 (m hits).0 (m none).0 b.nil)

start-blind :
    (lib : Libs) (p : KafkaProgram) (payload source id : String) (now later : ℕ)
    (filter : Option String)
    → without_hits (start lib p payload source id now later filter (some []))
      ≡ start lib p payload source id now later filter none
unfolding start run_filter filtered
start-blind lib p payload source id now later none =
    mapped-blind lib p payload source id now later none (some [])
start-blind lib p payload source id now later (some src) = by_run (lib.run src payload)
  where
    filtered_same :
        (ok : Bool)
        → without_hits (filtered lib p payload source id now later ok (some []))
          ≡ filtered lib p payload source id now later ok none
    filtered_same true = mapped-blind lib p payload source id now later (some true) (some [])
    filtered_same false = refl

    by_run :
        (o : Option Value)
        → without_hits (run_filter lib p payload source id now later o (some []))
          ≡ run_filter lib p payload source id now later o none
    by_run none = refl
    by_run (some v) = filtered_same (says_yes (some v))

-- `ApplyForConsumer` answers as `Apply` does, but for the debug map, which it leaves nil.
pub apply_for_consumer-eq-apply :
    (lib : Libs) (p : KafkaProgram) (payload source id : String) (now later : ℕ)
    → apply_for_consumer lib p payload source id now later
      ≡ without_hits (apply lib p payload source id now later)
unfolding apply apply_for_consumer apply_with
apply_for_consumer-eq-apply lib p payload source id now later =
    sym (by_valid (not (lib.valid payload)))
  where
    begin : Hits → Answer
    begin hits = start lib p payload source id now later p.filter hits

    by_valid :
        (bad : Bool)
        → without_hits (if bad then (refused "bad_json" none none, none) else begin (some []))
          ≡ (if bad then (refused "bad_json" none none, none) else begin none)
    by_valid true = refl
    by_valid false = start-blind lib p payload source id now later p.filter
