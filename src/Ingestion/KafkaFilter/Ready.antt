-- ===== src/Ingestion/KafkaFilter/Ready.antt =====
-- internal/ingestion/kafka_filter.go: what a program has that `CompileKafkaProgram` accepts.
use Prim.Native.String
use alertmesh_new.Prelude.{
  String, Bool, true, false, not, Option, none, some, List, [], ◌∷◌, ◌≡◌, refl, sym, ap, ◌∙◌, subst,
  if-both, Assoc, str_eq, if◌then◌else◌, ◌||◌, All, trim_space,
}
use alertmesh_new.Ingestion.KafkaFilter.{
  Libs, CompiledField, LabelField, KafkaFilterConfig, KafkaProgram, has_value, Compiled, error,
  compiled, on_success, blank, compile_body, compile_condition, expr_body, path_field,
  compile_string_field, compile_entries, compile_parts, compile_kafka_program, alertname_blank,
  severity_blank, bad_part,
}

-- What is said of a part that compiles.
abbrev OnCompiled : {A : Type 0} → (A → Type 0) → Compiled A → Type 0
OnCompiled P (error e) = Unit
OnCompiled P (compiled a) = P a

record Yields {A : Type 0} (P : A → Type 0) (x : Compiled A) : Type 0 where
  holds : OnCompiled P x

on_success-Yields :
    {A B : Type 0} {P : A → Type 0} {Q : B → Type 0} {x : Compiled A} {f : A → Compiled B}
    → Yields P x
    → ((a : A) → P a → Yields Q (f a))
    → Yields Q (on_success x f)
unfolding on_success
on_success-Yields {A = A} {P = P} {Q = Q} {x = x} {f = f} h i = record { holds = by_part x h.holds }
  where
    by_part : (y : Compiled A) → OnCompiled P y → OnCompiled Q (on_success y f)
    by_part (error e) h = tt
    by_part (compiled a) h = (i a h).holds

-- A condition is there exactly when the configuration has one, and then it is one that expr accepts.
abbrev pub IsCondition : Libs → String → Option String → Type 0
IsCondition lib raw none = blank raw ≡ true
IsCondition lib raw (some src) =
    (blank raw ≡ false) × (src ≡ trim_space raw) × (lib.compiles_bool src ≡ true)

compile_condition-Yields :
    (lib : Libs) (name raw : String) → Yields (IsCondition lib raw) (compile_condition lib name raw)
unfolding compile_condition
compile_condition-Yields lib name raw = record {
  holds = by_tests (blank raw) (lib.compiles_bool (trim_space raw)) refl refl;
}
  where
    by_tests :
        (b ok : Bool)
        → blank raw ≡ b
        → lib.compiles_bool (trim_space raw) ≡ ok
        → OnCompiled (IsCondition lib raw) (
            if b
            then compiled none
            else if ok
            then compiled (some (trim_space raw))
            else error (bad_part name))
    by_tests true ok e f = e
    by_tests false true e f = (e, refl, f)
    by_tests false false e f = tt

-- A cell has a value exactly when the configuration has one.
abbrev pub IsCell : String → CompiledField → Type 0
IsCell raw f = (f.raw ≡ raw) × (has_value f ≡ not (blank raw))

compile_string_field-Yields :
    (lib : Libs) (name raw : String) → Yields (IsCell raw) (compile_string_field lib name raw)
unfolding compile_string_field compile_body has_value
compile_string_field-Yields lib name raw = record { holds = by_blank (blank raw) refl }
  where
    by_body :
        (o : Option String)
        → blank raw ≡ false
        → OnCompiled (IsCell raw) (compile_body lib name raw (trim_space raw) o)
    by_body none e = (refl, refl)
    by_body (some body) e =
        if-both (OnCompiled (IsCell raw)) (str_eq body "") tt
          (if-both (OnCompiled (IsCell raw)) (lib.compiles_string body) (refl, ap not (sym e)) tt)

    by_blank :
        (b : Bool)
        → blank raw ≡ b
        → OnCompiled (IsCell raw) (
            if b
            then compiled (path_field raw "")
            else compile_body lib name raw (trim_space raw) (expr_body (trim_space raw)))
    by_blank true e = (refl, ap not (sym e))
    by_blank false e = by_body (expr_body (trim_space raw)) e

-- Every entry has a key and a cell with a value.
abbrev pub AreEntries : List LabelField → Type 0
AreEntries fields = All (λ lf. (str_eq lf.key "" ≡ false) × (has_value lf.field ≡ true)) fields

compile_entries-Yields :
    (lib : Libs) (prefix : String) (entries : Assoc String)
    → Yields AreEntries (compile_entries lib prefix entries)
unfolding compile_entries
compile_entries-Yields lib prefix [] = record { holds = tt }
compile_entries-Yields lib prefix (entry ∷ entries) =
    by_tests (str_eq entry.0 "") (blank entry.1) refl refl
      (compile_entries-Yields lib prefix entries)
  where
    by_tests :
        (no_key no_cell : Bool)
        → str_eq entry.0 "" ≡ no_key
        → blank entry.1 ≡ no_cell
        → Yields AreEntries (compile_entries lib prefix entries)
        → Yields AreEntries (
            if no_key || no_cell
            then compile_entries lib prefix entries
            else on_success (compile_string_field lib (String.◌++◌ prefix entry.0) entry.1) (λ f.
              on_success
                (compile_entries lib prefix entries)
                (λ fs. compiled (record { key = entry.0; field = f } ∷ fs))))
    by_tests true no_cell e g h = h
    by_tests false true e g h = h
    by_tests false false e g h =
        on_success-Yields (compile_string_field-Yields lib (String.◌++◌ prefix entry.0) entry.1)
          (λ f c. on_success-Yields h (λ fs all. record { holds = ((e, c.1 ∙ ap not g), all) }))

-- A program that is ready for messages.
abbrev pub IsReady : Libs → KafkaFilterConfig → KafkaProgram → Type 0
IsReady lib cfg p =
    (p.cfg ≡ cfg)
    × IsCondition lib cfg.filter p.filter
    × IsCondition lib cfg.mapping.resolved_when p.resolved_when
    × (has_value p.alertname ≡ true)
    × (has_value p.severity ≡ true)
    × (has_value p.fingerprint ≡ not (blank cfg.mapping.fingerprint))
    × AreEntries p.labels
    × AreEntries p.annotations

compile_parts-Yields :
    (lib : Libs) (cfg : KafkaFilterConfig)
    → blank cfg.mapping.alertname ≡ false
    → blank cfg.mapping.severity ≡ false
    → Yields (IsReady lib cfg) (compile_parts lib cfg)
unfolding compile_parts
compile_parts-Yields lib cfg named ranked =
    let m = cfg.mapping in
    let cell = compile_string_field-Yields lib in
    on_success-Yields (compile_condition-Yields lib "filter" cfg.filter) (λ filter f.
      on_success-Yields (compile_condition-Yields lib "resolved_when" m.resolved_when)
        (λ resolved r. on_success-Yields (cell "alertname" m.alertname) (λ alertname a.
          on_success-Yields (cell "severity" m.severity) (λ severity s.
            on_success-Yields (cell "fingerprint" m.fingerprint) (λ fingerprint g.
              on_success-Yields (cell "starts_at" m.starts_at) (λ starts_at u.
                on_success-Yields (cell "ends_at" m.ends_at) (λ ends_at v.
                  on_success-Yields (cell "status_path" m.status_path) (λ status_path w.
                    on_success-Yields (cell "summary" m.summary) (λ summary x.
                      on_success-Yields (cell "description" m.description) (λ description y.
                        on_success-Yields (compile_entries-Yields lib "labels." m.labels)
                          (λ labels l.
                            on_success-Yields
                              (compile_entries-Yields lib "annotations." m.annotations)
                              (λ annotations n. record {
                                holds = (
                                  refl,
                                  f,
                                  r,
                                  a.1 ∙ ap not named,
                                  s.1 ∙ ap not ranked,
                                  g.1,
                                  l,
                                  n,
                                );
                              }))))))))))))

-- A configuration that compiles gives a program with its two required cells, with a filter and a
-- condition of resolution exactly where the configuration has them, and with no empty entry.
pub compile_kafka_program-IsReady :
    (lib : Libs) (cfg : KafkaFilterConfig) (p : KafkaProgram)
    → compile_kafka_program lib cfg ≡ compiled p
    → IsReady lib cfg p
unfolding compile_kafka_program
compile_kafka_program-IsReady lib cfg p e =
    subst (OnCompiled (IsReady lib cfg)) e
      (by_tests (blank cfg.mapping.alertname) (blank cfg.mapping.severity) refl refl)
  where
    by_tests :
        (no_name no_severity : Bool)
        → blank cfg.mapping.alertname ≡ no_name
        → blank cfg.mapping.severity ≡ no_severity
        → OnCompiled (IsReady lib cfg) (
            if no_name
            then error alertname_blank
            else if no_severity
            then error severity_blank
            else compile_parts lib cfg)
    by_tests true no_severity f g = tt
    by_tests false true f g = tt
    by_tests false false f g = (compile_parts-Yields lib cfg f g).holds
