-- ===== src/Ingestion/KafkaFilter/Helpers/Paths.antt =====
-- internal/ingestion/kafka_filter.go: `normalizePath` on the segments of a path.
use Prim.Native.String.{[], ◌∷◌}
use Prim.Native.Char.{Char, code}
use mathlib.Core.List.{List, [] as nil, ◌∷◌ as cons}
use alertmesh_new.Prelude.{
  String, Bool, true, false, ◌==◌, ◌≡◌, refl, sym, ap, ◌∙◌, subst, arith, str_eq, eq_iff,
  if◌then◌else◌, if-both, if-no, All,
}
use alertmesh_new.Ingestion.KafkaFilter.Helpers.{
  push, split, prepend, join_slash, is_changed, replace_ids, any_changed, normalize_path,
}

abbrev NoSlash : String → Type 0
NoSlash [] = Unit
NoSlash (c ∷ s) = ((code c == 47) ≡ false) × NoSlash s

abbrev NonNil : List String → Type 0
NonNil nil = ⊥
NonNil (cons x xs) = Unit

push-NoSlash :
    (c : Char) (ps : List String)
    → (code c == 47) ≡ false
    → All NoSlash ps
    → All NoSlash (push c ps)
push-NoSlash c nil e h = ((e, tt), tt)
push-NoSlash c (cons p ps) e h = ((e, h.0), h.1)

split-NoSlash : (s : String) → All NoSlash (split s)
unfolding split
split-NoSlash [] = (tt, tt)
split-NoSlash (c ∷ s) = by_slash (code c == 47) refl (split-NoSlash s)
  where
    by_slash :
        (b : Bool)
        → (code c == 47) ≡ b
        → All NoSlash (split s)
        → All NoSlash (if b then cons [] (split s) else push c (split s))
    by_slash true e h = (tt, h)
    by_slash false e h = push-NoSlash c (split s) e h

split-NonNil : (s : String) → NonNil (split s)
unfolding split
split-NonNil [] = tt
split-NonNil (c ∷ s) = if-both NonNil (code c == 47) tt (pushed (split s))
  where
    pushed : (ps : List String) → NonNil (push c ps)
    pushed nil = tt
    pushed (cons p ps) = tt

split-prepend : (x rest : String) → NoSlash x → split (prepend x ("/" ∷ rest)) ≡ cons x (split rest)
unfolding split prepend
split-prepend [] rest h = refl
split-prepend (c ∷ x) rest h = rw h.0 (ap (push c) (split-prepend x rest h.1))

split-segment : (x : String) → NoSlash x → split x ≡ cons x nil
unfolding split
split-segment [] h = refl
split-segment (c ∷ x) h = rw h.0 (ap (push c) (split-segment x h.1))

split-join_slash : (l : List String) → NonNil l → All NoSlash l → split (join_slash l) ≡ l
unfolding join_slash
split-join_slash nil n h = absurd n
split-join_slash (cons x nil) n h = split-segment x h.0
split-join_slash (cons x (cons y ys)) n h =
    split-prepend x (join_slash (cons y ys)) h.0
    ∙ ap (λ l. cons x l) (split-join_slash (cons y ys) tt h.1)

module _ (is_id : String → Bool) where
  replace_ids-NoSlash : (l : List String) → All NoSlash l → All NoSlash (replace_ids is_id l)
  unfolding replace_ids
  replace_ids-NoSlash nil h = tt
  replace_ids-NoSlash (cons x xs) h =
      let rest = replace_ids-NoSlash xs h.1 in
      if-both (All NoSlash) (is_changed is_id x) ((refl, (refl, (refl, (refl, tt)))), rest)
        (h.0, rest)

  replace_ids-NonNil : (l : List String) → NonNil l → NonNil (replace_ids is_id l)
  unfolding replace_ids
  replace_ids-NonNil nil n = n
  replace_ids-NonNil (cons x xs) n = if-both NonNil (is_changed is_id x) tt tt

  replace_ids_same : (l : List String) → any_changed is_id l ≡ false → replace_ids is_id l ≡ l
  unfolding replace_ids any_changed
  replace_ids_same nil e = refl
  replace_ids_same (cons x xs) e = ground (arith, replace_ids_same xs)

  any_changed-replace_ids :
      (l : List String) → is_id "{id}" ≡ false → any_changed is_id (replace_ids is_id l) ≡ false
  unfolding replace_ids any_changed is_changed
  any_changed-replace_ids nil e = refl
  any_changed-replace_ids (cons x xs) e =
      by_test (is_changed is_id x) refl (any_changed-replace_ids xs e)
    where
      by_test :
          (b : Bool)
          → is_changed is_id x ≡ b
          → any_changed is_id (replace_ids is_id xs) ≡ false
          → any_changed is_id
              (if b then cons "{id}" (replace_ids is_id xs) else cons x (replace_ids is_id xs))
            ≡ false
      by_test true f h = rw e h
      by_test false f h = rw f h

  one_empty : split "" ≡ replace_ids is_id (split "")
  unfolding split replace_ids is_changed
  one_empty = refl

  split-normalize_path : (s : String) → split (normalize_path is_id s) ≡ replace_ids is_id (split s)
  unfolding normalize_path
  split-normalize_path s = by_tests (str_eq s "") (any_changed is_id (split s)) refl refl
    where
      by_tests :
          (empty changed : Bool)
          → str_eq s "" ≡ empty
          → any_changed is_id (split s) ≡ changed
          → split
              (if empty then s else if changed then join_slash (replace_ids is_id (split s)) else s)
            ≡ replace_ids is_id (split s)
      by_tests true changed e f =
          subst (λ t. split t ≡ replace_ids is_id (split t)) (sym ((eq_iff s "").0 e)) one_empty
      by_tests false true e f =
          split-join_slash (replace_ids is_id (split s))
            (replace_ids-NonNil (split s) (split-NonNil s))
            (replace_ids-NoSlash (split s) (split-NoSlash s))
      by_tests false false e f = sym (replace_ids_same (split s) f)

  normalize_path_same :
      (s : String) → any_changed is_id (split s) ≡ false → normalize_path is_id s ≡ s
  unfolding normalize_path
  normalize_path_same s e =
      if-both (λ t. t ≡ s) (str_eq s "") refl
        (if-no (λ t. t ≡ s) (any_changed is_id (split s)) (join_slash (replace_ids is_id (split s)))
          s e refl)

  -- `normalize_path` replaces the segments that are ids and leaves the others and the slashes as they
  -- are; if "{id}" itself is no id, a second run changes nothing.
  pub normalize_path_idem :
      (s : String)
      → is_id "{id}" ≡ false
      → (split (normalize_path is_id s) ≡ replace_ids is_id (split s))
        × (normalize_path is_id (normalize_path is_id s) ≡ normalize_path is_id s)
  normalize_path_idem s e = (
    split-normalize_path s,
    normalize_path_same (normalize_path is_id s)
        (ap (any_changed is_id) (split-normalize_path s) ∙ any_changed-replace_ids (split s) e),
  )
