-- ===== src/Engine/GroupKey/Laws.antt =====
-- internal/engine/aggregation.go: what the group key depends on.
use Prim.Native.String
use text.Mathlib.TextLemmas.{append_assoc}
use alertmesh_new.Prelude.{
  String, true, List, [], ◌∷◌, map, Assoc, get, All, ◌≡◌, refl, ap, arith, Bool-cases, inl, inr,
  lookup, eq_iff, eq_refl, ◌≢◌,
}
use alertmesh_new.Engine.GroupKey.{
  Digest, str_le, insert_sorted, sort_strings, join, key_text, compute_group_key,
}

insert_sorted-All :
    (P : String → Type 0) (x : String) (ys : List String)
    → P x
    → All P ys
    → All P (insert_sorted x ys)
unfolding insert_sorted
insert_sorted-All P x [] h hs = (h, tt)
insert_sorted-All P x (y ∷ ys) h hs = elim (Bool-cases (str_le x y)) [
  | inl le ↦ rw le (h, hs)
  | inr gt ↦ rw gt (hs.0, insert_sorted-All P x ys h hs.1)
]

sort_strings-All : (P : String → Type 0) (xs : List String) → All P xs → All P (sort_strings xs)
unfolding sort_strings
sort_strings-All P [] h = tt
sort_strings-All P (x ∷ xs) h =
    insert_sorted-All P x (sort_strings xs) h.0 (sort_strings-All P xs h.1)

map-All : (f g : String → String) (ks : List String) → All (λ k. f k ≡ g k) ks → map f ks ≡ map g ks
map-All f g [] h = refl
map-All f g (k ∷ ks) h = cc (h.0, map-All f g ks h.1)

-- Two alerts that agree on every label of `groupBy` have the same group key, a missing label reading
-- as "".
pub compute_group_key_agree :
    (dg : Digest) (a b : Assoc String) (group_by : List String)
    → All (λ k. get a k ≡ get b k) group_by
    → compute_group_key dg a group_by ≡ compute_group_key dg b group_by
unfolding compute_group_key key_text
compute_group_key_agree dg a b group_by h =
    ap (λ t. dg.sha256_8 (join t))
      (map-All _ _ (sort_strings group_by)
        (sort_strings-All (λ k. _ ≡ _) group_by (All-key group_by h)))
  where
    All-key :
        (ks : List String)
        → All (λ k. get a k ≡ get b k) ks
        → All
            (λ k.
              String.◌++◌ k (String.◌++◌ "=" (get a k)) ≡ String.◌++◌ k (String.◌++◌ "=" (get b k)))
            ks
    All-key [] h = tt
    All-key (k ∷ ks) h = (ap (λ v. String.◌++◌ k (String.◌++◌ "=" v)) h.0, All-key ks h.1)

abbrev pub pair_text : String → String → String
pair_text k v = String.◌++◌ k (String.◌++◌ "=" v)

abbrev pub comma : String → String → String
comma a b = String.◌++◌ a (String.◌++◌ "," b)

sort_strings_two : (k j : String) → str_le k j ≡ true → sort_strings (k ∷ j ∷ []) ≡ k ∷ j ∷ []
unfolding sort_strings insert_sorted
sort_strings_two k j le = ground arith

key_text_two :
    (labels : Assoc String) (k j : String)
    → str_le k j ≡ true
    → key_text labels (k ∷ j ∷ []) ≡ comma (pair_text k (get labels k)) (pair_text j (get labels j))
unfolding key_text join
key_text_two labels k j le =
    ap (λ ks. join (map (λ i. pair_text i (get labels i)) ks)) (sort_strings_two k j le)

get_first : (k j v w : String) → get ((k, v) ∷ (j, w) ∷ []) k ≡ v
unfolding get lookup
get_first k j v w = ground (arith, eq_refl k)

get_second : (k j v w : String) → k ≢ j → get ((k, v) ∷ (j, w) ∷ []) j ≡ w
unfolding get lookup
get_second k j v w ne = ground (arith, eq_iff k j, eq_refl j)

-- The converse fails. For two labels `k` before `j`, a comma in a value moves the boundary between
-- them: the values `u,j=v` and `w` give the key of the values `u` and `v,j=w`.
pub compute_group_key_collide :
    (dg : Digest) (k j u v w : String)
    → k ≢ j
    → str_le k j ≡ true
    → compute_group_key dg ((k, comma u (pair_text j v)) ∷ (j, w) ∷ []) (k ∷ j ∷ [])
      ≡ compute_group_key dg ((k, u) ∷ (j, comma v (pair_text j w)) ∷ []) (k ∷ j ∷ [])
unfolding compute_group_key
compute_group_key_collide dg k j u v w ne le = ap dg.sha256_8 (
    rw
      (
        key_text_two _ k j le,
        key_text_two _ k j le,
        get_first k j (comma u (pair_text j v)) w,
        get_second k j (comma u (pair_text j v)) w ne,
        get_first k j u (comma v (pair_text j w)),
        get_second k j u (comma v (pair_text j w)) ne,
      )
      (simp append_assoc))
