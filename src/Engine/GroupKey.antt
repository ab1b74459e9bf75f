-- ===== src/Engine/GroupKey.antt =====
-- internal/engine/aggregation.go: `computeGroupKey`.
--
-- The hashes are parameters (`Digest`). `computeGroupKey` sorts its argument in place; the model
-- sorts a copy. Nothing but `computeGroupKey` reads the labels of a `groupBy`, and it sorts them
-- again each time.
pub mod Laws
use Prim.Native.String
use Prim.Native.Nat.{Ordering}
use alertmesh_new.Prelude.{
  ℕ, String, Bool, true, false, List, [], ◌∷◌, map, Assoc, get, if◌then◌else◌,
}

pub record Digest : Type 0 where
  -- The first eight bytes of the SHA-256 digest, in hexadecimal.
  pub sha256_8 : String → String
  -- The 32-bit FNV-1a hash.
  pub fnv32a : String → ℕ

-- `sort.Strings`: the order of the bytes, which on UTF-8 is that of the code points.
unfoldable pub str_le : String → String → Bool
str_le s t = elim (String.compare s t) [ Ordering.gt ↦ false | _ ↦ true ]

insert_sorted : String → List String → List String
insert_sorted x [] = x ∷ []
insert_sorted x (y ∷ ys) = if str_le x y then x ∷ y ∷ ys else y ∷ insert_sorted x ys

unfoldable pub sort_strings : List String → List String
unfolding insert_sorted
sort_strings [] = []
sort_strings (x ∷ xs) = insert_sorted x (sort_strings xs)

-- `strings.Join(parts, ",")`
unfoldable pub join : List String → String
join [] = ""
join (x ∷ []) = x
join (x ∷ y ∷ ys) = String.◌++◌ x (String.◌++◌ "," (join (y ∷ ys)))

-- The text that `computeGroupKey` hashes.
unfoldable pub key_text : Assoc String → List String → String
unfolding sort_strings join
key_text labels group_by =
    join (map (λ k. String.◌++◌ k (String.◌++◌ "=" (get labels k))) (sort_strings group_by))

unfoldable pub compute_group_key : Digest → Assoc String → List String → String
compute_group_key dg labels group_by = dg.sha256_8 (key_text labels group_by)
