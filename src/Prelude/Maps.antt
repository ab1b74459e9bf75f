-- ===== src/Prelude/Maps.antt =====
-- Go maps with string keys as association lists. `lookup` finds the only entry of a key, since
-- `insert` replaces it.
use Prim.Native.String.{String}
use mathlib.Core.Path.{◌≡◌, refl, sym, subst}
use mathlib.Core.Option.{Option, none, some}
use mathlib.Core.List.{List, [], ◌∷◌}
use native.Mathlib.Omega.{arith}
use text.Mathlib.Text.{◌==◌ as str_eq}
use text.Mathlib.TextEquality.{eq_iff}
use alertmesh_new.Prelude.Tests.{if◌then◌else◌, if-both}

abbrev pub Assoc {ℓ} : Type ℓ → Type ℓ
Assoc V = List (String × V)

module _ {ℓ} {V : Type ℓ} where
  -- delete(table, key)
  unfoldable pub delete : String → Assoc V → Assoc V
  delete key [] = []
  delete key (entry ∷ table) =
      let rest = delete key table in if str_eq entry.0 key then rest else entry ∷ rest

  -- value, ok := table[key]
  unfoldable pub lookup : String → Assoc V → Option V
  lookup key [] = none
  lookup key (entry ∷ table) = if str_eq entry.0 key then some entry.1 else lookup key table

  -- table[key] = value
  unfoldable pub insert : String → V → Assoc V → Assoc V
  insert key value [] = (key, value) ∷ []
  insert key value (entry ∷ table) =
      if str_eq entry.0 key then (key, value) ∷ table else entry ∷ insert key value table

  pub lookup-insert :
      (key other : String) (value : V) (table : Assoc V)
      → lookup other (insert key value table)
        ≡ (if str_eq key other then some value else lookup other table)
  unfolding lookup insert
  lookup-insert key other value [] = ground arith
  lookup-insert key other value (entry ∷ table) = ground (
    arith,
    lookup-insert key other value table,
    eq_iff entry.0 key,
    eq_iff entry.0 other,
    eq_iff key other,
  )

  -- What holds of the new value and of the old entry holds of the entry after an insertion.
  pub lookup-insert_both {κ} :
      (P : Option V → Type κ) (key other : String) (value : V) (table : Assoc V)
      → P (some value)
      → P (lookup other table)
      → P (lookup other (insert key value table))
  lookup-insert_both P key other value table new old =
      subst P (sym (lookup-insert key other value table)) (if-both P (str_eq key other) new old)

  pub lookup-delete :
      (k j : String) (m : Assoc V)
      → lookup j (delete k m) ≡ (if str_eq k j then none else lookup j m)
  unfolding lookup delete
  lookup-delete k j [] = ground arith
  lookup-delete k j ((i, w) ∷ m) =
      ground (arith, lookup-delete k j m, eq_iff i j, eq_iff i k, eq_iff k j)

-- m[k] of a map[string]string: "" for a missing key.
unfoldable pub get : Assoc String → String → String
unfolding lookup
get m k = elim (lookup k m) [ none ↦ "" | some v ↦ v ]

module _ {ℓ} {V : Type ℓ} where
  -- No key has two entries.
  abbrev pub Unique : Assoc V → Type ℓ
  Unique [] = Unit
  Unique ((k, v) ∷ m) = (lookup k m ≡ none) × Unique m

  pub insert-Unique : (k : String) (v : V) (m : Assoc V) → Unique m → Unique (insert k v m)
  unfolding insert lookup
  insert-Unique k v [] u = (refl, tt)
  insert-Unique k v ((j, w) ∷ m) u =
      ground (arith, insert-Unique k v m u.1, lookup-insert k j v m, eq_iff j k, eq_iff k j)

  pub delete-Unique : (k : String) (m : Assoc V) → Unique m → Unique (delete k m)
  unfolding delete
  delete-Unique k [] u = tt
  delete-Unique k ((j, w) ∷ m) u = ground (arith, delete-Unique k m u.1, lookup-delete k j m)
