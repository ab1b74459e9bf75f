-- ===== src/Engine/Tests/Keys.antt =====
-- Runs of internal/engine/dedup.go under concurrency, and of `computeGroupKey`.
use alertmesh_new.Prelude.{ℕ, ◌<◌, true, List, [], ◌∷◌, ◌≡◌, refl, arith, eq_iff, get, lookup}
use alertmesh_new.Engine.Dedup.Race.{
  SeenEntry, System, time_passes, read_clock, store, stale, swap, Reach, here, next,
}
use alertmesh_new.Engine.Dedup.Claims.{Spaced}
use alertmesh_new.Engine.Dedup.Once.{passed-Spaced}
use alertmesh_new.Engine.Dedup.Evicted.{evict-Spaced}
use alertmesh_new.Engine.GroupKey.{str_le, compute_group_key}
use alertmesh_new.Engine.GroupKey.Laws.{compute_group_key_agree, compute_group_key_collide}
use alertmesh_new.Engine.Tests.{plain_digest}

abbrev first : SeenEntry
first = record { owner = 0; expires_at = 3 }

-- Call 0 passes at 0; call 1 reads 4, finds the entry expired, and takes it over.
passed-Spaced_example : Spaced 3 ((4, 4) ∷ (0, 0) ∷ [])
passed-Spaced_example =
    passed-Spaced 3
      (next
        (next
          (next (next (next (next here (read_clock 0 refl)) (store 0 0 refl refl)) (time_passes 4))
            (read_clock 1 refl))
          (stale 1 4 first refl refl (omega arith)))
        (swap 1 4 first first refl refl refl))
      refl

evict-Spaced_example :
    (s : System) × Reach 300 s
    × (0 < s.early)
    × ((t : ℕ) × (before : List (ℕ × ℕ)) × (s.passed ≡ (t, t) ∷ (t, t) ∷ before))
    × (¬ Spaced 300 s.passed)
evict-Spaced_example = evict-Spaced 300 (omega arith)

compute_group_key_agree_example :
    compute_group_key plain_digest (("job", "api") ∷ ("pod", "a") ∷ []) ("job" ∷ "env" ∷ [])
    ≡ compute_group_key plain_digest (("pod", "b") ∷ ("job", "api") ∷ []) ("job" ∷ "env" ∷ [])
unfolding get lookup
compute_group_key_agree_example =
    compute_group_key_agree plain_digest (("job", "api") ∷ ("pod", "a") ∷ [])
      (("pod", "b") ∷ ("job", "api") ∷ []) ("job" ∷ "env" ∷ []) (refl, (refl, tt))

a_before_b : str_le "a" "b" ≡ true
unfolding str_le
a_before_b = refl

compute_group_key_collide_example :
    compute_group_key plain_digest (("a", "1,b=2") ∷ ("b", "3") ∷ []) ("a" ∷ "b" ∷ [])
    ≡ compute_group_key plain_digest (("a", "1") ∷ ("b", "2,b=3") ∷ []) ("a" ∷ "b" ∷ [])
compute_group_key_collide_example =
    compute_group_key_collide plain_digest "a" "b" "1" "2" "3"
      (λ h. ground (arith, h, eq_iff "a" "b")) a_before_b
