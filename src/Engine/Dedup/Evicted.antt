-- ===== src/Engine/Dedup/Evicted.antt =====
-- internal/engine/dedup.go: what the unconditional `Delete` of the clean-up costs.
use alertmesh_new.Prelude.{ℕ, ◌+◌, ◌<◌, List, [], ◌∷◌, ◌≡◌, refl, arith}
use alertmesh_new.Engine.Dedup.Race.{
  SeenEntry, System, time_passes, read_clock, store, stale, swap, visit, delete, Reach, here, next,
}
use alertmesh_new.Engine.Dedup.Claims.{Spaced}

-- For any positive `ttl` some interleaving lets two calls through that read the clock and take their
-- entries all at one instant, so that the calls that pass are not a `ttl` apart: the clean-up finds
-- the entry of call 0 expired, call 1 replaces it and returns false, the clean-up deletes the fresh
-- entry, and call 2 stores another and returns false.
pub evict-Spaced :
    (ttl : ℕ)
    → 0 < ttl
    → (s : System) × Reach ttl s
      × (0 < s.early)
      × ((t : ℕ) × (before : List (ℕ × ℕ)) × (s.passed ≡ (t, t) ∷ (t, t) ∷ before))
      × (¬ Spaced ttl s.passed)
evict-Spaced ttl lt =
    let first : SeenEntry = record { owner = 0; expires_at = 0 + ttl } in
    let end : ℕ = 0 + (ttl + 1) in
    let r2 : Reach ttl _ = next (next here (read_clock 0 refl)) (store 0 0 refl refl) in
    let r4 : Reach ttl _ =
      next (next r2 (time_passes (ttl + 1))) (visit first refl refl (omega arith)) in
    let r6 : Reach ttl _ =
      next (next r4 (read_clock 1 refl)) (stale 1 end first refl refl (omega arith)) in
    let r8 : Reach ttl _ =
      next (next r6 (swap 1 end first first refl refl refl)) (delete first refl) in
    let r10 : Reach ttl _ = next (next r8 (read_clock 2 refl)) (store 2 end refl refl) in
    (_, r10, ground arith, (end, (0, 0) ∷ [], refl), λ h. omega (arith, lt, h.0.0))
