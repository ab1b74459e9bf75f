-- ===== src/Engine/Dedup.antt =====
-- internal/engine/dedup.go, one call at a time. Concurrent calls are in Dedup/Race.antt.
pub mod Window
pub mod Race
pub mod Claims
pub mod Once
pub mod Evicted
use alertmesh_new.Prelude.{
  ℕ, ◌+◌, ◌*◌, String, Bool, true, false, Option, none, some, [], ◌∷◌, Assoc, lookup, insert, ltb,
  if◌then◌else◌,
}

pub record DedupEntry : Type 0 where
  pub expires_at : ℕ
  pub count : ℕ  -- atomic.Int64

pub record Deduplicator : Type 0 where
  pub seen : Assoc DedupEntry
  pub ttl : ℕ

-- Nanoseconds in a second.
abbrev pub second : ℕ
second = 1_000_000_000

-- `NewDeduplicator`, with `defaultDedupTTL` of five minutes.
unfoldable pub new_deduplicator : Deduplicator
new_deduplicator = record { seen = []; ttl = 5 * 60 * second }

-- `IsDuplicate` with no other goroutine between its steps: `LoadOrStore` stores into a free key, and
-- the `CompareAndSwap` over a stale entry succeeds at once.
unfoldable pub is_duplicate : Deduplicator → ℕ → String → Deduplicator × Bool
is_duplicate d now fp =
    let fresh : DedupEntry = record { expires_at = now + d.ttl; count = 1 } in
    let stored = record d { seen = insert fp fresh d.seen } in
    elim (lookup fp d.seen) [
      | none ↦ (stored, false)
      | some entry ↦
          if ltb now entry.expires_at
          then (
            record d { seen = insert fp (record entry { count = entry.count + 1 }) d.seen },
            true,
          )
          else (stored, false)
    ]

drop_expired : ℕ → Assoc DedupEntry → Assoc DedupEntry
drop_expired now [] = []
drop_expired now ((k, e) ∷ m) =
    let rest = drop_expired now m in if ltb e.expires_at now then rest else (k, e) ∷ rest

-- One tick of `cleanup` with no call between its steps.
unfoldable pub sweep : Deduplicator → ℕ → Deduplicator
unfolding drop_expired
sweep d now = record d { seen = drop_expired now d.seen }
