-- ===== src/Engine/Dedup/Race.antt =====
-- internal/engine/dedup.go under concurrency: any number of calls of `IsDuplicate` on one fingerprint
-- and the clean-up goroutine, interleaved at the operations of `sync.Map`. Fingerprints do not
-- interact, so one is enough; an entry is told from another by the call that allocated it, as the
-- `CompareAndSwap` tells pointers.
use alertmesh_new.Prelude.{
  ℕ, ◌+◌, ◌≤◌, ◌<◌, Bool, true, false, Option, none, some, List, [], ◌∷◌, ◌≡◌, ◌≢◌, ◌==◌, ltb,
  if◌then◌else◌,
}

-- The pointer in the map.
pub record SeenEntry : Type 0 where
  pub owner : ℕ
  pub expires_at : ℕ

-- Where a call stands, with the time that it has read.
pub data Pc : Type 0 where
  idle : Pc  -- before time.Now()
  loading : ℕ → Pc  -- before LoadOrStore
  swapping : ℕ → SeenEntry → Pc  -- before CompareAndSwap over this entry
  returned : Bool → Pc

-- Where the clean-up stands.
pub data Sweeper : Type 0 where
  waiting : Sweeper
  deleting : SeenEntry → Sweeper  -- after the test of this entry, before Delete

-- `passed` has, for the calls that returned false, the time that each had read and the time at which
-- it took its entry, the last call first; `early` counts the entries deleted before they expired.
pub record System : Type 0 where
  pub clock : ℕ
  pub seen : Option SeenEntry
  pub pc : ℕ → Pc
  pub sweeper : Sweeper
  pub passed : List (ℕ × ℕ)
  pub early : ℕ

abbrev pub update : (ℕ → Pc) → ℕ → Pc → ℕ → Pc
update f i p j = if i == j then p else f j

abbrev pub moved : System → ℕ → Pc → System
moved s i p = record s { pc = update s.pc i p }

-- The call `i` stores its entry and returns false.
abbrev pub stored : System → ℕ → ℕ → ℕ → System
stored s ttl i now = record s {
  seen = some (record { owner = i; expires_at = now + ttl });
  pc = update s.pc i (returned false);
  passed = (now, s.clock) ∷ s.passed;
}

abbrev pub lost : ℕ → Option SeenEntry → ℕ
lost clock none = 0
lost clock (some e) = if ltb e.expires_at clock then 0 else 1

abbrev pub later : System → ℕ → System
later s n = record s { clock = s.clock + n }

-- Delete takes whatever entry the key has by then.
abbrev pub deleted : System → System
deleted s = record s { seen = none; sweeper = waiting; early = s.early + lost s.clock s.seen }

pub data Step (ttl : ℕ) (s : System) : System → Type 0 where
  time_passes : (n : ℕ) → Step ttl s (later s n)
  read_clock : (i : ℕ) → s.pc i ≡ idle → Step ttl s (moved s i (loading s.clock))
  -- LoadOrStore stores
  store : (i now : ℕ) → s.pc i ≡ loading now → s.seen ≡ none → Step ttl s (stored s ttl i now)
  -- LoadOrStore loads an entry that is alive
  hit :
      (i now : ℕ) (e : SeenEntry)
      → s.pc i ≡ loading now
      → s.seen ≡ some e
      → now < e.expires_at
      → Step ttl s (moved s i (returned true))
  -- LoadOrStore loads an entry that has expired
  stale :
      (i now : ℕ) (e : SeenEntry)
      → s.pc i ≡ loading now
      → s.seen ≡ some e
      → e.expires_at ≤ now
      → Step ttl s (moved s i (swapping now e))
  swap :
      (i now : ℕ) (old e : SeenEntry)
      → s.pc i ≡ swapping now old
      → s.seen ≡ some e
      → e.owner ≡ old.owner
      → Step ttl s (stored s ttl i now)
  swap_fails :
      (i now : ℕ) (old : SeenEntry)
      → s.pc i ≡ swapping now old
      → ((e : SeenEntry) → s.seen ≡ some e → e.owner ≢ old.owner)
      → Step ttl s (moved s i (loading now))
  -- the clean-up reads the clock and visits the entry
  visit :
      (e : SeenEntry)
      → s.sweeper ≡ waiting
      → s.seen ≡ some e
      → e.expires_at < s.clock
      → Step ttl s (record s { sweeper = deleting e })
  delete : (e : SeenEntry) → s.sweeper ≡ deleting e → Step ttl s (deleted s)

abbrev pub init : System
init = record { clock = 0; seen = none; pc = λ i. idle; sweeper = waiting; passed = []; early = 0 }

pub data Reach (ttl : ℕ) : System → Type 0 where
  here : Reach ttl init
  next : {s t : System} → Reach ttl s → Step ttl s t → Reach ttl t
