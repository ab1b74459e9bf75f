-- ===== src/Ingestion/Tracker.antt =====
-- internal/ingestion/partition_tracker.go. The mutex makes each method one step. A map from
-- partition numbers is a function; a Go map that is walked (`hwm` in `DrainCommittable`) is walked
-- over a list of partitions that the caller of the model gives, since Go leaves the order open.
pub mod Gaps
pub mod Prefix
pub mod Partition
pub mod Commit
use alertmesh_new.Prelude.{
  ℕ, suc, zero, ◌+◌, ◌-◌, String, Bool, true, false, Option, none, some, List, [], ◌∷◌, length, ℤ,
  pos, ◌-ℤ◌, ◌+ℤ◌, leb_ℤ, eqb_ℤ, leb, ◌==◌, if◌then◌else◌,
}

-- The fields of `kafka.Message` that the tracker reads, and the rest. Offsets are not negative.
pub record Message : Type 0 where
  pub partition : ℕ
  pub offset : ℕ
  pub payload : String

-- A bucket of `pending`: map[int64]kafka.Message.
abbrev pub Bucket : Type 0
Bucket = List (ℕ × Message)

unfoldable pub bucket_get : ℕ → Bucket → Option Message
bucket_get k [] = none
bucket_get k ((j, m) ∷ b) = if j == k then some m else bucket_get k b

unfoldable pub bucket_set : ℕ → Message → Bucket → Bucket
bucket_set k m [] = (k, m) ∷ []
bucket_set k m ((j, n) ∷ b) = if j == k then (k, m) ∷ b else (j, n) ∷ bucket_set k m b

unfoldable pub bucket_delete : ℕ → Bucket → Bucket
bucket_delete k [] = []
bucket_delete k ((j, n) ∷ b) =
    let rest = bucket_delete k b in if j == k then rest else (j, n) ∷ rest

-- The entries of one partition in the four maps. A missing bucket is the empty one; a missing
-- `committedHWM` reads as 0.
pub record Entry : Type 0 where
  pub pending : Bucket
  pub hwm : Option Message
  pub committed_hwm : ℤ
  pub first_seen : Bool

unfoldable pub new_entry : Entry
new_entry = record { pending = []; hwm = none; committed_hwm = pos 0; first_seen = false }

abbrev pub Tracker : Type 0
Tracker = ℕ → Entry

-- `newPartitionTracker`
unfoldable pub new_tracker : Tracker
unfolding new_entry
new_tracker p = new_entry

-- The first ack of a partition sets its floor.
see : Entry → Message → Entry
see e msg =
    if e.first_seen
    then e
    else record e { first_seen = true; committed_hwm = pos msg.offset -ℤ pos 1 }

-- Whether a commit or the contiguous prefix covers the message already.
pub is_covered : Entry → Message → Bool
is_covered e msg =
    if leb_ℤ (pos msg.offset) e.committed_hwm
    then true
    else elim e.hwm [ none ↦ false | some cur ↦ leb msg.offset cur.offset ]

-- `expected`
unfoldable pub expected : Entry → ℤ
expected e = elim e.hwm [ none ↦ e.committed_hwm +ℤ pos 1 | some cur ↦ pos (cur.offset + 1) ]

-- The `for` of `Ack`. Each round but the last takes an entry out of the bucket, so its length is
-- fuel enough (Tracker/Prefix.antt).
unfoldable pub absorb : ℕ → Message → Bucket → Message × Bucket
absorb zero top b = (top, b)
absorb (suc fuel) top b = elim (bucket_get (top.offset + 1) b) [
  | none ↦ (top, b)
  | some next ↦ absorb fuel next (bucket_delete (top.offset + 1) b)
]

-- `Ack` within the message's partition.
unfoldable pub ack_entry : Entry → Message → Entry
unfolding see is_covered expected absorb bucket_set ◌-ℤ◌ ◌+ℤ◌
ack_entry e0 msg =
    let e = see e0 msg in
    if is_covered e msg
    then e
    else if eqb_ℤ (pos msg.offset) (expected e)
    then (let (top, left) = absorb (length e.pending) msg e.pending in
        record e { hwm = some top; pending = left })
    else record e { pending = bucket_set msg.offset msg e.pending }

unfoldable pub ack : Tracker → Message → Tracker
unfolding ack_entry
ack t msg p = if p == msg.partition then ack_entry (t p) msg else t p

-- The body of the loop of `DrainCommittable`.
unfoldable pub drain_entry : Entry → Entry × Option Message
drain_entry e = elim e.hwm [
  | none ↦ (e, none)
  | some msg ↦ (record e { committed_hwm = pos msg.offset; hwm = none }, some msg)
]

-- out = append(out, msg)
unfoldable pub emit : Option Message → List Message → List Message
emit none rest = rest
emit (some msg) rest = msg ∷ rest

-- `DrainCommittable` over the partitions of the list.
unfoldable pub drain : List ℕ → Tracker → Tracker × List Message
unfolding drain_entry emit
drain [] t = (t, [])
drain (p ∷ ps) t =
    let (e, out) = drain_entry (t p) in
    let (t', rest) = drain ps (λ q. if q == p then e else t q) in (t', emit out rest)

-- `PendingDepth` over the partitions of the list.
unfoldable pub pending_depth : List ℕ → Tracker → ℕ
pending_depth [] t = 0
pending_depth (p ∷ ps) t = length (t p).pending + pending_depth ps t
