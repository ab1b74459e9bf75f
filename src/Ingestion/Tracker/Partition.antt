-- ===== src/Ingestion/Tracker/Partition.antt =====
-- internal/ingestion/partition_tracker.go: the maps of a partition hold its own messages only.
use alertmesh_new.Prelude.{
  ℕ, suc, zero, ◌+◌, none, some, length, ◌≡◌, sym, ◌∙◌, ◌⊎◌, inl, inr, arith, Option-cases,
}
use alertmesh_new.Ingestion.Tracker.{
  Message, Bucket, bucket_get, bucket_set, bucket_delete, Entry, new_entry, absorb, ack_entry,
  drain_entry,
}
use alertmesh_new.Ingestion.Tracker.Gaps.{bucket_get-set, bucket_get-delete}

abbrev pub Holds : ℕ → Bucket → Type 0
Holds p b = (k : ℕ) (m : Message) → bucket_get k b ≡ some m → m.partition ≡ p

pub record IsOf (p : ℕ) (e : Entry) : Type 0 where
  pub top : (m : Message) → e.hwm ≡ some m → m.partition ≡ p
  pub waiting : Holds p e.pending

delete-Holds : (p k : ℕ) (b : Bucket) → Holds p b → Holds p (bucket_delete k b)
delete-Holds p k b h j m found = ground (arith, bucket_get-delete k j b, h j m)

set-Holds :
    (p : ℕ) (msg : Message) (b : Bucket)
    → msg.partition ≡ p
    → Holds p b
    → Holds p (bucket_set msg.offset msg b)
set-Holds p msg b own h j m found = ground (arith, bucket_get-set msg.offset j msg b, h j m)

absorb-Holds :
    (p fuel : ℕ) (top : Message) (b : Bucket)
    → top.partition ≡ p
    → Holds p b
    → ((absorb fuel top b).0.partition ≡ p) × Holds p (absorb fuel top b).1
unfolding absorb
absorb-Holds p zero top b own h = (own, h)
absorb-Holds p (suc fuel) top b own h = elim (Option-cases (bucket_get (top.offset + 1) b)) [
  | inl stop ↦ rw (stop, absorb) (own, h)
  | inr (next, found) ↦
      rw (found, absorb)
        (absorb-Holds p fuel next (bucket_delete (top.offset + 1) b) (h (top.offset + 1) next found)
          (delete-Holds p (top.offset + 1) b h))
]

-- The entry after an acknowledgement, by its two fields that matter here.
ack_entry-fields :
    (e : Entry) (msg : Message)
    → (((ack_entry e msg).hwm ≡ e.hwm)
        × (((ack_entry e msg).pending ≡ e.pending)
            ⊎ ((ack_entry e msg).pending ≡ bucket_set msg.offset msg e.pending)))
      ⊎ (((ack_entry e msg).hwm ≡ some (absorb (length e.pending) msg e.pending).0)
          × ((ack_entry e msg).pending ≡ (absorb (length e.pending) msg e.pending).1))
unfolding ack_entry
ack_entry-fields e msg = ground arith

pub ack_entry-IsOf :
    (p : ℕ) (e : Entry) (msg : Message) → msg.partition ≡ p → IsOf p e → IsOf p (ack_entry e msg)
ack_entry-IsOf p e msg own v = elim (ack_entry-fields e msg) [
  | inl (same, rest) ↦ record {
    top = λ m found. v.top m (sym same ∙ found);
    waiting = elim rest [
      | inl kept ↦ rw kept v.waiting
      | inr added ↦ rw added (set-Holds p msg e.pending own v.waiting)
    ];
  }
  | inr (moved, left) ↦
      let done = absorb-Holds p (length e.pending) msg e.pending own v.waiting in
      record { top = λ m found. ground (arith, done.0); waiting = rw left done.1 }
]

pub drain_entry-IsOf : (p : ℕ) (e : Entry) → IsOf p e → IsOf p (drain_entry e).0
drain_entry-IsOf p e v = elim (Option-cases e.hwm) [
  | inl idle ↦ rw (unchanged e idle) v
  | inr (cur, found) ↦ record {
    top = λ m h. absurd (emptied e cur m found h);
    waiting = rw (pending-drain e) v.waiting;
  }
]
  where
    unchanged : (e : Entry) → e.hwm ≡ none → (drain_entry e).0 ≡ e
    unchanged e h = unfold drain_entry in ground arith

    emptied : (e : Entry) (cur m : Message) → e.hwm ≡ some cur → (drain_entry e).0.hwm ≡ some m → ⊥
    emptied e cur m h k = unfold drain_entry in ground arith

    pending-drain : (e : Entry) → (drain_entry e).0.pending ≡ e.pending
    pending-drain e = unfold drain_entry in ground arith

pub drain_entry-own :
    (p : ℕ) (e : Entry) (m : Message) → IsOf p e → (drain_entry e).1 ≡ some m → m.partition ≡ p
drain_entry-own p e m v out = v.top m (out_of e m out)
  where
    out_of : (e : Entry) (m : Message) → (drain_entry e).1 ≡ some m → e.hwm ≡ some m
    out_of e m h = unfold drain_entry in ground arith

pub new_entry-IsOf : (p : ℕ) → IsOf p new_entry
unfolding new_entry
new_entry-IsOf p = record { top = λ m h. cc; waiting = λ k m h. unfold bucket_get in cc }
