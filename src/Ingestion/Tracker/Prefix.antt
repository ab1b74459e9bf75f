-- ===== src/Ingestion/Tracker/Prefix.antt =====
-- internal/ingestion/partition_tracker.go within one partition: an acknowledgement keeps the run of
-- acknowledged offsets that starts at the first.
use alertmesh_new.Prelude.{
  ℕ, ◌+◌, ◌<◌, true, false, none, some, List, [], ◌∷◌, length, pos, pos_part, neg_part, ◌-ℤ◌, ◌+ℤ◌,
  leb, ◌==◌, ◌≡◌, ◌≢◌, refl, ◌⊎◌, inl, inr, arith, Bool-cases, Option-cases, subst, ap, ◌∙◌,
}
use alertmesh_new.Ingestion.Tracker.{
  Message, bucket_get, bucket_set, Entry, new_entry, is_covered, expected, absorb, ack_entry,
  drain_entry,
}
use alertmesh_new.Ingestion.Tracker.Gaps.{Run, absorb-Absorbed, Run-covered, Run-next, Run-later}

-- What holds of a partition after its first acknowledgement, whose offset is `floor`.
pub record Inv (floor : ℕ) (offsets : List ℕ) (e : Entry) : Type 0 where
  pub seen : e.first_seen ≡ true
  pub next : ℕ
  pub at : expected e ≡ pos next
  pub above : floor < next
  pub below : pos_part e.committed_hwm < next + neg_part e.committed_hwm
  pub run : Run floor offsets next (next + 1) e.pending

pub expected-cases :
    (e : Entry) (n : ℕ)
    → expected e ≡ pos n
    → ((e.hwm ≡ none) × (pos_part e.committed_hwm + 1 ≡ n + neg_part e.committed_hwm))
      ⊎ ((cur : Message) × (e.hwm ≡ some cur) × (cur.offset + 1 ≡ n))
unfolding expected ◌+ℤ◌
expected-cases e n h = elim (Option-cases e.hwm) [
  | inl e1 ↦ inl (e1, ground arith)
  | inr (cur, e1) ↦ inr (cur, e1, ground arith)
]

-- A message is covered exactly when it lies below the next offset.
is_covered_lem :
    (e : Entry) (n : ℕ) (msg : Message)
    → expected e ≡ pos n
    → pos_part e.committed_hwm < n + neg_part e.committed_hwm
    → is_covered e msg ≡ leb (msg.offset + 1) n
unfolding is_covered
is_covered_lem e n msg at below = elim (expected-cases e n at) [
  | inl (fresh, same) ↦ ground arith
  | inr (cur, found, same) ↦ ground arith
]

pub ack_covered :
    (e : Entry) (msg : Message)
    → e.first_seen ≡ true
    → is_covered e msg ≡ true
    → ack_entry e msg ≡ e
unfolding ack_entry
ack_covered e msg s c = ground arith

ack_next :
    (e : Entry) (msg : Message)
    → e.first_seen ≡ true
    → is_covered e msg ≡ false
    → expected e ≡ pos msg.offset
    → ack_entry e msg ≡ record e {
      hwm = some (absorb (length e.pending) msg e.pending).0;
      pending = (absorb (length e.pending) msg e.pending).1;
    }
unfolding ack_entry
ack_next e msg s c at = ground arith

ack_gap :
    (e : Entry) (msg : Message) (n : ℕ)
    → e.first_seen ≡ true
    → is_covered e msg ≡ false
    → expected e ≡ pos n
    → msg.offset ≢ n
    → ack_entry e msg ≡ record e { pending = bucket_set msg.offset msg e.pending }
unfolding ack_entry
ack_gap e msg n s c at ne = ground arith

covered-Inv :
    {floor : ℕ} {offsets : List ℕ} {e : Entry} (msg : Message)
    → Inv floor offsets e
    → is_covered e msg ≡ true
    → Inv floor (msg.offset ∷ offsets) e
covered-Inv {e = e} msg v c = record {
  seen = v.seen;
  next = v.next;
  at = v.at;
  above = v.above;
  below = v.below;
  run = Run-covered v.run (ground (arith, is_covered_lem e v.next msg v.at v.below));
}

-- The message is the next one: the prefix grows over it and over what waited for it.
next-Inv :
    {floor : ℕ} {offsets : List ℕ} {e : Entry} (msg : Message) (v : Inv floor offsets e)
    → v.next ≡ msg.offset
    → is_covered e msg ≡ false
    → Inv floor (msg.offset ∷ offsets) (ack_entry e msg)
next-Inv {floor} {offsets} {e} msg v same c =
    let start =
      subst (λ n. Run floor (n ∷ offsets) (n + 1) (n + 1) e.pending) same (Run-next v.run) in
    let done =
      absorb-Absorbed floor (msg.offset ∷ offsets) (length e.pending) msg e.pending (omega arith)
        start in
    rw (ack_next e msg v.seen c (v.at ∙ ap pos same)) (record {
      seen = v.seen;
      next = (absorb (length e.pending) msg e.pending).0.offset + 1;
      at = unfold expected in refl;
      above = omega (arith, v.above, done.later);
      below = omega (arith, v.below, done.later);
      run = done.run;
    })

gap-Inv :
    {floor : ℕ} {offsets : List ℕ} {e : Entry} (msg : Message) (v : Inv floor offsets e)
    → v.next < msg.offset
    → is_covered e msg ≡ false
    → Inv floor (msg.offset ∷ offsets) (ack_entry e msg)
gap-Inv {floor} {offsets} {e} msg v gap c =
    rw (ack_gap e msg v.next v.seen c v.at (omega arith)) (record {
      seen = v.seen;
      next = v.next;
      at = unfold expected in v.at;
      above = v.above;
      below = v.below;
      run = Run-later msg v.run gap;
    })

pub ack_entry-Inv :
    {floor : ℕ} {offsets : List ℕ} {e : Entry} (msg : Message)
    → Inv floor offsets e
    → Inv floor (msg.offset ∷ offsets) (ack_entry e msg)
ack_entry-Inv {floor} {offsets} {e} msg v = elim (Bool-cases (is_covered e msg)) [
  | inl c ↦ rw (ack_covered e msg v.seen c) (covered-Inv msg v c)
  | inr c ↦ elim (Bool-cases (msg.offset == v.next)) [
    | inl same ↦ next-Inv msg v (ground arith) c
    | inr other ↦ gap-Inv msg v (ground (arith, is_covered_lem e v.next msg v.at v.below)) c
  ]
]

-- The first acknowledgement of a partition is its floor, whatever its offset.
pub ack_entry-new_entry :
    (msg : Message)
    → ack_entry new_entry msg ≡ record {
      pending = [];
      hwm = some msg;
      committed_hwm = pos msg.offset -ℤ pos 1;
      first_seen = true;
    }
unfolding ack_entry new_entry ◌-ℤ◌
ack_entry-new_entry msg = ground arith

pub first-Inv : (msg : Message) → Inv msg.offset (msg.offset ∷ []) (ack_entry new_entry msg)
first-Inv msg = rw (ack_entry-new_entry msg) (record {
  seen = refl;
  next = msg.offset + 1;
  at = unfold expected in refl;
  above = omega arith;
  below = unfold ◌-ℤ◌ in ground arith;
  run = record {
    prefix = λ k low high. inl (omega arith);
    held = λ k m h. unfold bucket_get in cc;
    kept = λ k a high. elim a [ inl same ↦ absurd (omega arith) | inr old ↦ absurd old ];
  };
})

pub drain_entry-Inv :
    {floor : ℕ} {offsets : List ℕ} {e : Entry}
    → Inv floor offsets e
    → Inv floor offsets (drain_entry e).0
drain_entry-Inv {floor} {offsets} {e} v = elim (expected-cases e v.next v.at) [
  | inl (idle, same) ↦ rw (drain_idle e idle) v
  | inr (cur, found, same) ↦ rw (drain_some e cur found) (record {
    seen = v.seen;
    next = v.next;
    at = unfold expected ◌+ℤ◌ in ground arith;
    above = v.above;
    below = omega arith;
    run = v.run;
  })
]
  where
    drain_idle : (e : Entry) → e.hwm ≡ none → (drain_entry e).0 ≡ e
    drain_idle e h = unfold drain_entry in ground arith

    drain_some :
        (e : Entry) (cur : Message)
        → e.hwm ≡ some cur
        → (drain_entry e).0 ≡ record e { committed_hwm = pos cur.offset; hwm = none }
    drain_some e cur h = unfold drain_entry in ground arith
