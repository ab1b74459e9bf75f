-- ===== src/Ingestion/Tracker/Commit.antt =====
-- internal/ingestion/partition_tracker.go over all partitions and any order of calls.
use alertmesh_new.Prelude.{
  ℕ, ◌+◌, ◌≤◌, ◌<◌, true, false, Option, none, some, List, [], ◌∷◌, ◌==◌, if◌then◌else◌, All, ◌≡◌,
  refl, sym, ap, ◌∙◌, subst, inl, inr, arith, Bool-cases,
}
use alertmesh_new.Ingestion.Tracker.{
  Message, Entry, Tracker, new_entry, new_tracker, ack, ack_entry, is_covered, drain, drain_entry,
  emit,
}
use alertmesh_new.Ingestion.Tracker.Gaps.{Acked}
use alertmesh_new.Ingestion.Tracker.Partition.{
  IsOf, new_entry-IsOf, ack_entry-IsOf, drain_entry-IsOf, drain_entry-own,
}
use alertmesh_new.Ingestion.Tracker.Prefix.{
  Inv, first-Inv, ack_entry-Inv, drain_entry-Inv, expected-cases, ack_entry-new_entry, ack_covered,
}

-- A call of the tracker.
pub data Call : Type 0 where
  acked : Message → Call
  drained : List ℕ → Call

-- The tracker after some calls, the last one first.
unfoldable pub after : List Call → Tracker
after [] = new_tracker
after (acked msg ∷ calls) = ack (after calls) msg
after (drained ps ∷ calls) = (drain ps (after calls)).0

-- The acknowledged offsets of a partition, the last one first.
unfoldable pub offsets_of : ℕ → List Call → List ℕ
offsets_of p [] = []
offsets_of p (acked msg ∷ calls) =
    let rest = offsets_of p calls in if msg.partition == p then msg.offset ∷ rest else rest
offsets_of p (drained ps ∷ calls) = offsets_of p calls

-- The offset that was acknowledged first.
abbrev pub first_of : List ℕ → ℕ
first_of [] = 0
first_of (x ∷ []) = x
first_of (x ∷ y ∷ r) = first_of (y ∷ r)

abbrev EntryInv : List ℕ → Entry → Type 0
EntryInv [] e = e ≡ new_entry
EntryInv (x ∷ r) e = Inv (first_of (x ∷ r)) (x ∷ r) e

ack_entry-EntryInv :
    (offsets : List ℕ) (e : Entry) (msg : Message)
    → EntryInv offsets e
    → EntryInv (msg.offset ∷ offsets) (ack_entry e msg)
ack_entry-EntryInv [] e msg h = rw h (first-Inv msg)
ack_entry-EntryInv (x ∷ r) e msg h = ack_entry-Inv msg h

drain_entry-EntryInv :
    (offsets : List ℕ) (e : Entry) → EntryInv offsets e → EntryInv offsets (drain_entry e).0
drain_entry-EntryInv [] e h = rw h (unfold drain_entry new_entry in refl)
drain_entry-EntryInv (x ∷ r) e h = drain_entry-Inv h

drain-EntryInv :
    (ps : List ℕ) (t : Tracker) (p : ℕ) (offsets : List ℕ)
    → EntryInv offsets (t p)
    → EntryInv offsets ((drain ps t).0 p)
unfolding drain
drain-EntryInv [] t p offsets h = h
drain-EntryInv (q ∷ ps) t p offsets h =
    drain-EntryInv ps (λ r. if r == q then (drain_entry (t q)).0 else t r) p offsets
      (elim (Bool-cases (p == q)) [
        | inl same ↦ rw same (
            subst (λ r. EntryInv offsets (drain_entry (t r)).0) (ground arith)
              (drain_entry-EntryInv offsets (t p) h))
        | inr other ↦ rw other h
      ])

after-EntryInv : (calls : List Call) (p : ℕ) → EntryInv (offsets_of p calls) (after calls p)
unfolding after offsets_of new_tracker ack
after-EntryInv [] p = refl
after-EntryInv (acked msg ∷ calls) p = elim (Bool-cases (msg.partition == p)) [
  | inl same ↦
      let also : (p == msg.partition) ≡ true = ground arith in
      rw (same, also)
        (ack_entry-EntryInv (offsets_of p calls) (after calls p) msg (after-EntryInv calls p))
  | inr other ↦
      let also : (p == msg.partition) ≡ false = ground arith in
      rw (other, also) (after-EntryInv calls p)
]
after-EntryInv (drained ps ∷ calls) p =
    drain-EntryInv ps (after calls) p (offsets_of p calls) (after-EntryInv calls p)

-- A message at offset `n` may be committed after the acknowledgements `offsets` of its partition:
-- every offset from the first acknowledged one up to `n` is acknowledged, and `n + 1` is not.
pub record IsCommittable (offsets : List ℕ) (n : ℕ) : Type 0 where
  pub from_first : (k : ℕ) → first_of offsets ≤ k → k ≤ n → Acked k offsets
  pub last : ¬ Acked (n + 1) offsets

drain_entry-IsCommittable :
    (offsets : List ℕ) (e : Entry) (m : Message)
    → EntryInv offsets e
    → (drain_entry e).1 ≡ some m
    → IsCommittable offsets m.offset
unfolding drain_entry new_entry
drain_entry-IsCommittable [] e m h out = absurd (ground arith)
drain_entry-IsCommittable (x ∷ r) e m v out = elim (expected-cases e v.next v.at) [
  | inl (idle, _) ↦ absurd (ground arith)
  | inr (cur, found, same) ↦
      let top : m ≡ cur = ground arith in
      let end : m.offset + 1 ≡ v.next = ap (λ (c : Message). c.offset + 1) top ∙ same in
      record {
        from_first = λ k low high. v.run.prefix k low (omega arith);
        last = λ a.
            let (w, held) = v.run.kept (m.offset + 1) a (omega arith) in
            let (gap, _, _) = v.run.held (m.offset + 1) w held in omega arith;
      }
]

-- Both invariants of a partition, carried through the calls together.
abbrev Good : List Call → Tracker → Type 0
Good calls t = (p : ℕ) → EntryInv (offsets_of p calls) (t p) × IsOf p (t p)

drain-IsOf : (ps : List ℕ) (t : Tracker) (p : ℕ) → IsOf p (t p) → IsOf p ((drain ps t).0 p)
unfolding drain
drain-IsOf [] t p h = h
drain-IsOf (q ∷ ps) t p h =
    drain-IsOf ps (λ r. if r == q then (drain_entry (t q)).0 else t r) p
      (elim (Bool-cases (p == q)) [
        | inl same ↦
            rw same (
              subst (λ r. IsOf p (drain_entry (t r)).0) (ground arith) (drain_entry-IsOf p (t p) h))
        | inr other ↦ rw other h
      ])

after-IsOf : (calls : List Call) (p : ℕ) → IsOf p (after calls p)
unfolding after new_tracker ack
after-IsOf [] p = new_entry-IsOf p
after-IsOf (acked msg ∷ calls) p = elim (Bool-cases (p == msg.partition)) [
  | inl same ↦ rw same (ack_entry-IsOf p (after calls p) msg (ground arith) (after-IsOf calls p))
  | inr other ↦ rw other (after-IsOf calls p)
]
after-IsOf (drained ps ∷ calls) p = drain-IsOf ps (after calls) p (after-IsOf calls p)

emit-All :
    (P : Message → Type 0) (out : Option Message) (rest : List Message)
    → ((m : Message) → out ≡ some m → P m)
    → All P rest
    → All P (emit out rest)
unfolding emit
emit-All P none rest h r = r
emit-All P (some m) rest h r = (h m refl, r)

drain-IsCommittable :
    (calls : List Call) (ps : List ℕ) (t : Tracker)
    → Good calls t
    → All (λ m. IsCommittable (offsets_of m.partition calls) m.offset) (drain ps t).1
unfolding drain
drain-IsCommittable calls [] t g = tt
drain-IsCommittable calls (q ∷ ps) t g =
    let left : Tracker = λ r. if r == q then (drain_entry (t q)).0 else t r in
    let rest = drain-IsCommittable calls ps left (λ p. elim (Bool-cases (p == q)) [
      | inl same ↦ rw same (
          subst
            (λ r.
              EntryInv (offsets_of p calls) (drain_entry (t r)).0 × IsOf p (drain_entry (t r)).0)
            (ground arith) (drain_entry-EntryInv _ (t p) (g p).0, drain_entry-IsOf p (t p) (g p).1))
      | inr other ↦ rw other (g p)
    ]) in
    emit-All _ (drain_entry (t q)).1 _
      (λ m out.
        let own : m.partition ≡ q = drain_entry-own q (t q) m (g q).1 out in
        subst (λ p. IsCommittable (offsets_of p calls) m.offset) (sym own)
          (drain_entry-IsCommittable _ (t q) m (g q).0 out))
      rest

-- After any calls, every message that a drain hands to the committer ends a run of acknowledged
-- offsets of its partition that starts at the first one acknowledged, and no longer run is there.
pub drain-after-IsCommittable :
    (calls : List Call) (ps : List ℕ)
    → All (λ m. IsCommittable (offsets_of m.partition calls) m.offset) (drain ps (after calls)).1
drain-after-IsCommittable calls ps =
    drain-IsCommittable calls ps (after calls) (λ p. (after-EntryInv calls p, after-IsOf calls p))

covered_by_first :
    (later earlier : Message)
    → earlier.offset < later.offset
    → is_covered (drain_entry (ack_entry new_entry later)).0 earlier ≡ true
unfolding is_covered drain_entry
covered_by_first later earlier lt = rw (ack_entry-new_entry later) (ground arith)

-- The run starts at the first offset acknowledged, which need not be the first one fetched: if the
-- first acknowledgement of a partition is of an offset, the next drain hands that offset out, and the
-- later acknowledgement of a lower one changes nothing.
pub first_ack_skips :
    (later earlier : Message) (p : ℕ)
    → later.partition ≡ p
    → earlier.partition ≡ p
    → earlier.offset < later.offset
    → let calls = drained (p ∷ []) ∷ acked later ∷ [] in
      ((drain (p ∷ []) (after (acked later ∷ []))).1 ≡ later ∷ [])
      × (after (acked earlier ∷ calls) p ≡ after calls p)
unfolding after drain ack new_tracker drain_entry emit
first_ack_skips later earlier p own own' lt = ground (
  arith,
  ack_entry-new_entry later,
  ack_covered (drain_entry (ack_entry new_entry later)).0 earlier,
  covered_by_first later earlier lt,
)
