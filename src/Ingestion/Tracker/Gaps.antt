-- ===== src/Ingestion/Tracker/Gaps.antt =====
-- internal/ingestion/partition_tracker.go: the bucket of early acknowledgements, and the loop that
-- closes the gaps.
use alertmesh_new.Prelude.{
  ℕ, suc, zero, ◌+◌, ◌≤◌, ◌<◌, none, some, List, [], ◌∷◌, length, ◌==◌, if◌then◌else◌, Any, ◌≡◌,
  refl, inl, inr, arith, Bool-cases, Option-cases, subst,
}
use alertmesh_new.Ingestion.Tracker.{Message, Bucket, bucket_get, bucket_set, bucket_delete, absorb}

pub bucket_get-set :
    (k j : ℕ) (m : Message) (b : Bucket)
    → bucket_get j (bucket_set k m b) ≡ (if k == j then some m else bucket_get j b)
unfolding bucket_get bucket_set
bucket_get-set k j m [] = refl
bucket_get-set k j m ((i, n) ∷ b) = ground (arith, bucket_get-set k j m b)

pub bucket_get-delete :
    (k j : ℕ) (b : Bucket)
    → bucket_get j (bucket_delete k b) ≡ (if k == j then none else bucket_get j b)
unfolding bucket_get bucket_delete
bucket_get-delete k j [] = ground arith
bucket_get-delete k j ((i, n) ∷ b) = ground (arith, bucket_get-delete k j b)

length-bucket_delete-le : (k : ℕ) (b : Bucket) → length (bucket_delete k b) ≤ length b
unfolding bucket_delete
length-bucket_delete-le k [] = omega arith
length-bucket_delete-le k ((i, n) ∷ b) = ground (arith, length-bucket_delete-le k b)

pub length-bucket_delete-lt :
    (k : ℕ) (b : Bucket) (m : Message)
    → bucket_get k b ≡ some m
    → length (bucket_delete k b) < length b
unfolding bucket_get bucket_delete
length-bucket_delete-lt k [] m h = cc
length-bucket_delete-lt k ((i, n) ∷ b) m h =
    ground (arith, length-bucket_delete-le k b, length-bucket_delete-lt k b m)

-- `k` is among the acknowledged offsets.
abbrev pub Acked : ℕ → List ℕ → Type 0
Acked k offsets = Any (λ j. j ≡ k) offsets

-- The acknowledged offsets from `floor` on are a run up to `next`, less those of the bucket, which
-- lie at `gap` or above.
pub record Run (floor : ℕ) (offsets : List ℕ) (next gap : ℕ) (b : Bucket) : Type 0 where
  pub prefix : (k : ℕ) → floor ≤ k → k < next → Acked k offsets
  pub held :
      (k : ℕ) (m : Message) → bucket_get k b ≡ some m → (gap ≤ k) × (m.offset ≡ k) × Acked k offsets
  pub kept : (k : ℕ) → Acked k offsets → next ≤ k → (m : Message) × (bucket_get k b ≡ some m)

module _ (floor : ℕ) (offsets : List ℕ) where
  absorb_step :
      (top next : Message) (b : Bucket)
      → Run floor offsets (top.offset + 1) (top.offset + 1) b
      → bucket_get (top.offset + 1) b ≡ some next
      → Run floor offsets (next.offset + 1) (next.offset + 1) (bucket_delete (top.offset + 1) b)
  absorb_step top next b r e =
      let (_, same, acked) = r.held (top.offset + 1) next e in
      record {
        prefix = λ k low high. elim (Bool-cases (k == (top.offset + 1))) [
          | inl here ↦ subst (λ j. Acked j offsets) (ground arith) acked
          | inr other ↦ r.prefix k low (ground arith)
        ];
        held = λ k m h. ground (arith, bucket_get-delete (top.offset + 1) k b, r.held k m);
        kept = λ k a high.
            let (m, found) = r.kept k a (omega arith) in
            (m, ground (arith, bucket_get-delete (top.offset + 1) k b));
      }

  pub record Absorbed (top : Message) (r : Message × Bucket) : Type 0 where
    pub later : top.offset ≤ r.0.offset
    pub run : Run floor offsets (r.0.offset + 1) (r.0.offset + 1 + 1) r.1

  absorb_stop :
      (top : Message) (b : Bucket)
      → Run floor offsets (top.offset + 1) (top.offset + 1) b
      → bucket_get (top.offset + 1) b ≡ none
      → Absorbed top (top, b)
  absorb_stop top b r stop = record {
    later = omega arith;
    run = record {
      prefix = r.prefix;
      held = λ k m h. elim (Bool-cases (k == (top.offset + 1))) [
        | inl here ↦ let same : k ≡ top.offset + 1 = ground arith in absurd (cc (h, stop, same))
        | inr other ↦ let (low, same, acked) = r.held k m h in (ground arith, same, acked)
      ];
      kept = r.kept;
    };
  }

  -- The loop of `Ack` closes every gap that it can, with the length of the bucket as fuel.
  pub absorb-Absorbed :
      (fuel : ℕ) (top : Message) (b : Bucket)
      → length b ≤ fuel
      → Run floor offsets (top.offset + 1) (top.offset + 1) b
      → Absorbed top (absorb fuel top b)
  unfolding absorb
  absorb-Absorbed zero top [] fits r = absorb_stop top [] r (unfold bucket_get in refl)
  absorb-Absorbed zero top (x ∷ b) fits r = absurd (omega arith)
  absorb-Absorbed (suc fuel) top b fits r = elim (Option-cases (bucket_get (top.offset + 1) b)) [
    | inl stop ↦ rw (stop, absorb) (absorb_stop top b r stop)
    | inr (next, found) ↦
        let left = bucket_delete (top.offset + 1) b in
        let shorter = length-bucket_delete-lt (top.offset + 1) b next found in
        let ih = absorb-Absorbed fuel next left (omega arith) (absorb_step top next b r found) in
        rw (found, absorb)
          (record { later = omega (arith, (r.held (top.offset + 1) next found).1); run = ih.run })
  ]

pub Run-covered :
    {floor next gap k : ℕ} {offsets : List ℕ} {b : Bucket}
    → Run floor offsets next gap b
    → k < next
    → Run floor (k ∷ offsets) next gap b
Run-covered r lt = record {
  prefix = λ j low high. inr (r.prefix j low high);
  held = λ j m h. let (a, b, c) = r.held j m h in (a, b, inr c);
  kept = λ j a high. elim a [ inl same ↦ absurd (omega arith) | inr old ↦ r.kept j old high ];
}

pub Run-next :
    {floor next : ℕ} {offsets : List ℕ} {b : Bucket}
    → Run floor offsets next (next + 1) b
    → Run floor (next ∷ offsets) (next + 1) (next + 1) b
Run-next {floor} {next} {offsets} {b} r = record {
  prefix = λ j low high. elim (Bool-cases (j == next)) [
    | inl here ↦ inl (ground arith)
    | inr other ↦ inr (r.prefix j low (ground arith))
  ];
  held = λ j m h. let (a, b, c) = r.held j m h in (a, b, inr c);
  kept =
      λ j a high. elim a [ inl same ↦ absurd (omega arith) | inr old ↦ r.kept j old (omega arith) ];
}

pub Run-later :
    {floor next : ℕ} {offsets : List ℕ} {b : Bucket} (msg : Message)
    → Run floor offsets next (next + 1) b
    → next < msg.offset
    → Run floor (msg.offset ∷ offsets) next (next + 1) (bucket_set msg.offset msg b)
Run-later {floor} {next} {offsets} {b} msg r gap = record {
  prefix = λ j low high. inr (r.prefix j low high);
  held = λ j m h. elim (Bool-cases (msg.offset == j)) [
    | inl here ↦
        let same : m ≡ msg = ground (arith, bucket_get-set msg.offset j msg b) in
        (ground arith, ground arith, inl (ground arith))
    | inr other ↦
        let (a, b, c) = r.held j m (ground (arith, bucket_get-set msg.offset j msg b)) in
        (a, b, inr c)
  ];
  kept = λ j a high. elim (Bool-cases (msg.offset == j)) [
    | inl here ↦ (msg, ground (arith, bucket_get-set msg.offset j msg b))
    | inr other ↦ elim a [
      | inl same ↦ absurd (ground arith)
      | inr old ↦
          let (m, found) = r.kept j old high in
          (m, ground (arith, bucket_get-set msg.offset j msg b))
    ]
  ];
}
