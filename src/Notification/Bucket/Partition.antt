-- ===== src/Notification/Bucket/Partition.antt =====
-- internal/notification/contact.go: the buckets of `groupByChannelTarget` part the recipients by their
-- target.
use alertmesh_new.Prelude.{
  String, Bool, true, false, List, [], ◌∷◌, ◌++◌, map, ◌≡◌, refl, sym, ap, ◌∙◌, arith, str_eq,
  eq_iff, if◌then◌else◌, contains, if-both,
}
use mathlib.Core.List.{append_assoc, append-nil, map-append}
use alertmesh_new.Notification.Contact.{Recipient, ResolvedRecipient}
use alertmesh_new.Notification.Bucket.{
  ChannelBucket, target_key, bucket_name, put, put_all, group_by_channel_target,
}

-- The recipients of a target, in their order.
abbrev pub bound_for : String → List ResolvedRecipient → List Recipient
bound_for k [] = []
bound_for k (r ∷ rs) =
    if str_eq (target_key r) k then r.recipient ∷ bound_for k rs else bound_for k rs

-- The recipients that the buckets have for a target.
abbrev pub held_for : String → List ChannelBucket → List Recipient
held_for k [] = []
held_for k (b ∷ bs) = if str_eq (bucket_name b) k then b.recipients else held_for k bs

abbrev pub Different : List ChannelBucket → Type 0
Different [] = Unit
Different (b ∷ bs) = (contains (map bucket_name bs) (bucket_name b) ≡ false) × Different bs

abbrev pub Mirrored : List ChannelBucket → Type 0
Mirrored [] = Unit
Mirrored (b ∷ bs) = (b.contact_ids ≡ map (λ r. r.contact_id) b.recipients) × Mirrored bs

-- One bucket for each target, which has the target's recipients in their order, and their contacts.
abbrev pub IsPartition : List ResolvedRecipient → List ChannelBucket → Type 0
IsPartition rs bs = ((k : String) → held_for k bs ≡ bound_for k rs) × Different bs × Mirrored bs

held_for-put :
    (k : String) (bs : List ChannelBucket) (r : ResolvedRecipient)
    → held_for k (put bs r)
      ≡ (if str_eq (target_key r) k then held_for k bs ++ r.recipient ∷ [] else held_for k bs)
unfolding put
held_for-put k [] r = ground arith
held_for-put k (b ∷ bs) r = ground (
  arith,
  held_for-put k bs r,
  eq_iff (bucket_name b) (target_key r),
  eq_iff (bucket_name b) k,
  eq_iff (target_key r) k,
)

held_for-put_all :
    (k : String) (bs : List ChannelBucket) (rs : List ResolvedRecipient)
    → held_for k (put_all bs rs) ≡ held_for k bs ++ bound_for k rs
unfolding put_all
held_for-put_all k bs [] = sym (append-nil (held_for k bs))
held_for-put_all k bs (r ∷ rs) =
    held_for-put_all k (put bs r) rs
    ∙ ap (λ l. l ++ bound_for k rs) (held_for-put k bs r)
    ∙ spread (str_eq (target_key r) k)
  where
    spread :
        (t : Bool)
        → (if t then held_for k bs ++ r.recipient ∷ [] else held_for k bs) ++ bound_for k rs
          ≡ held_for k bs ++ (if t then r.recipient ∷ bound_for k rs else bound_for k rs)
    spread true = append_assoc (held_for k bs) (r.recipient ∷ []) (bound_for k rs)
    spread false = refl

-- The names after a step: that of the recipient's target is new at most once.
contains-put :
    (k : String) (bs : List ChannelBucket) (r : ResolvedRecipient)
    → str_eq (target_key r) k ≡ false
    → contains (map bucket_name bs) k ≡ false
    → contains (map bucket_name (put bs r)) k ≡ false
unfolding put
contains-put k [] r ne h = ground arith
contains-put k (b ∷ bs) r ne h =
    ground (arith, contains-put k bs r ne, eq_iff (bucket_name b) (target_key r))

put-Different :
    (bs : List ChannelBucket) (r : ResolvedRecipient) → Different bs → Different (put bs r)
unfolding put
put-Different [] r d = (refl, tt)
put-Different (b ∷ bs) r d = ground (
  arith,
  put-Different bs r d.1,
  contains-put (bucket_name b) bs r,
  eq_iff (bucket_name b) (target_key r),
  eq_iff (target_key r) (bucket_name b),
)

put-Mirrored : (bs : List ChannelBucket) (r : ResolvedRecipient) → Mirrored bs → Mirrored (put bs r)
unfolding put
put-Mirrored [] r m = (refl, tt)
put-Mirrored (b ∷ bs) r m =
    if-both Mirrored (str_eq (bucket_name b) (target_key r))
      (
        ap (λ l. l ++ r.recipient.contact_id ∷ []) m.0
            ∙ sym (map-append (λ q. q.contact_id) b.recipients (r.recipient ∷ [])),
        m.1,
      )
      (m.0, put-Mirrored bs r m.1)

put_all-Ordered :
    (bs : List ChannelBucket) (rs : List ResolvedRecipient)
    → Different bs × Mirrored bs
    → Different (put_all bs rs) × Mirrored (put_all bs rs)
unfolding put_all
put_all-Ordered bs [] h = h
put_all-Ordered bs (r ∷ rs) h =
    put_all-Ordered (put bs r) rs (put-Different bs r h.0, put-Mirrored bs r h.1)

-- The buckets part the recipients by target: one bucket for each target that occurs, with the
-- target's recipients in their order, and with the ids of their contacts beside them.
pub group_by_channel_target-IsPartition :
    (rs : List ResolvedRecipient) → IsPartition rs (group_by_channel_target rs)
unfolding group_by_channel_target
group_by_channel_target-IsPartition rs =
    let o = put_all-Ordered [] rs (tt, tt) in (λ k. held_for-put_all k [] rs, o.0, o.1)
