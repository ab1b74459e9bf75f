-- ===== src/Notification/Dispatch/Notices.antt =====
-- internal/notification/contact.go: the calls that `dispatchBuckets` makes of the senders.
use alertmesh_new.Prelude.{
  String, Bool, true, false, List, [], ◌∷◌, ◌++◌, ◌≡◌, inl, inr, if-both, if-yes, Any, All, ltb,
  length,
}
use alertmesh_new.Notification.Bucket.{
  ChannelBucket, Notice, sent, dropped, logged, counted, known_channel, dispatch_buckets,
  send_bucket, log_sent, log_failed,
}
use alertmesh_new.Notification.Dispatch.Reach.{Any-left, Any-right, All-append}

-- What is said of a notice: a call of a sender is for a bucket of which P holds.
abbrev pub OnSent : (ChannelBucket → Type 0) → Notice → Type 0
OnSent P (dropped reason) = Unit
OnSent P (sent b ok) = P b
OnSent P (logged id channel status) = Unit
OnSent P (counted channel batched) = Unit

abbrev pub Sends : (ChannelBucket → Type 0) → Notice → Type 0
Sends P (dropped reason) = ⊥
Sends P (sent b ok) = P b
Sends P (logged id channel status) = ⊥
Sends P (counted channel batched) = ⊥

send_bucket-OnSent :
    (P : ChannelBucket → Type 0) (ok : Bool) (b : ChannelBucket)
    → P b
    → All (OnSent P) (send_bucket ok b)
send_bucket-OnSent P true b h = (h, rows b.contact_ids)
  where
    rows :
        (ids : List String)
        → All (OnSent P) (log_sent ids b.channel_type (ltb 1 (length b.recipients)))
    rows [] = tt
    rows (id ∷ ids) = (tt, (tt, rows ids))
send_bucket-OnSent P false b h = (h, rows b.contact_ids)
  where
    rows : (ids : List String) → All (OnSent P) (log_failed ids b.channel_type)
    rows [] = tt
    rows (id ∷ ids) = (tt, rows ids)

pub dispatch_buckets-OnSent :
    (P : ChannelBucket → Type 0) (send : ChannelBucket → Bool) (bs : List ChannelBucket)
    → All P bs
    → All (OnSent P) (dispatch_buckets send bs)
unfolding dispatch_buckets
dispatch_buckets-OnSent P send [] h = tt
dispatch_buckets-OnSent P send (b ∷ bs) h =
    let rest = dispatch_buckets-OnSent P send bs h.1 in
    if-both (All (OnSent P)) (known_channel b.channel_type)
      (All-append (OnSent P) (send_bucket (send b) b) (dispatch_buckets send bs)
        (send_bucket-OnSent P (send b) b h.0) rest)
      rest

send_bucket-Sends :
    (P : ChannelBucket → Type 0) (ok : Bool) (b : ChannelBucket)
    → P b
    → Any (Sends P) (send_bucket ok b)
send_bucket-Sends P true b h = inl h
send_bucket-Sends P false b h = inl h

-- Whatever the senders answer, every bucket of a known channel reaches its sender.
pub dispatch_buckets-Sends :
    (P : ChannelBucket → Type 0) (send : ChannelBucket → Bool) (bs : List ChannelBucket)
    → All (λ b. known_channel b.channel_type ≡ true) bs
    → Any P bs
    → Any (Sends P) (dispatch_buckets send bs)
unfolding dispatch_buckets
dispatch_buckets-Sends P send [] k h = absurd h
dispatch_buckets-Sends P send (b ∷ bs) k (inl e) =
    let rest = dispatch_buckets send bs in
    if-yes (Any (Sends P)) (known_channel b.channel_type) (send_bucket (send b) b ++ rest) rest k.0
      (Any-left (Sends P) (send_bucket (send b) b) rest (send_bucket-Sends P (send b) b e))
dispatch_buckets-Sends P send (b ∷ bs) k (inr e) =
    let rest = dispatch_buckets send bs in
    let later = dispatch_buckets-Sends P send bs k.1 e in
    if-both (Any (Sends P)) (known_channel b.channel_type)
      (Any-right (Sends P) (send_bucket (send b) b) rest later) later
