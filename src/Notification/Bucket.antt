-- ===== src/Notification/Bucket.antt =====
-- internal/notification/contact.go: `groupByChannelTarget` and `dispatchBuckets`.
--
-- The index from key to bucket is read off the buckets, whose keys are its keys. `send` stands for the
-- channels' `SendBatched`: true is success. A row of notification_log is an effect.
pub mod Partition
use Prim.Native.String
use alertmesh_new.Prelude.{
  String, Bool, true, false, Option, none, some, List, [], ◌∷◌, ◌++◌, map, str_eq, if◌then◌else◌,
  ltb, length,
}
use alertmesh_new.Notification.Contact.{ChannelConfig, Recipient, ResolvedRecipient}

pub record ChannelBucket : Type 0 where
  pub channel_type : String
  pub bucket_key : String
  pub config : ChannelConfig
  pub recipients : List Recipient
  pub contact_ids : List String

abbrev pub target_key : ResolvedRecipient → String
target_key r = String.◌++◌ r.channel_type (String.◌++◌ "|" r.bucket_key)

abbrev pub bucket_name : ChannelBucket → String
bucket_name b = String.◌++◌ b.channel_type (String.◌++◌ "|" b.bucket_key)

abbrev pub new_bucket : ResolvedRecipient → ChannelBucket
new_bucket r = record {
  channel_type = r.channel_type;
  bucket_key = r.bucket_key;
  config = r.config;
  recipients = r.recipient ∷ [];
  contact_ids = r.recipient.contact_id ∷ [];
}

abbrev pub join_bucket : ChannelBucket → ResolvedRecipient → ChannelBucket
join_bucket b r = record b {
  recipients = b.recipients ++ r.recipient ∷ [];
  contact_ids = b.contact_ids ++ r.recipient.contact_id ∷ [];
}

-- One round of the loop: the bucket of the key takes the recipient, or a new one is added at the end.
unfoldable pub put : List ChannelBucket → ResolvedRecipient → List ChannelBucket
put [] r = new_bucket r ∷ []
put (b ∷ bs) r =
    if str_eq (bucket_name b) (target_key r) then join_bucket b r ∷ bs else b ∷ put bs r

unfoldable pub put_all : List ChannelBucket → List ResolvedRecipient → List ChannelBucket
unfolding put
put_all out [] = out
put_all out (r ∷ rs) = put_all (put out r) rs

unfoldable pub group_by_channel_target : List ResolvedRecipient → List ChannelBucket
unfolding put_all
group_by_channel_target rs = put_all [] rs

pub data Notice : Type 0 where
  -- NotificationsDropped with its reason
  dropped : String → Notice
  -- a call of SendBatched, and whether it succeeded
  sent : ChannelBucket → Bool → Notice
  -- a row of notification_log: contact, channel, status
  logged : String → String → String → Notice
  -- NotificationsDispatched with its channel and its label `batched`
  counted : String → Bool → Notice

abbrev pub known_channel : String → Bool
known_channel t =
    if str_eq t "dingtalk"
    then true
    else if str_eq t "feishu"
    then true
    else if str_eq t "slack"
    then true
    else if str_eq t "email"
    then true
    else if str_eq t "voice"
    then true
    else str_eq t "sms"

abbrev pub log_failed : List String → String → List Notice
log_failed ids channel = map (λ id. logged id channel "failed") ids

abbrev pub log_sent : List String → String → Bool → List Notice
log_sent [] channel batched = []
log_sent (id ∷ ids) channel batched =
    logged id channel "sent" ∷ counted channel batched ∷ log_sent ids channel batched

abbrev pub send_bucket : Bool → ChannelBucket → List Notice
send_bucket true b =
    sent b true ∷ log_sent b.contact_ids b.channel_type (ltb 1 (length b.recipients))
send_bucket false b = sent b false ∷ log_failed b.contact_ids b.channel_type

unfoldable pub dispatch_buckets : (ChannelBucket → Bool) → List ChannelBucket → List Notice
dispatch_buckets send [] = []
dispatch_buckets send (b ∷ bs) =
    let rest = dispatch_buckets send bs in
    if known_channel b.channel_type then send_bucket (send b) b ++ rest else rest
