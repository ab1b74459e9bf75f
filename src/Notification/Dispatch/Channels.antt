-- ===== src/Notification/Dispatch/Channels.antt =====
-- internal/notification/contact.go: the channels of the recipients and of the buckets.
use alertmesh_new.Prelude.{
  String, Bool, true, false, not, Option, none, some, List, [], ◌∷◌, ◌++◌, ◌≡◌, refl, sym, subst,
  arith, ◌&&◌, ◌||◌, str_eq, if◌then◌else◌, if-both, All, All-imp, trim_space,
}
use alertmesh_new.Notification.Contact.{
  Settings, NotificationContact, ResolvedRecipient, recipients_of, resolve_recipients, is_p0,
  dingtalk_recipient, feishu_recipient, slack_recipient, email_recipient, provider_recipient,
  phone_recipients, load_smtp_config, email_with, load_provider_config, EmailConfig,
}
use alertmesh_new.Notification.Bucket.{
  ChannelBucket, target_key, bucket_name, known_channel, put, put_all, group_by_channel_target,
}
use alertmesh_new.Notification.Dispatch.Reach.{All-append}

-- A channel that rings a phone.
abbrev pub by_phone : String → Bool
by_phone t = str_eq t "voice" || str_eq t "sms"

-- A channel that has a sender, and rings no phone unless the severity is P0.
abbrev pub Fits : String → String → Type 0
Fits sev t = (known_channel t ≡ true) × (by_phone t ≡ true → is_p0 sev ≡ true)

-- A recipient for a contact, on a channel that fits.
abbrev Suited : String → NotificationContact → ResolvedRecipient → Type 0
Suited sev c r = Fits sev r.channel_type × (r.recipient.contact_id ≡ c.id)

provider_recipient-Fits :
    (st : Settings) (sev channel key : String) (c : NotificationContact)
    → Fits sev channel
    → All (Suited sev c) (provider_recipient st channel key c)
unfolding provider_recipient
provider_recipient-Fits st sev channel key c fit =
    if-both (All (Suited sev c)) (str_eq (load_provider_config st key) "") tt ((fit, refl), tt)

phone_recipients-Fits :
    (st : Settings) (sev : String) (c : NotificationContact)
    → All (Suited sev c) (phone_recipients st sev c)
unfolding phone_recipients
phone_recipients-Fits st sev c = by_severity (is_p0 sev) refl
  where
    by_severity :
        (p : Bool)
        → is_p0 sev ≡ p
        → All (Suited sev c) (
            if p && not (str_eq (trim_space c.phone) "")
            then provider_recipient st "voice" "notification.voice" c
              ++ provider_recipient st "sms" "notification.sms" c
            else [])
    by_severity true e =
        if-both (All (Suited sev c)) (not (str_eq (trim_space c.phone) ""))
          (All-append (Suited sev c) (provider_recipient st "voice" "notification.voice" c)
            (provider_recipient st "sms" "notification.sms" c)
            (provider_recipient-Fits st sev "voice" "notification.voice" c (refl, λ h. e))
            (provider_recipient-Fits st sev "sms" "notification.sms" c (refl, λ h. e)))
          tt
    by_severity false e = tt

quiet : (sev t : String) → known_channel t ≡ true → by_phone t ≡ false → Fits sev t
quiet sev t known silent = (known, λ loud. ground arith)

email_with-Fits :
    (sev : String) (c : NotificationContact) (e : String) (cfg : Option EmailConfig)
    → All (Suited sev c) (email_with c e cfg)
unfolding email_with
email_with-Fits sev c e none = tt
email_with-Fits sev c e (some cfg) = ((quiet sev "email" refl refl, refl), tt)

email_recipient-Fits :
    (st : Settings) (sev : String) (c : NotificationContact)
    → All (Suited sev c) (email_recipient st c)
unfolding email_recipient
email_recipient-Fits st sev c =
    if-both (All (Suited sev c)) (str_eq (trim_space c.email) "") tt
      (email_with-Fits sev c (trim_space c.email) (load_smtp_config st))

slack_recipient-Fits :
    (sev : String) (c : NotificationContact) → All (Suited sev c) (slack_recipient c)
unfolding slack_recipient
slack_recipient-Fits sev c =
    if-both (All (Suited sev c))
      (not (str_eq c.slack_bot_token "") && not (str_eq c.slack_channel_id ""))
      ((quiet sev "slack" refl refl, refl), tt)
      (if-both (All (Suited sev c)) (str_eq c.webhook_url "") tt
        ((quiet sev "slack" refl refl, refl), tt))

robot_recipients-Fits :
    (sev : String) (c : NotificationContact)
    → All (Suited sev c) (dingtalk_recipient c) × All (Suited sev c) (feishu_recipient c)
unfolding dingtalk_recipient feishu_recipient
robot_recipients-Fits sev c = (
  if-both (All (Suited sev c)) (str_eq (trim_space c.dingtalk_webhook) "") tt
      ((quiet sev "dingtalk" refl refl, refl), tt),
  if-both (All (Suited sev c)) (str_eq (trim_space c.feishu_webhook) "") tt
      ((quiet sev "feishu" refl refl, refl), tt),
)

recipients_of-Fits :
    (st : Settings) (sev : String) (c : NotificationContact)
    → All (Suited sev c) (recipients_of st sev c)
unfolding recipients_of
recipients_of-Fits st sev c =
    let join = All-append (Suited sev c) in
    let robots = robot_recipients-Fits sev c in
    let phone = phone_recipients st sev c in
    join (dingtalk_recipient c)
      (feishu_recipient c ++ (slack_recipient c ++ (email_recipient st c ++ phone))) robots.0
      (join (feishu_recipient c) (slack_recipient c ++ (email_recipient st c ++ phone)) robots.1 (
        join (slack_recipient c) (email_recipient st c ++ phone) (slack_recipient-Fits sev c) (
          join (email_recipient st c) phone (email_recipient-Fits st sev c)
            (phone_recipients-Fits st sev c))))

-- A recipient for a contact of which P holds, on a channel that fits.
abbrev pub Expected : (String → Type 0) → String → ResolvedRecipient → Type 0
Expected P sev r = Fits sev r.channel_type × (P r.recipient.contact_id)

pub resolve_recipients-Expected :
    (st : Settings) (P : String → Type 0) (sev : String) (cs : List NotificationContact)
    → All (λ c. P c.id) cs
    → All (Expected P sev) (resolve_recipients st sev cs)
unfolding resolve_recipients
resolve_recipients-Expected st P sev [] h = tt
resolve_recipients-Expected st P sev (c ∷ cs) h =
    All-append (Expected P sev) (recipients_of st sev c) (resolve_recipients st sev cs)
      (All-imp (Suited sev c) (Expected P sev) (recipients_of st sev c)
        (λ r s. (s.0, subst P (sym s.1) h.0)) (recipients_of-Fits st sev c))
      (resolve_recipients-Expected st P sev cs h.1)

-- A bucket of such recipients, on a channel that fits.
abbrev pub Allowed : (String → Type 0) → String → ChannelBucket → Type 0
Allowed P sev b = Fits sev b.channel_type × All (λ x. P x.contact_id) b.recipients

put_all-Allowed :
    (P : String → Type 0) (sev : String) (bs : List ChannelBucket) (rs : List ResolvedRecipient)
    → All (Allowed P sev) bs
    → All (Expected P sev) rs
    → All (Allowed P sev) (put_all bs rs)
unfolding put_all put
put_all-Allowed P sev bs [] h i = h
put_all-Allowed P sev bs (r ∷ rs) h i = put_all-Allowed P sev (put bs r) rs (put-Allowed bs h) i.1
  where
    put-Allowed :
        (out : List ChannelBucket) → All (Allowed P sev) out → All (Allowed P sev) (put out r)
    put-Allowed [] h = ((i.0.0, (i.0.1, tt)), tt)
    put-Allowed (b ∷ out) h =
        if-both (All (Allowed P sev)) (str_eq (bucket_name b) (target_key r))
          (
            (
              h.0.0,
              All-append (λ x. P x.contact_id) b.recipients (r.recipient ∷ []) h.0.1 (i.0.1, tt),
            ),
            h.1,
          )
          (h.0, put-Allowed out h.1)

pub group_by_channel_target-Allowed :
    (P : String → Type 0) (sev : String) (rs : List ResolvedRecipient)
    → All (Expected P sev) rs
    → All (Allowed P sev) (group_by_channel_target rs)
unfolding group_by_channel_target
group_by_channel_target-Allowed P sev rs h = put_all-Allowed P sev [] rs tt h

abbrev Anyone : String → Type 0
Anyone id = Unit

every_id : (cs : List NotificationContact) → All (λ c. Anyone c.id) cs
every_id [] = tt
every_id (c ∷ cs) = (tt, every_id cs)

-- Every bucket of resolved recipients has a sender.
pub group_by_channel_target-Known :
    (st : Settings) (sev : String) (cs : List NotificationContact)
    → All
        (λ b. known_channel b.channel_type ≡ true)
        (group_by_channel_target (resolve_recipients st sev cs))
group_by_channel_target-Known st sev cs =
    let rs = resolve_recipients st sev cs in
    All-imp (Allowed Anyone sev) (λ b. known_channel b.channel_type ≡ true)
      (group_by_channel_target rs) (λ b h. h.0.0)
      (group_by_channel_target-Allowed Anyone sev rs
        (resolve_recipients-Expected st Anyone sev cs (every_id cs)))
