-- ===== src/Notification/Dispatch/Due.antt =====
-- internal/notification/dispatcher.go: who may be notified, and a case in which nobody is.
use alertmesh_new.Prelude.{
  String, Bool, true, false, some, List, [], ◌∷◌, ◌≡◌, refl, sym, subst, trim_space, contains, All,
}
use alertmesh_new.Notification.Contact.{
  Cipher, Settings, NotificationContact, recipients_of, resolve_recipients, is_p0,
  dingtalk_recipient, feishu_recipient, slack_recipient, email_recipient, phone_recipients,
}
use alertmesh_new.Notification.Bucket.{
  ChannelBucket, group_by_channel_target, dispatch_buckets, put_all,
}
use alertmesh_new.Notification.Dispatch.{
  Directory, NotificationPolicy, dispatch_to_contacts, dispatch_found, dispatch_for_incident,
}
use alertmesh_new.Notification.Dispatch.Notices.{OnSent}
use alertmesh_new.Notification.Dispatch.Delivery.{ids_of}
use alertmesh_new.Notification.Dispatch.Delivery.{Lists}
use alertmesh_new.Notification.Dispatch.Channels.{by_phone}
use alertmesh_new.Notification.Bucket.{known_channel, Notice, dropped, sent, logged, counted}
use alertmesh_new.Notification.Dispatch.Listed.{IsListed, in_force, dispatch_for_incident-IsListed}
use alertmesh_new.Prelude.{All-imp, to_upper, eq_iff}
use alertmesh_new.Notification.Dispatch.Force.{InForce, in_force-InForce}
use alertmesh_new.Notification.Dispatch.Origin.{contains-ids_of_policy}

-- A bucket that may be sent: each recipient is a contact that a policy in force lists, itself or through
-- a group, the channel has a sender, and it rings a phone only if the severity is P0.
pub record IsDue (db : Directory) (sev route_id : String) (b : ChannelBucket) : Type 0 where
  pub listed :
      All
        (λ x. (p : NotificationPolicy) × InForce db sev route_id p × Lists db p x.contact_id)
        b.recipients
  pub known : known_channel b.channel_type ≡ true
  pub urgent : by_phone b.channel_type ≡ true → to_upper (trim_space sev) ≡ "P0"

IsListed-IsDue :
    (db : Directory) (sev route_id : String) (b : ChannelBucket)
    → IsListed db (in_force db sev route_id) sev b
    → IsDue db sev route_id b
unfolding is_p0
IsListed-IsDue db sev route_id b h = record {
  listed = All-imp _ _ b.recipients (λ x has. of_policy x.contact_id has) h.1;
  known = h.0.0;
  urgent = λ loud. (eq_iff (to_upper (trim_space sev)) "P0").0 (h.0.1 loud);
}
  where
    of_policy :
        (id : String)
        → contains (ids_of db (in_force db sev route_id)) id ≡ true
        → (p : NotificationPolicy) × InForce db sev route_id p × Lists db p id
    of_policy id has =
        let (p, at, lists) = contains-ids_of_policy db (in_force db sev route_id) id has in
        (p, in_force-InForce db sev route_id p at, lists)

OnSent-imp :
    (P Q : ChannelBucket → Type 0)
    → ((b : ChannelBucket) → P b → Q b)
    → (n : Notice) → OnSent P n
    → OnSent Q n
OnSent-imp P Q f (dropped reason) h = tt
OnSent-imp P Q f (sent b ok) h = f b h
OnSent-imp P Q f (logged id channel status) h = tt
OnSent-imp P Q f (counted channel batched) h = tt

-- Every bucket that is given to a sender is due: each of its recipients is a contact that an enabled
-- policy, linked by the incident's route and covering the severity, lists itself or through a group; its
-- channel has a sender; and it rings a phone only if the severity, trimmed and in capitals, is P0.
pub dispatch_for_incident-IsDue :
    (st : Settings) (key : Cipher) (send : ChannelBucket → Bool) (db : Directory)
    (sev route_id : String)
    → All
        (OnSent (IsDue db sev route_id))
        (dispatch_for_incident st key send db sev (some route_id))
dispatch_for_incident-IsDue st key send db sev route_id =
    All-imp _ _ (dispatch_for_incident st key send db sev (some route_id))
      (OnSent-imp (IsListed db (in_force db sev route_id) sev) (IsDue db sev route_id)
        (IsListed-IsDue db sev route_id))
      (dispatch_for_incident-IsListed st key send db sev route_id)

-- A contact that only a phone call or a text message can reach.
abbrev pub PhoneOnly : NotificationContact → Type 0
PhoneOnly c =
    (trim_space c.dingtalk_webhook ≡ "")
    × (trim_space c.feishu_webhook ≡ "")
    × (c.slack_bot_token ≡ "")
    × (c.webhook_url ≡ "")
    × (trim_space c.email ≡ "")

resolve_recipients-none :
    (st : Settings) (sev : String) (cs : List NotificationContact)
    → is_p0 sev ≡ false
    → All PhoneOnly cs
    → resolve_recipients st sev cs ≡ []
unfolding resolve_recipients recipients_of dingtalk_recipient feishu_recipient slack_recipient
    email_recipient phone_recipients
resolve_recipients-none st sev [] low h = refl
resolve_recipients-none st sev (c ∷ cs) low h =
    rw (h.0.0, h.0.1, h.0.2, h.0.3, h.0.4, low) (resolve_recipients-none st sev cs low h.1)

-- If contacts are found that only a phone reaches, and the severity is not P0, then nothing happens: no
-- sender is called, no row of the log is written, and no drop is counted.
pub dispatch_found_silent :
    (st : Settings) (send : ChannelBucket → Bool) (sev : String) (c : NotificationContact)
    (cs : List NotificationContact)
    → is_p0 sev ≡ false
    → All PhoneOnly (c ∷ cs)
    → dispatch_found st send sev (c ∷ cs) ≡ []
unfolding dispatch_found dispatch_to_contacts group_by_channel_target dispatch_buckets put_all
dispatch_found_silent st send sev c cs low h =
    subst (λ rs. dispatch_buckets send (group_by_channel_target rs) ≡ [])
      (sym (resolve_recipients-none st sev (c ∷ cs) low h)) refl
