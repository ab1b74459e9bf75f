-- ===== src/Notification/Tests.antt =====
-- internal/notification: runs of the dispatcher.
use alertmesh_new.Prelude.{
  String, Bool, true, false, none, some, [], ◌∷◌, ◌≡◌, refl, inl, inr, Any, All,
}
use alertmesh_new.Notification.Contact.{
  Cipher, Settings, NotificationContact, ResolvedRecipient, dingtalk_config, recipients_of,
  decrypt_contact_in_place, is_p0,
}
use alertmesh_new.Notification.Bucket.{ChannelBucket, group_by_channel_target}
use alertmesh_new.Notification.Bucket.Partition.{IsPartition, group_by_channel_target-IsPartition}
use alertmesh_new.Notification.Dispatch.{
  Directory, NotificationPolicy, AlertRoute, absent, items, dispatch_found, load_route_for_incident,
  severity_matches, dispatch_for_incident,
}
use alertmesh_new.Notification.Dispatch.Reach.{Carries}
use alertmesh_new.Notification.Dispatch.Notices.{Sends, OnSent}
use alertmesh_new.Notification.Dispatch.Delivery.{directly, dispatch_for_incident-Sends}
use alertmesh_new.Notification.Dispatch.Due.{
  IsDue, dispatch_for_incident-IsDue, dispatch_found_silent,
}

abbrev no_key : Cipher
no_key = record { has_key = false; decrypt = λ text. none }

abbrev settings : Settings
settings = record {
  system_configs = ("notification.voice", "{}") ∷ [];
  decode_email = λ raw. none;
  own = no_key;
}

abbrev contact : String → String → NotificationContact
contact id webhook = record {
  id = id;
  name = "on call";
  email = "";
  phone = "138";
  webhook_url = "";
  webhook_token = "";
  slack_bot_token = "";
  slack_channel_id = "";
  feishu_webhook = "";
  feishu_secret = "";
  dingtalk_webhook = webhook;
  dingtalk_secret = "s";
}

abbrev policy : NotificationPolicy
policy = record {
  id = "p";
  name = "all";
  severities = items ("P1" ∷ []);
  contact_ids = items ("a" ∷ "b" ∷ []);
  group_ids = absent;
  is_enabled = true;
}

abbrev route : AlertRoute
route = record { id = "r"; name = "route"; channel_ids = items ("p" ∷ []) }

abbrev db : Directory
db = record {
  routes = some (route ∷ []);
  policies = some (policy ∷ []);
  groups = none;
  contacts = some (contact "a" "hook" ∷ contact "b" "hook" ∷ []);
}

abbrev robot : String → ResolvedRecipient
robot id = record {
  channel_type = "dingtalk";
  bucket_key = "dingtalk::hook::s";
  config = dingtalk_config "hook" "s";
  recipient = record { contact_id = id; name = "on call"; endpoint = "138"; mention = "138" };
}

abbrev failing : ChannelBucket → Bool
failing b = false

group_by_channel_target-IsPartition_example :
    IsPartition (robot "a" ∷ robot "b" ∷ []) (group_by_channel_target (robot "a" ∷ robot "b" ∷ []))
group_by_channel_target-IsPartition_example =
    group_by_channel_target-IsPartition (robot "a" ∷ robot "b" ∷ [])

dispatch_for_incident-Sends_example :
    Any
      (Sends (Carries "dingtalk|dingtalk::hook::s" (robot "b").recipient))
      (dispatch_for_incident settings no_key failing db "P1" (some "r"))
unfolding load_route_for_incident severity_matches recipients_of decrypt_contact_in_place
dispatch_for_incident-Sends_example =
    dispatch_for_incident-Sends settings no_key failing db "P1" "r" route (policy ∷ []) policy
      (contact "a" "hook" ∷ contact "b" "hook" ∷ []) (contact "b" "hook") (robot "b") refl refl refl
      (inl refl) refl refl (directly refl) refl (inr (inl refl)) refl (inl refl)

dispatch_for_incident-IsDue_example :
    All
      (OnSent (IsDue db "P1" "r"))
      (dispatch_for_incident settings no_key failing db "P1" (some "r"))
dispatch_for_incident-IsDue_example =
    dispatch_for_incident-IsDue settings no_key failing db "P1" "r"

dispatch_found_silent_example : dispatch_found settings failing "P1" (contact "a" " " ∷ []) ≡ []
unfolding is_p0
dispatch_found_silent_example =
    dispatch_found_silent settings failing "P1" (contact "a" " ") [] refl
      ((refl, refl, refl, refl, refl), tt)
