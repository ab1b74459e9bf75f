-- ===== src/Notification/Contact.antt =====
-- internal/notification/contact.go: `resolveRecipients`, the settings of the providers, and
-- `decryptContactInPlace`.
--
-- The settings are loaded when a contact first needs them, once for each call; the model reads them
-- where they are used, which no answer can tell apart while the settings stand still. A JSON
-- configuration is the struct that it holds. `Cipher` stands for `Decrypt` of internal/config/crypto.go
-- under a key, and `decode_email` for encoding/json.
use Prim.Native.String
use alertmesh_new.Prelude.{
  ℕ, String, Bool, Option, none, some, List, [], ◌∷◌, ◌++◌, ◌&&◌, not, str_eq, if◌then◌else◌, Assoc,
  lookup, trim_space, to_upper,
}

pub record NotificationContact : Type 0 where
  pub id : String
  pub name : String
  pub email : String
  pub phone : String
  pub webhook_url : String
  pub webhook_token : String
  pub slack_bot_token : String
  pub slack_channel_id : String
  pub feishu_webhook : String
  pub feishu_secret : String
  pub dingtalk_webhook : String
  pub dingtalk_secret : String

pub record EmailConfig : Type 0 where
  pub smtp_host : String
  pub smtp_port : ℕ
  pub username : String
  pub password : String
  pub from : String
  pub to : List String

pub data ChannelConfig : Type 0 where
  dingtalk_config : String → String → ChannelConfig  -- webhook and secret
  feishu_config : String → String → ChannelConfig
  slack_bot_config : String → String → ChannelConfig  -- token and channel
  slack_webhook_config : String → ChannelConfig
  email_config : EmailConfig → ChannelConfig
  provider_config : String → ChannelConfig

pub record Recipient : Type 0 where
  pub contact_id : String
  pub name : String
  pub endpoint : String
  pub mention : String

pub record ResolvedRecipient : Type 0 where
  pub channel_type : String
  pub bucket_key : String
  pub config : ChannelConfig
  pub recipient : Recipient

-- An encryption key: `has_key` is false where it is empty, and `decrypt` is `none` where it fails.
pub record Cipher : Type 0 where
  pub has_key : Bool
  pub decrypt : String → Option String

-- The table `system_configs` by key, what json.Unmarshal makes of an `EmailConfig`, and the key that
-- the dispatcher was built with.
pub record Settings : Type 0 where
  pub system_configs : Assoc String
  pub decode_email : String → Option EmailConfig
  pub own : Cipher

-- `loadProviderConfig`; "" is the empty answer.
unfoldable pub load_provider_config : Settings → String → String
unfolding trim_space
load_provider_config st key = elim (lookup key st.system_configs) [
  | none ↦ ""
  | some raw ↦
      if str_eq (trim_space raw) ""
      then ""
      else if st.own.has_key
      then elim (st.own.decrypt (trim_space raw)) [ none ↦ trim_space raw | some plain ↦ plain ]
      else trim_space raw
]

unfoldable pub load_smtp_config : Settings → Option EmailConfig
unfolding load_provider_config
load_smtp_config st =
    if str_eq (load_provider_config st "notification.smtp") ""
    then none
    else elim (st.decode_email (load_provider_config st "notification.smtp")) [
      | none ↦ none
      | some cfg ↦ if str_eq cfg.smtp_host "" then none else some cfg
    ]

abbrev pub bucket_text : String → String → String → String
bucket_text kind a b = String.◌++◌ kind (String.◌++◌ a (String.◌++◌ "::" b))

abbrev pub person : NotificationContact → String → String → Recipient
person c endpoint mention = record {
  contact_id = c.id;
  name = c.name;
  endpoint = endpoint;
  mention = mention;
}

unfoldable pub dingtalk_recipient : NotificationContact → List ResolvedRecipient
unfolding trim_space
dingtalk_recipient c =
    let v = trim_space c.dingtalk_webhook in
    if str_eq v ""
    then []
    else record {
      channel_type = "dingtalk";
      bucket_key = bucket_text "dingtalk::" v c.dingtalk_secret;
      config = dingtalk_config v c.dingtalk_secret;
      recipient = person c c.phone c.phone;
    }
      ∷ []

unfoldable pub feishu_recipient : NotificationContact → List ResolvedRecipient
unfolding trim_space
feishu_recipient c =
    let v = trim_space c.feishu_webhook in
    if str_eq v ""
    then []
    else record {
      channel_type = "feishu";
      bucket_key = bucket_text "feishu::" v c.feishu_secret;
      config = feishu_config v c.feishu_secret;
      recipient = person c c.phone c.phone;
    }
      ∷ []

-- The token with a channel goes before the webhook.
unfoldable pub slack_recipient : NotificationContact → List ResolvedRecipient
slack_recipient c =
    if not (str_eq c.slack_bot_token "") && not (str_eq c.slack_channel_id "")
    then record {
      channel_type = "slack";
      bucket_key = bucket_text "slack-bot::" c.slack_bot_token c.slack_channel_id;
      config = slack_bot_config c.slack_bot_token c.slack_channel_id;
      recipient = person c "" c.phone;
    }
      ∷ []
    else if str_eq c.webhook_url ""
    then []
    else record {
      channel_type = "slack";
      bucket_key = String.◌++◌ "slack-webhook::" c.webhook_url;
      config = slack_webhook_config c.webhook_url;
      recipient = person c "" c.phone;
    }
      ∷ []

unfoldable pub email_with :
    NotificationContact → String → Option EmailConfig → List ResolvedRecipient
email_with c e none = []
email_with c e (some cfg) =
    record {
      channel_type = "email";
      bucket_key = bucket_text "email::" cfg.smtp_host cfg.from;
      config = email_config cfg;
      recipient = person c e "";
    }
    ∷ []

unfoldable pub email_recipient : Settings → NotificationContact → List ResolvedRecipient
unfolding trim_space load_smtp_config email_with
email_recipient st c =
    let e = trim_space c.email in if str_eq e "" then [] else email_with c e (load_smtp_config st)

-- A channel whose provider is set up under the key.
unfoldable pub provider_recipient :
    Settings → String → String → NotificationContact → List ResolvedRecipient
unfolding load_provider_config
provider_recipient st channel key c =
    let raw = load_provider_config st key in
    if str_eq raw ""
    then []
    else record {
      channel_type = channel;
      bucket_key = channel;
      config = provider_config raw;
      recipient = person c c.phone "";
    }
      ∷ []

-- strings.EqualFold(strings.TrimSpace(severity), "P0")
unfoldable pub is_p0 : String → Bool
unfolding trim_space to_upper
is_p0 severity = str_eq (to_upper (trim_space severity)) "P0"

-- Voice and SMS, for P0 only.
unfoldable pub phone_recipients : Settings → String → NotificationContact → List ResolvedRecipient
unfolding is_p0 provider_recipient trim_space
phone_recipients st severity c =
    if is_p0 severity && not (str_eq (trim_space c.phone) "")
    then provider_recipient st "voice" "notification.voice" c
      ++ provider_recipient st "sms" "notification.sms" c
    else []

-- One round of the loop of `resolveRecipients`.
unfoldable pub recipients_of : Settings → String → NotificationContact → List ResolvedRecipient
unfolding dingtalk_recipient feishu_recipient slack_recipient email_recipient phone_recipients
recipients_of st severity c =
    dingtalk_recipient c
    ++ (feishu_recipient c
        ++ (slack_recipient c ++ (email_recipient st c ++ phone_recipients st severity c)))

unfoldable pub resolve_recipients :
    Settings → String → List NotificationContact → List ResolvedRecipient
unfolding recipients_of
resolve_recipients st severity [] = []
resolve_recipients st severity (c ∷ cs) =
    recipients_of st severity c ++ resolve_recipients st severity cs

-- `dec`
unfoldable pub dec : Cipher → String → String
dec key v = if str_eq v "" then "" else elim (key.decrypt v) [ none ↦ v | some plain ↦ plain ]

unfoldable pub decrypt_contact_in_place : Cipher → NotificationContact → NotificationContact
unfolding dec
decrypt_contact_in_place key c = if not key.has_key then c else record c {
  webhook_token = dec key c.webhook_token;
  slack_bot_token = dec key c.slack_bot_token;
  feishu_secret = dec key c.feishu_secret;
  dingtalk_secret = dec key c.dingtalk_secret;
}
