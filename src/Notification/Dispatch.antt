-- ===== src/Notification/Dispatch.antt =====
-- internal/notification/dispatcher.go: `DispatchForIncident`, and `loadAndDecryptContacts` of
-- contact.go.
--
-- A query is its table, or `none` where it fails. The rows of `WHERE id IN ids` are those of the table
-- whose id is listed.
pub mod Reach
pub mod Channels
pub mod Notices
pub mod Delivery
pub mod Listed
pub mod Origin
pub mod Force
pub mod Due
use alertmesh_new.Prelude.{
  String, Bool, true, false, not, Option, none, some, List, [], ◌∷◌, ◌++◌, map, ◌&&◌, str_eq,
  if◌then◌else◌, contains,
}
use alertmesh_new.Notification.Contact.{
  Cipher, Settings, NotificationContact, ResolvedRecipient, resolve_recipients,
  decrypt_contact_in_place,
}
use alertmesh_new.Notification.Bucket.{
  ChannelBucket, Notice, dropped, group_by_channel_target, dispatch_buckets,
}

-- A JSON column that is to hold a list of strings: absent, not such a list (with the items that
-- json.Unmarshal leaves before it reports the error), or a list.
pub data Column : Type 0 where
  absent : Column
  malformed : List String → Column
  items : List String → Column

pub record NotificationPolicy : Type 0 where
  pub id : String
  pub name : String
  pub severities : Column
  pub contact_ids : Column
  pub group_ids : Column
  pub is_enabled : Bool

pub record ContactGroup : Type 0 where
  pub id : String
  pub contact_ids : Column

pub record AlertRoute : Type 0 where
  pub id : String
  pub name : String
  pub channel_ids : Column

pub record Directory : Type 0 where
  pub routes : Option (List AlertRoute)
  pub policies : Option (List NotificationPolicy)
  pub groups : Option (List ContactGroup)
  pub contacts : Option (List NotificationContact)

-- The items that are used where the error is ignored.
abbrev pub loose_items : Column → List String
loose_items absent = []
loose_items (malformed left) = left
loose_items (items l) = l

-- `channelIDsToPolicyIDs`
abbrev pub strict_items : Column → List String
strict_items absent = []
strict_items (malformed left) = []
strict_items (items l) = l

-- `severityMatches`
unfoldable pub severity_matches : Column → String → Bool
severity_matches absent sev = true
severity_matches (malformed left) sev = true
severity_matches (items []) sev = true
severity_matches (items (s ∷ ss)) sev = contains (s ∷ ss) sev

unfoldable pub find_route : List AlertRoute → String → Option AlertRoute
find_route [] id = none
find_route (r ∷ rs) id = if str_eq r.id id then some r else find_route rs id

-- `loadRouteForIncident`, from the incident's route_id; "" is NULL or empty.
unfoldable pub load_route_for_incident : Directory → String → Option AlertRoute
unfolding find_route
load_route_for_incident db route_id =
    if str_eq route_id ""
    then none
    else elim db.routes [ none ↦ none | some rows ↦ find_route rows route_id ]

-- The policies that the query returns and whose severities cover the message's.
unfoldable pub matched_policies :
    List String → String → List NotificationPolicy → List NotificationPolicy
unfolding severity_matches
matched_policies ids sev [] = []
matched_policies ids sev (p ∷ ps) =
    let rest = matched_policies ids sev ps in
    if (contains ids p.id && p.is_enabled) && severity_matches p.severities sev
    then p ∷ rest
    else rest

abbrev pub all_items : {A : Type 0} → (A → Column) → List A → List String
all_items col [] = []
all_items col (x ∷ xs) = loose_items (col x) ++ all_items col xs

unfoldable pub members_of : List String → List ContactGroup → List String
members_of ids [] = []
members_of ids (g ∷ gs) =
    let rest = members_of ids gs in
    if contains ids g.id then loose_items g.contact_ids ++ rest else rest

-- A group query that fails adds nobody.
unfoldable pub members_found : List String → Option (List ContactGroup) → List String
unfolding members_of
members_found ids none = []
members_found ids (some rows) = members_of ids rows

-- `idSet`, as the list of its members and "".
unfoldable pub id_set : Directory → List String → List String → List String
unfolding members_found
id_set db contact_ids group_ids = contact_ids ++ members_found group_ids db.groups

unfoldable pub listed_contacts : List String → List NotificationContact → List NotificationContact
listed_contacts ids [] = []
listed_contacts ids (c ∷ cs) =
    let rest = listed_contacts ids cs in
    if not (str_eq c.id "") && contains ids c.id then c ∷ rest else rest

unfoldable pub contacts_found :
    Cipher → List String → Option (List NotificationContact) → List NotificationContact
unfolding listed_contacts decrypt_contact_in_place
contacts_found key ids none = []
contacts_found key ids (some rows) = map (decrypt_contact_in_place key) (listed_contacts ids rows)

unfoldable pub load_and_decrypt_contacts :
    Cipher → Directory → List String → List String → List NotificationContact
unfolding id_set contacts_found
load_and_decrypt_contacts key db contact_ids group_ids =
    contacts_found key (id_set db contact_ids group_ids) db.contacts

-- `dispatchToContacts`: with no recipient it does nothing at all.
unfoldable pub dispatch_to_contacts :
    Settings → (ChannelBucket → Bool) → String → List NotificationContact → List Notice
unfolding resolve_recipients group_by_channel_target dispatch_buckets
dispatch_to_contacts st send severity contacts =
    dispatch_buckets send (group_by_channel_target (resolve_recipients st severity contacts))

-- The stages of `DispatchForIncident`, from its last test to its first.
unfoldable pub dispatch_found :
    Settings → (ChannelBucket → Bool) → String → List NotificationContact → List Notice
unfolding dispatch_to_contacts
dispatch_found st send severity [] = dropped "no_contacts" ∷ []
dispatch_found st send severity (c ∷ cs) = dispatch_to_contacts st send severity (c ∷ cs)

unfoldable pub dispatch_matched :
    Settings
    → Cipher
    → (ChannelBucket → Bool)
    → Directory
    → String
    → List NotificationPolicy
    → List Notice
unfolding load_and_decrypt_contacts dispatch_found
dispatch_matched st key send db severity [] = dropped "no_severity_match" ∷ []
dispatch_matched st key send db severity (p ∷ ps) = dispatch_found st send severity (
    load_and_decrypt_contacts key db (all_items (λ q. q.contact_ids) (p ∷ ps))
      (all_items (λ q. q.group_ids) (p ∷ ps)))

unfoldable pub dispatch_rows :
    Settings
    → Cipher
    → (ChannelBucket → Bool)
    → Directory
    → String
    → List String
    → Option (List NotificationPolicy)
    → List Notice
unfolding matched_policies dispatch_matched
dispatch_rows st key send db severity ids none = dropped "policy_lookup_failed" ∷ []
dispatch_rows st key send db severity ids (some rows) =
    dispatch_matched st key send db severity (matched_policies ids severity rows)

unfoldable pub dispatch_policies :
    Settings → Cipher → (ChannelBucket → Bool) → Directory → String → List String → List Notice
unfolding dispatch_rows
dispatch_policies st key send db severity [] = dropped "no_policy" ∷ []
dispatch_policies st key send db severity (id ∷ ids) =
    dispatch_rows st key send db severity (id ∷ ids) db.policies

unfoldable pub dispatch_route :
    Settings
    → Cipher
    → (ChannelBucket → Bool)
    → Directory
    → String
    → Option AlertRoute
    → List Notice
unfolding dispatch_policies
dispatch_route st key send db severity none = dropped "no_route" ∷ []
dispatch_route st key send db severity (some route) =
    dispatch_policies st key send db severity (strict_items route.channel_ids)

-- `encryptionKey` after the first test.
abbrev pub key_in_use : Settings → Cipher → Cipher
key_in_use st key = if key.has_key then key else st.own

-- `DispatchForIncident` under the key that is given, for an incident with this route_id, or none.
unfoldable pub dispatch_for_incident :
    Settings → Cipher → (ChannelBucket → Bool) → Directory → String → Option String → List Notice
unfolding load_route_for_incident dispatch_route
dispatch_for_incident st key send db severity none = dropped "nil_incident" ∷ []
dispatch_for_incident st key send db severity (some route_id) =
    dispatch_route st (key_in_use st key) send db severity (load_route_for_incident db route_id)
