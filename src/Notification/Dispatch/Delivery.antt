-- ===== src/Notification/Dispatch/Delivery.antt =====
-- internal/notification/dispatcher.go: who is notified of an incident, and who is not.
use alertmesh_new.Prelude.{
  String, Bool, true, false, Option, some, List, [], ◌∷◌, ◌≡◌, sym, subst, arith, str_eq, contains,
  Any,
}
use alertmesh_new.Notification.Contact.{
  Cipher, Settings, NotificationContact, ResolvedRecipient, recipients_of, resolve_recipients,
  decrypt_contact_in_place,
}
use alertmesh_new.Notification.Bucket.{ChannelBucket, Notice, target_key, group_by_channel_target}
use alertmesh_new.Notification.Dispatch.{
  Directory, NotificationPolicy, ContactGroup, AlertRoute, strict_items, loose_items,
  severity_matches, load_route_for_incident, matched_policies, all_items, members_found,
  contacts_found, id_set, listed_contacts, load_and_decrypt_contacts, dispatch_to_contacts,
  dispatch_found, dispatch_matched, dispatch_rows, dispatch_policies, dispatch_route, key_in_use,
  dispatch_for_incident,
}
use alertmesh_new.Notification.Dispatch.Reach.{
  In, In-map, contains-left, contains-right, listed_contacts-In, matched_policies-In,
  contains-all_items, contains-members_of, resolve_recipients-In, Carries,
  group_by_channel_target-Carries,
}
use alertmesh_new.Notification.Dispatch.Channels.{group_by_channel_target-Known}
use alertmesh_new.Notification.Dispatch.Notices.{Sends, dispatch_buckets-Sends}

-- A policy lists a contact itself, or has a group that lists it.
pub data Lists : Directory → NotificationPolicy → String → Type 0 where
  directly :
      {db : Directory} {p : NotificationPolicy} {id : String}
      → contains (loose_items p.contact_ids) id ≡ true
      → Lists db p id
  in_group :
      {db : Directory} {p : NotificationPolicy} {id : String} (groups : List ContactGroup)
      (g : ContactGroup)
      → db.groups ≡ some groups
      → In g groups
      → contains (loose_items p.group_ids) g.id ≡ true
      → contains (loose_items g.contact_ids) id ≡ true
      → Lists db p id

-- The ids that the policies list, themselves and through their groups.
abbrev pub ids_of : Directory → List NotificationPolicy → List String
ids_of db ps = id_set db (all_items (λ q. q.contact_ids) ps) (all_items (λ q. q.group_ids) ps)

contains-ids_of :
    (db : Directory) (ps : List NotificationPolicy) (p : NotificationPolicy) (id : String)
    → In p ps
    → Lists db p id
    → contains (ids_of db ps) id ≡ true
unfolding id_set members_found
contains-ids_of db ps p id h (directly has) =
    contains-left (all_items (λ q. q.contact_ids) ps)
      (members_found (all_items (λ q. q.group_ids) ps) db.groups) id
      (contains-all_items (λ q. q.contact_ids) p ps id h has)
contains-ids_of db ps p id h (in_group groups g e at listed has) =
    contains-right (all_items (λ q. q.contact_ids) ps)
      (members_found (all_items (λ q. q.group_ids) ps) db.groups) id
      (subst (λ o. contains (members_found (all_items (λ q. q.group_ids) ps) o) id ≡ true) (sym e)
        (contains-members_of (all_items (λ q. q.group_ids) ps) groups g id
          (contains-all_items (λ q. q.group_ids) p ps g.id h listed) has at))

contacts_found-In :
    (key : Cipher) (ids : List String) (found : Option (List NotificationContact))
    (rows : List NotificationContact) (c : NotificationContact)
    → found ≡ some rows
    → In c rows
    → str_eq c.id "" ≡ false
    → contains ids c.id ≡ true
    → In (decrypt_contact_in_place key c) (contacts_found key ids found)
unfolding contacts_found
contacts_found-In key ids found rows c e at ne has =
    subst (λ o. In (decrypt_contact_in_place key c) (contacts_found key ids o)) (sym e)
      (In-map (decrypt_contact_in_place key) c (listed_contacts ids rows)
        (listed_contacts-In ids rows c ne has at))

dispatch_found-Sends :
    (st : Settings) (send : ChannelBucket → Bool) (sev : String) (cs : List NotificationContact)
    (c : NotificationContact) (r : ResolvedRecipient)
    → In c cs
    → In r (recipients_of st sev c)
    → Any (Sends (Carries (target_key r) r.recipient)) (dispatch_found st send sev cs)
unfolding dispatch_found dispatch_to_contacts
dispatch_found-Sends st send sev [] c r h i = absurd h
dispatch_found-Sends st send sev (d ∷ cs) c r h i =
    let rs = resolve_recipients st sev (d ∷ cs) in
    dispatch_buckets-Sends (Carries (target_key r) r.recipient) send (group_by_channel_target rs)
      (group_by_channel_target-Known st sev (d ∷ cs))
      (group_by_channel_target-Carries rs r (resolve_recipients-In st sev (d ∷ cs) c r h i))

dispatch_matched-Sends :
    (st : Settings) (key : Cipher) (send : ChannelBucket → Bool) (db : Directory) (sev : String)
    (ps : List NotificationPolicy) (p : NotificationPolicy) (rows : List NotificationContact)
    (c : NotificationContact) (r : ResolvedRecipient)
    → In p ps
    → Lists db p c.id
    → db.contacts ≡ some rows
    → In c rows
    → str_eq c.id "" ≡ false
    → In r (recipients_of st sev (decrypt_contact_in_place key c))
    → Any (Sends (Carries (target_key r) r.recipient)) (dispatch_matched st key send db sev ps)
unfolding dispatch_matched load_and_decrypt_contacts
dispatch_matched-Sends st key send db sev [] p rows c r h l e at ne i = absurd h
dispatch_matched-Sends st key send db sev (q ∷ ps) p rows c r h l e at ne i =
    dispatch_found-Sends st send sev (contacts_found key (ids_of db (q ∷ ps)) db.contacts)
      (decrypt_contact_in_place key c) r
      (contacts_found-In key (ids_of db (q ∷ ps)) db.contacts rows c e at ne
        (contains-ids_of db (q ∷ ps) p c.id h l))
      i

dispatch_policies-Sends :
    (st : Settings) (key : Cipher) (send : ChannelBucket → Bool) (db : Directory) (sev : String)
    (ids : List String) (rows : List NotificationPolicy) (p : NotificationPolicy)
    (P : Notice → Type 0)
    → contains ids p.id ≡ true
    → db.policies ≡ some rows
    → In p rows
    → p.is_enabled ≡ true
    → severity_matches p.severities sev ≡ true
    → ((ps : List NotificationPolicy) → In p ps → Any P (dispatch_matched st key send db sev ps))
    → Any P (dispatch_policies st key send db sev ids)
unfolding dispatch_policies dispatch_rows
dispatch_policies-Sends st key send db sev [] rows p P has e at on covers sends = ground arith
dispatch_policies-Sends st key send db sev (id ∷ ids) rows p P has e at on covers sends =
    subst (λ o. Any P (dispatch_rows st key send db sev (id ∷ ids) o)) (sym e)
      (sends (matched_policies (id ∷ ids) sev rows)
        (matched_policies-In (id ∷ ids) sev rows p has on covers at))

-- If a policy of the incident's route is enabled, covers the severity and lists a contact, itself or
-- through a group, then every recipient that the contact resolves to is in a bucket of its target that
-- is given to a sender, whatever the senders answer.
pub dispatch_for_incident-Sends :
    (st : Settings) (key : Cipher) (send : ChannelBucket → Bool) (db : Directory)
    (sev route_id : String) (route : AlertRoute) (policies : List NotificationPolicy)
    (p : NotificationPolicy) (rows : List NotificationContact) (c : NotificationContact)
    (r : ResolvedRecipient)
    → load_route_for_incident db route_id ≡ some route
    → contains (strict_items route.channel_ids) p.id ≡ true
    → db.policies ≡ some policies
    → In p policies
    → p.is_enabled ≡ true
    → severity_matches p.severities sev ≡ true
    → Lists db p c.id
    → db.contacts ≡ some rows
    → In c rows
    → str_eq c.id "" ≡ false
    → In r (recipients_of st sev (decrypt_contact_in_place (key_in_use st key) c))
    → Any
        (Sends (Carries (target_key r) r.recipient))
        (dispatch_for_incident st key send db sev (some route_id))
unfolding dispatch_for_incident dispatch_route
dispatch_for_incident-Sends st key send db sev route_id route policies p rows c r found linked e at
      on covers l f in_rows ne i =
    let sends = Sends (Carries (target_key r) r.recipient) in
    let use_key = key_in_use st key in
    subst (λ o. Any sends (dispatch_route st use_key send db sev o)) (sym found)
      (dispatch_policies-Sends st use_key send db sev (strict_items route.channel_ids) policies p
        sends linked e at on covers
        (λ ps h. dispatch_matched-Sends st use_key send db sev ps p rows c r h l f in_rows ne i))
