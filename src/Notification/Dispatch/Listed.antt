-- ===== src/Notification/Dispatch/Listed.antt =====
-- internal/notification/dispatcher.go: the buckets that a sender is given, in terms of the ids collected.
use alertmesh_new.Prelude.{
  String, Bool, true, false, not, Option, none, some, List, [], ◌∷◌, map, ◌≡◌, refl, sym, subst,
  ◌&&◌, str_eq, if◌then◌else◌, if-both, contains, All,
}
use alertmesh_new.Notification.Contact.{
  Cipher, Settings, NotificationContact, resolve_recipients, decrypt_contact_in_place,
}
use alertmesh_new.Notification.Bucket.{ChannelBucket, group_by_channel_target}
use alertmesh_new.Notification.Dispatch.{
  Directory, NotificationPolicy, AlertRoute, strict_items, load_route_for_incident,
  matched_policies, contacts_found, listed_contacts, load_and_decrypt_contacts, dispatch_found,
  dispatch_matched, dispatch_rows, dispatch_policies, dispatch_route, key_in_use,
  dispatch_for_incident,
}
use alertmesh_new.Notification.Dispatch.Channels.{
  Allowed, resolve_recipients-Expected, group_by_channel_target-Allowed,
}
use alertmesh_new.Notification.Dispatch.Notices.{OnSent, dispatch_buckets-OnSent}
use alertmesh_new.Notification.Dispatch.Delivery.{ids_of}

decrypt_contact_in_place_id :
    (key : Cipher) (c : NotificationContact) → (decrypt_contact_in_place key c).id ≡ c.id
unfolding decrypt_contact_in_place
decrypt_contact_in_place_id key c =
    if-both (λ (d : NotificationContact). d.id ≡ c.id) (not key.has_key) refl refl

listed_contacts-All :
    (key : Cipher) (ids : List String) (rows : List NotificationContact)
    → All
        (λ c. contains ids c.id ≡ true)
        (map (decrypt_contact_in_place key) (listed_contacts ids rows))
unfolding listed_contacts
listed_contacts-All key ids [] = tt
listed_contacts-All key ids (c ∷ rows) =
    by_id (not (str_eq c.id "")) (contains ids c.id) refl (listed_contacts-All key ids rows)
  where
    by_id :
        (named has : Bool)
        → contains ids c.id ≡ has
        → All
            (λ d. contains ids d.id ≡ true)
            (map (decrypt_contact_in_place key) (listed_contacts ids rows))
        → All
            (λ d. contains ids d.id ≡ true)
            (map
              (decrypt_contact_in_place key)
              (if named && has then c ∷ listed_contacts ids rows else listed_contacts ids rows))
    by_id true true e h =
        (subst (λ id. contains ids id ≡ true) (sym (decrypt_contact_in_place_id key c)) e, h)
    by_id true false e h = h
    by_id false has e h = h

-- A bucket for these policies: its recipients are contacts that the policies list, and
-- it rings no phone unless the severity is P0.
abbrev pub IsListed : Directory → List NotificationPolicy → String → ChannelBucket → Type 0
IsListed db ps sev b = Allowed (λ id. contains (ids_of db ps) id ≡ true) sev b

dispatch_matched-IsListed :
    (st : Settings) (key : Cipher) (send : ChannelBucket → Bool) (db : Directory) (sev : String)
    (ps : List NotificationPolicy)
    → All (OnSent (IsListed db ps sev)) (dispatch_matched st key send db sev ps)
unfolding dispatch_matched load_and_decrypt_contacts
dispatch_matched-IsListed st key send db sev [] = (tt, tt)
dispatch_matched-IsListed st key send db sev (q ∷ ps) =
    found (contacts_found key (ids_of db (q ∷ ps)) db.contacts) (contacts_found-All db.contacts)
  where
    Listed : String → Type 0
    Listed id = contains (ids_of db (q ∷ ps)) id ≡ true

    contacts_found-All :
        (o : Option (List NotificationContact))
        → All (λ c. Listed c.id) (contacts_found key (ids_of db (q ∷ ps)) o)
    contacts_found-All none = tt
    contacts_found-All (some rows) = listed_contacts-All key (ids_of db (q ∷ ps)) rows

    found :
        (cs : List NotificationContact)
        → All (λ c. Listed c.id) cs
        → All (OnSent (IsListed db (q ∷ ps) sev)) (dispatch_found st send sev cs)
    found [] h = (tt, tt)
    found (c ∷ cs) h =
        let rs = resolve_recipients st sev (c ∷ cs) in
        dispatch_buckets-OnSent (IsListed db (q ∷ ps) sev) send (group_by_channel_target rs) (
          group_by_channel_target-Allowed Listed sev rs
            (resolve_recipients-Expected st Listed sev (c ∷ cs) h))

abbrev pub covering :
    List String → String → Option (List NotificationPolicy) → List NotificationPolicy
covering ids sev none = []
covering ids sev (some rows) = matched_policies ids sev rows

abbrev pub linked : Option AlertRoute → List String
linked none = []
linked (some route) = strict_items route.channel_ids

-- The policies that an incident's route leads to: linked, enabled, and covering the severity.
abbrev pub in_force : Directory → String → String → List NotificationPolicy
in_force db sev route_id = covering (linked (load_route_for_incident db route_id)) sev db.policies

-- Every bucket that is given to a sender has only contacts whose ids the matched policies list, and rings
-- no phone unless the severity is P0.
pub dispatch_for_incident-IsListed :
    (st : Settings) (key : Cipher) (send : ChannelBucket → Bool) (db : Directory)
    (sev route_id : String)
    → All
        (OnSent (IsListed db (in_force db sev route_id) sev))
        (dispatch_for_incident st key send db sev (some route_id))
unfolding dispatch_for_incident dispatch_route dispatch_policies dispatch_rows
dispatch_for_incident-IsListed st key send db sev route_id =
    by_route (load_route_for_incident db route_id)
  where
    by_rows :
        (ids : List String) (o : Option (List NotificationPolicy))
        → All
            (OnSent (IsListed db (covering ids sev o) sev))
            (dispatch_rows st (key_in_use st key) send db sev ids o)
    by_rows ids none = (tt, tt)
    by_rows ids (some rows) =
        dispatch_matched-IsListed st (key_in_use st key) send db sev (matched_policies ids sev rows)

    by_ids :
        (ids : List String)
        → All
            (OnSent (IsListed db (covering ids sev db.policies) sev))
            (dispatch_policies st (key_in_use st key) send db sev ids)
    by_ids [] = (tt, tt)
    by_ids (id ∷ ids) = by_rows (id ∷ ids) db.policies

    by_route :
        (o : Option AlertRoute)
        → All
            (OnSent (IsListed db (covering (linked o) sev db.policies) sev))
            (dispatch_route st (key_in_use st key) send db sev o)
    by_route none = (tt, tt)
    by_route (some route) = by_ids (strict_items route.channel_ids)
