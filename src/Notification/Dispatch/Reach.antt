-- ===== src/Notification/Dispatch/Reach.antt =====
-- internal/notification/dispatcher.go and contact.go: what each stage keeps of the items that it is
-- given.
use alertmesh_new.Prelude.{
  String, Bool, true, false, not, List, [], ◌∷◌, ◌++◌, map, ◌≡◌, refl, sym, ap, subst, arith, ◌&&◌,
  inl, inr, str_eq, if◌then◌else◌, if-both, if-yes, contains, Any, All, eq_refl, eq_iff,
}
use alertmesh_new.Notification.Contact.{
  Settings, NotificationContact, Recipient, ResolvedRecipient, recipients_of, resolve_recipients,
}
use alertmesh_new.Notification.Bucket.{
  ChannelBucket, target_key, bucket_name, group_by_channel_target,
}
use alertmesh_new.Notification.Bucket.Partition.{
  bound_for, held_for, group_by_channel_target-IsPartition,
}
use alertmesh_new.Notification.Dispatch.{
  Column, NotificationPolicy, ContactGroup, loose_items, severity_matches, matched_policies,
  all_items, members_of, listed_contacts,
}

abbrev pub In : {A : Type 0} → A → List A → Type 0
In x xs = Any (λ y. y ≡ x) xs

module _ {A : Type 0} (P : A → Type 0) where
  pub Any-left : (xs ys : List A) → Any P xs → Any P (xs ++ ys)
  Any-left [] ys h = absurd h
  Any-left (x ∷ xs) ys (inl h) = inl h
  Any-left (x ∷ xs) ys (inr h) = inr (Any-left xs ys h)

  pub Any-right : (xs ys : List A) → Any P ys → Any P (xs ++ ys)
  Any-right [] ys h = h
  Any-right (x ∷ xs) ys h = inr (Any-right xs ys h)

  pub All-append : (xs ys : List A) → All P xs → All P ys → All P (xs ++ ys)
  All-append [] ys h i = i
  All-append (x ∷ xs) ys h i = (h.0, All-append xs ys h.1 i)

pub In-map : {A B : Type 0} (f : A → B) (x : A) (xs : List A) → In x xs → In (f x) (map f xs)
In-map f x [] h = h
In-map f x (y ∷ xs) (inl h) = inl (ap f h)
In-map f x (y ∷ xs) (inr h) = inr (In-map f x xs h)

pub contains-left :
    (xs ys : List String) (k : String) → contains xs k ≡ true → contains (xs ++ ys) k ≡ true
contains-left [] ys k h = ground arith
contains-left (x ∷ xs) ys k h = ground (arith, contains-left xs ys k)

pub contains-right :
    (xs ys : List String) (k : String) → contains ys k ≡ true → contains (xs ++ ys) k ≡ true
contains-right [] ys k h = h
contains-right (x ∷ xs) ys k h = ground (arith, contains-right xs ys k)

pub listed_contacts-In :
    (ids : List String) (rows : List NotificationContact) (c : NotificationContact)
    → str_eq c.id "" ≡ false
    → contains ids c.id ≡ true
    → In c rows
    → In c (listed_contacts ids rows)
unfolding listed_contacts
listed_contacts-In ids [] c ne has h = absurd h
listed_contacts-In ids (d ∷ rows) c ne has (inl e) =
    subst (λ b. In c (if b then d ∷ listed_contacts ids rows else listed_contacts ids rows))
      (sym (subst (λ x. (not (str_eq x.id "") && contains ids x.id) ≡ true) (sym e) (ground arith)))
      (inl e)
listed_contacts-In ids (d ∷ rows) c ne has (inr h) =
    let rest = listed_contacts-In ids rows c ne has h in
    if-both (In c) (not (str_eq d.id "") && contains ids d.id) (inr rest) rest

pub matched_policies-In :
    (ids : List String) (sev : String) (rows : List NotificationPolicy) (p : NotificationPolicy)
    → contains ids p.id ≡ true
    → p.is_enabled ≡ true
    → severity_matches p.severities sev ≡ true
    → In p rows
    → In p (matched_policies ids sev rows)
unfolding matched_policies
matched_policies-In ids sev [] p has on covers h = absurd h
matched_policies-In ids sev (q ∷ rows) p has on covers (inl e) =
    subst
      (λ b. In p (if b then q ∷ matched_policies ids sev rows else matched_policies ids sev rows))
      (sym (
        subst
          (λ x. ((contains ids x.id && x.is_enabled) && severity_matches x.severities sev) ≡ true)
          (sym e) (ground arith)))
      (inl e)
matched_policies-In ids sev (q ∷ rows) p has on covers (inr h) =
    let rest = matched_policies-In ids sev rows p has on covers h in
    if-both (In p) ((contains ids q.id && q.is_enabled) && severity_matches q.severities sev)
      (inr rest) rest

pub contains-all_items :
    {A : Type 0} (col : A → Column) (x : A) (xs : List A) (k : String)
    → In x xs
    → contains (loose_items (col x)) k ≡ true
    → contains (all_items col xs) k ≡ true
contains-all_items col x [] k h has = absurd h
contains-all_items col x (y ∷ xs) k (inl e) has =
    contains-left (loose_items (col y)) (all_items col xs) k
      (subst (λ z. contains (loose_items (col z)) k ≡ true) (sym e) has)
contains-all_items col x (y ∷ xs) k (inr h) has =
    contains-right (loose_items (col y)) (all_items col xs) k (contains-all_items col x xs k h has)

pub contains-members_of :
    (ids : List String) (rows : List ContactGroup) (g : ContactGroup) (k : String)
    → contains ids g.id ≡ true
    → contains (loose_items g.contact_ids) k ≡ true
    → In g rows
    → contains (members_of ids rows) k ≡ true
unfolding members_of
contains-members_of ids [] g k listed has h = absurd h
contains-members_of ids (d ∷ rows) g k listed has (inl e) =
    subst
      (λ b.
        contains
          (if b then loose_items d.contact_ids ++ members_of ids rows else members_of ids rows) k
        ≡ true)
      (sym (subst (λ x. contains ids x.id ≡ true) (sym e) listed))
      (contains-left (loose_items d.contact_ids) (members_of ids rows) k
        (subst (λ x. contains (loose_items x.contact_ids) k ≡ true) (sym e) has))
contains-members_of ids (d ∷ rows) g k listed has (inr h) =
    let rest = contains-members_of ids rows g k listed has h in
    if-both (λ l. contains l k ≡ true) (contains ids d.id)
      (contains-right (loose_items d.contact_ids) (members_of ids rows) k rest) rest

pub resolve_recipients-In :
    (st : Settings) (sev : String) (cs : List NotificationContact) (c : NotificationContact)
    (r : ResolvedRecipient)
    → In c cs
    → In r (recipients_of st sev c)
    → In r (resolve_recipients st sev cs)
unfolding resolve_recipients
resolve_recipients-In st sev [] c r h i = absurd h
resolve_recipients-In st sev (d ∷ cs) c r (inl e) i =
    Any-left (λ y. y ≡ r) (recipients_of st sev d) (resolve_recipients st sev cs)
      (subst (λ x. In r (recipients_of st sev x)) (sym e) i)
resolve_recipients-In st sev (d ∷ cs) c r (inr h) i =
    Any-right (λ y. y ≡ r) (recipients_of st sev d) (resolve_recipients st sev cs)
      (resolve_recipients-In st sev cs c r h i)

bound_for-In :
    (rs : List ResolvedRecipient) (r : ResolvedRecipient)
    → In r rs
    → In r.recipient (bound_for (target_key r) rs)
bound_for-In [] r h = absurd h
bound_for-In (q ∷ rs) r (inl e) =
    if-yes (In r.recipient) (str_eq (target_key q) (target_key r))
      (q.recipient ∷ bound_for (target_key r) rs) (bound_for (target_key r) rs)
      (subst (λ x. str_eq (target_key q) (target_key x) ≡ true) e (eq_refl (target_key q)))
      (inl (ap (λ x. x.recipient) e))
bound_for-In (q ∷ rs) r (inr h) =
    let rest = bound_for-In rs r h in
    if-both (In r.recipient) (str_eq (target_key q) (target_key r)) (inr rest) rest

-- A bucket of a target that has a recipient.
abbrev pub Carries : String → Recipient → ChannelBucket → Type 0
Carries k x b = (bucket_name b ≡ k) × In x b.recipients

held_for-Carries :
    (k : String) (x : Recipient) (bs : List ChannelBucket)
    → In x (held_for k bs)
    → Any (Carries k x) bs
held_for-Carries k x [] h = absurd h
held_for-Carries k x (b ∷ bs) h =
    by_name (str_eq (bucket_name b) k) refl h (held_for-Carries k x bs)
  where
    by_name :
        (t : Bool)
        → str_eq (bucket_name b) k ≡ t
        → In x (if t then b.recipients else held_for k bs)
        → (In x (held_for k bs) → Any (Carries k x) bs)
        → Any (Carries k x) (b ∷ bs)
    by_name true e h rest = inl ((eq_iff (bucket_name b) k).0 e, h)
    by_name false e h rest = inr (rest h)

pub group_by_channel_target-Carries :
    (rs : List ResolvedRecipient) (r : ResolvedRecipient)
    → In r rs
    → Any (Carries (target_key r) r.recipient) (group_by_channel_target rs)
group_by_channel_target-Carries rs r h =
    held_for-Carries (target_key r) r.recipient (group_by_channel_target rs) (
      subst (In r.recipient) (sym ((group_by_channel_target-IsPartition rs).0 (target_key r)))
        (bound_for-In rs r h))
