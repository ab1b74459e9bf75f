-- ===== src/Notification/Dispatch/Origin.antt =====
-- internal/notification/dispatcher.go: where the ids collected for the contacts come from.
use alertmesh_new.Prelude.{
  String, Bool, true, false, Option, none, some, List, [], ◌∷◌, ◌≡◌, refl, subst, str_eq,
  if◌then◌else◌, contains, Bool-cases,
}
use alertmesh_new.Notification.Dispatch.{Directory, NotificationPolicy}
use alertmesh_new.Notification.Dispatch.Delivery.{ids_of}
use alertmesh_new.Notification.Dispatch.{
  Column, ContactGroup, loose_items, all_items, members_of, members_found, id_set,
}
use alertmesh_new.Notification.Dispatch.Reach.{In}
use alertmesh_new.Notification.Dispatch.Delivery.{Lists, directly, in_group}
use alertmesh_new.Prelude.{◌++◌, eq_iff, ◌⊎◌, inl, inr, arith}

pub contains-In : (ids : List String) (id : String) → contains ids id ≡ true → In id ids
contains-In [] id h = cc
contains-In (x ∷ ids) id h = elim (Bool-cases (str_eq x id)) [
  | inl t ↦ inl ((eq_iff x id).0 t)
  | inr t ↦ inr (contains-In ids id (subst (λ b. (if b then true else contains ids id) ≡ true) t h))
]

contains-append_or :
    (xs ys : List String) (id : String)
    → contains (xs ++ ys) id ≡ true
    → (contains xs id ≡ true) ⊎ (contains ys id ≡ true)
contains-append_or [] ys id h = inr h
contains-append_or (x ∷ xs) ys id h = ground (arith, contains-append_or xs ys id)

contains-all_items_of :
    {A : Type 0} (col : A → Column) (ps : List A) (id : String)
    → contains (all_items col ps) id ≡ true
    → (p : A) × In p ps × (contains (loose_items (col p)) id ≡ true)
contains-all_items_of col [] id h = cc
contains-all_items_of col (p ∷ ps) id h =
    elim (contains-append_or (loose_items (col p)) (all_items col ps) id h) [
      | inl own ↦ (p, inl refl, own)
      | inr rest ↦ let (q, at, has) = contains-all_items_of col ps id rest in (q, inr at, has)
    ]

contains-members_of_group :
    (ids : List String) (gs : List ContactGroup) (id : String)
    → contains (members_of ids gs) id ≡ true
    → (g : ContactGroup) × In g gs
      × (contains ids g.id ≡ true)
      × (contains (loose_items g.contact_ids) id ≡ true)
unfolding members_of
contains-members_of_group ids [] id h = cc
contains-members_of_group ids (g ∷ gs) id h =
    by_id (λ i. later (contains-members_of_group ids gs id i)) (contains ids g.id) refl h
  where
    Found : Type 0
    Found =
        (x : ContactGroup) × In x (g ∷ gs)
        × (contains ids x.id ≡ true)
        × (contains (loose_items x.contact_ids) id ≡ true)

    later :
        (x : ContactGroup) × In x gs
          × (contains ids x.id ≡ true)
          × (contains (loose_items x.contact_ids) id ≡ true)
        → Found
    later (x, at, listed, has) = (x, inr at, listed, has)

    by_id :
        (contains (members_of ids gs) id ≡ true → Found)
        → (b : Bool) → contains ids g.id ≡ b
        → contains
            (if b then loose_items g.contact_ids ++ members_of ids gs else members_of ids gs)
            id
          ≡ true
        → Found
    by_id ih true e i =
        elim (contains-append_or (loose_items g.contact_ids) (members_of ids gs) id i) [
          | inl own ↦ (g, inl refl, e, own)
          | inr rest ↦ ih rest
        ]
    by_id ih false e i = ih i

pub contains-ids_of_policy :
    (db : Directory) (ps : List NotificationPolicy) (id : String)
    → contains (ids_of db ps) id ≡ true
    → (p : NotificationPolicy) × In p ps × Lists db p id
unfolding id_set members_found
contains-ids_of_policy db ps id h =
    elim (contains-append_or (all_items (λ q. q.contact_ids) ps) (members_found group_ids db.groups)
      id h) [
        | inl own ↦
            let (p, at, has) = contains-all_items_of (λ q. q.contact_ids) ps id own in
            (p, at, directly has)
        | inr member ↦ by_groups db.groups refl member
      ]
  where
    group_ids : List String
    group_ids = all_items (λ q. q.group_ids) ps

    by_groups :
        (o : Option (List ContactGroup))
        → db.groups ≡ o
        → contains (members_found group_ids o) id ≡ true
        → (p : NotificationPolicy) × In p ps × Lists db p id
    by_groups none e i = cc
    by_groups (some groups) e i =
        let (g, stored, listed, has) = contains-members_of_group group_ids groups id i in
        let (p, at, named) = contains-all_items_of (λ q. q.group_ids) ps g.id listed in
        (p, at, in_group groups g e stored named has)
