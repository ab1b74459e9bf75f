-- ===== src/Realtime/Hub/Members.antt =====
-- internal/realtime/hub.go: the members of a topic after a change of the index.
use alertmesh_new.Prelude.{
  ℕ, String, Bool, true, false, not, some, List, [], ◌∷◌, ◌≡◌, refl, ap, ◌∙◌, arith, ◌==◌, ◌&&◌,
  ◌||◌, str_eq, eq_iff, if◌then◌else◌, contains,
}
use alertmesh_new.Realtime.Hub.{
  Index, set_topic, has_member, members, add_member, drop_member, index_topics, or_gone,
  drop_topics,
}

has_member-add_member :
    (i j : ℕ) (set : List ℕ) → has_member (add_member i set) j ≡ (has_member set j || (i == j))
has_member-add_member i j set = by_member (has_member set i) refl
  where
    by_member :
        (b : Bool)
        → has_member set i ≡ b
        → has_member (if b then set else i ∷ set) j ≡ (has_member set j || (i == j))
    by_member true e = ground (arith, e)
    by_member false e = ground arith

has_member-drop_member :
    (i j : ℕ) (set : List ℕ) → has_member (drop_member i set) j ≡ (has_member set j && not (i == j))
unfolding drop_member
has_member-drop_member i j [] = refl
has_member-drop_member i j (k ∷ set) = ground (arith, has_member-drop_member i j set)

members-or_gone : (l : List ℕ) → members (or_gone l) ≡ l
members-or_gone [] = refl
members-or_gone (i ∷ l) = refl

nothing_added : (m c : Bool) → m ≡ (m || (c && false))
nothing_added true c = refl
nothing_added false true = refl
nothing_added false false = refl

nothing_dropped : (m c : Bool) → m ≡ (m && not (c && false))
nothing_dropped true true = refl
nothing_dropped true false = refl
nothing_dropped false c = refl

added : (m c k : Bool) → ((m || c) || (c && k)) ≡ (m || (c && true))
added true c k = refl
added false true k = refl
added false false k = refl

removed : (m c k : Bool) → ((m && not c) && not (c && k)) ≡ (m && not (c && true))
removed true true k = refl
removed true false k = refl
removed false c k = refl

pub has_member-index_topics :
    (i j : ℕ) (ts : List String) (table : Index) (t : String)
    → has_member (members (index_topics i ts table t)) j
      ≡ (has_member (members (table t)) j || ((i == j) && contains ts t))
unfolding index_topics
has_member-index_topics i j [] table t = nothing_added (has_member (members (table t)) j) (i == j)
has_member-index_topics i j (u ∷ ts) table t =
    has_member-index_topics i j ts (set_topic u (some (add_member i (members (table u)))) table) t
    ∙ by_topic (str_eq u t) refl
  where
    by_topic :
        (b : Bool)
        → str_eq u t ≡ b
        → (has_member (members (if b then some (add_member i (members (table u))) else table t)) j
            || ((i == j) && contains ts t))
          ≡ (has_member (members (table t)) j || ((i == j) && (if b then true else contains ts t)))
    by_topic true e =
        ap (λ m. m || ((i == j) && contains ts t)) (has_member-add_member i j (members (table u)))
        ∙ ap (λ v. (has_member (members (table v)) j || (i == j)) || ((i == j) && contains ts t))
            ((eq_iff u t).0 e)
        ∙ added (has_member (members (table t)) j) (i == j) (contains ts t)
    by_topic false e = refl

pub has_member-drop_topics :
    (i j : ℕ) (ts : List String) (table : Index) (t : String)
    → has_member (members (drop_topics i ts table t)) j
      ≡ (has_member (members (table t)) j && not ((i == j) && contains ts t))
unfolding drop_topics
has_member-drop_topics i j [] table t = nothing_dropped (has_member (members (table t)) j) (i == j)
has_member-drop_topics i j (u ∷ ts) table t =
    has_member-drop_topics i j ts (set_topic u (or_gone (drop_member i (members (table u)))) table)
      t
    ∙ by_topic (str_eq u t) refl
  where
    by_topic :
        (b : Bool)
        → str_eq u t ≡ b
        → (has_member
              (members (if b then or_gone (drop_member i (members (table u))) else table t))
              j
            && not ((i == j) && contains ts t))
          ≡ (has_member (members (table t)) j
              && not ((i == j) && (if b then true else contains ts t)))
    by_topic true e =
        ap (λ l. has_member l j && not ((i == j) && contains ts t))
          (members-or_gone (drop_member i (members (table u))))
        ∙ ap (λ m. m && not ((i == j) && contains ts t))
            (has_member-drop_member i j (members (table u)))
        ∙ ap
            (λ v.
              (has_member (members (table v)) j && not (i == j)) && not ((i == j) && contains ts t))
            ((eq_iff u t).0 e)
        ∙ removed (has_member (members (table t)) j) (i == j) (contains ts t)
    by_topic false e = refl
