-- ===== src/Realtime/Hub/Safe.antt =====
-- internal/realtime/hub.go: no send on a closed channel, and bounded buffers.
use alertmesh_new.Prelude.{
  ℕ, ◌≤◌, ◌<◌, String, Bool, true, false, not, Option, none, some, List, [], ◌∷◌, ◌++◌, ◌≡◌, refl,
  sym, ap, ◌∙◌, subst, arith, ◌==◌, ◌&&◌, ◌||◌, ltb, ltb→lt, length, length-append, if◌then◌else◌,
  contains,
}
use mathlib.Core.Option.{some-injective}
use alertmesh_new.Realtime.Hub.{
  joined, left, closed, Subscriber, send_buffer_size, Heap, Hub, new_hub, set_subscriber,
  has_member, members, subscribe, leave, close_send, enqueue, offer_to, offer, offer_all, broadcast,
  tail_of, receive, HubStep, subscribes, leaves, closes, broadcasts, receives, ReachHub, at_start,
  then_step,
}
use alertmesh_new.Realtime.Hub.Members.{has_member-index_topics, has_member-drop_topics}

-- A subscriber that has joined, with the topic among its own.
abbrev IsMember : String → Option Subscriber → Type 0
IsMember t o = (s : Subscriber) × (o ≡ some s) × (s.phase ≡ joined) × (contains s.topics t ≡ true)

abbrev IsBounded : Option Subscriber → Type 0
IsBounded o = (s : Subscriber) → o ≡ some s → length s.send ≤ send_buffer_size

abbrev IsSafe : Hub → Type 0
IsSafe h =
    ((t : String) (j : ℕ)
      → has_member (members (h.topics t)) j ≡ true
      → IsMember t (h.subscribers j))
    × ((j : ℕ) → IsBounded (h.subscribers j))

set_subscriber-at :
    (P : Option Subscriber → Type 0) (i j : ℕ) (s : Subscriber) (heap : Heap)
    → ((i ≡ j) → (i == j) ≡ true → P (some s))
    → ((i == j) ≡ false → P (heap j))
    → P (set_subscriber i s heap j)
set_subscriber-at P i j s heap here there = by_id (i == j) refl
  where
    same : (i == j) ≡ true → i ≡ j
    same e = ground (arith, e)

    by_id : (b : Bool) → (i == j) ≡ b → P (if b then some s else heap j)
    by_id true e = here (same e) e
    by_id false e = there e

set-IsBounded :
    (i j : ℕ) (s : Subscriber) (heap : Heap)
    → length s.send ≤ send_buffer_size
    → IsBounded (heap j)
    → IsBounded (set_subscriber i s heap j)
set-IsBounded i j s heap new old =
    set_subscriber-at IsBounded i j s heap
      (λ e b u h. subst (λ x. length x.send ≤ send_buffer_size) (some-injective s u h) new)
      (λ b. old)

-- A member of a topic and the entry that its number has are the same subscriber.
IsMember-at :
    (t : String) (o : Option Subscriber) (s : Subscriber)
    → IsMember t o
    → o ≡ some s
    → (s.phase ≡ joined) × (contains s.topics t ≡ true)
IsMember-at t o s m e =
    let same = some-injective m.0 s (sym m.1 ∙ e) in
    (ap (λ x. x.phase) (sym same) ∙ m.2, ap (λ x. contains x.topics t) (sym same) ∙ m.3)

no_member : (t : String) → IsMember t none → ⊥
no_member t m = ground (arith, m.1)

was_listed : (m e c : Bool) → (m || (e && c)) ≡ true → e ≡ false → m ≡ true
was_listed m e c h n = ground arith

is_listed : (m e c : Bool) → (m || (e && c)) ≡ true → (m ≡ true → ⊥) → c ≡ true
is_listed true e c h n = absurd (n refl)
is_listed false e c h n = ground arith

still_listed : (m e c : Bool) → (m && not (e && c)) ≡ true → m ≡ true
still_listed m e c h = ground arith

not_dropped : (m e c : Bool) → (m && not (e && c)) ≡ true → e ≡ true → c ≡ true → ⊥
not_dropped m e c h x y = ground arith

subscribe-IsSafe :
    (h : Hub) (i : ℕ) (topics : List String)
    → h.subscribers i ≡ none
    → IsSafe h
    → IsSafe (subscribe i topics h)
unfolding subscribe
subscribe-IsSafe h i topics fresh safe = (
  λ t j has.
      let q = sym (has_member-index_topics i j topics h.topics t) ∙ has in
      set_subscriber-at (IsMember t) i j (record { send = []; topics = topics; phase = joined })
        h.subscribers
        (λ e b. (
          record { send = []; topics = topics; phase = joined },
          refl,
          refl,
          is_listed (has_member (members (h.topics t)) j) (i == j) (contains topics t) q (λ old.
              no_member t (subst (IsMember t) (ap h.subscribers (sym e) ∙ fresh) (safe.0 t j old))),
        ))
        (λ b.
          safe.0 t j
            (was_listed (has_member (members (h.topics t)) j) (i == j) (contains topics t) q b)),
  λ j.
      set-IsBounded i j (record { send = []; topics = topics; phase = joined }) h.subscribers
        (omega arith) (safe.1 j),
)

leave-IsSafe :
    (h : Hub) (i : ℕ) (s : Subscriber) → h.subscribers i ≡ some s → IsSafe h → IsSafe (leave i s h)
unfolding leave
leave-IsSafe h i s e safe = (
  λ t j has.
      let q = sym (has_member-drop_topics i j s.topics h.topics t) ∙ has in
      let old =
        safe.0 t j
          (still_listed (has_member (members (h.topics t)) j) (i == j) (contains s.topics t) q) in
      set_subscriber-at (IsMember t) i j (record s { phase = left }) h.subscribers
        (λ same b. absurd (
          not_dropped (has_member (members (h.topics t)) j) (i == j) (contains s.topics t) q b
            (IsMember-at t (h.subscribers j) s old (ap h.subscribers (sym same) ∙ e)).1))
        (λ b. old),
  λ j. set-IsBounded i j (record s { phase = left }) h.subscribers (safe.1 i s e) (safe.1 j),
)

-- A change of a subscriber that leaves the topics alone.
change-IsSafe :
    (h : Hub) (i : ℕ) (s new : Subscriber)
    → h.subscribers i ≡ some s
    → length new.send ≤ send_buffer_size
    → (s.phase ≡ joined → new.phase ≡ joined)
    → new.topics ≡ s.topics
    → IsSafe h
    → IsSafe (record h { subscribers = set_subscriber i new h.subscribers })
change-IsSafe h i s new e short phase topics safe = (
  λ t j has.
      let old = safe.0 t j has in
      set_subscriber-at (IsMember t) i j new h.subscribers
        (λ same b.
          let m = IsMember-at t (h.subscribers j) s old (ap h.subscribers (sym same) ∙ e) in
          (new, refl, phase m.0, ap (λ l. contains l t) topics ∙ m.1))
        (λ b. old),
  λ j. set-IsBounded i j new h.subscribers short (safe.1 j),
)

close_send-IsSafe :
    (h : Hub) (i : ℕ) (s : Subscriber)
    → h.subscribers i ≡ some s
    → s.phase ≡ left
    → IsSafe h
    → IsSafe (close_send i s h)
unfolding close_send
close_send-IsSafe h i s e gone safe =
    change-IsSafe h i s (record s { phase = closed }) e (safe.1 i s e)
      (λ on. absurd (not_both (sym gone ∙ on))) refl safe
  where
    not_both : left ≡ joined → ⊥
    not_both q = ground (arith, q)

receive-IsSafe :
    (h : Hub) (i : ℕ) (s : Subscriber)
    → h.subscribers i ≡ some s
    → IsSafe h
    → IsSafe (receive i s h)
unfolding receive
receive-IsSafe h i s e safe =
    change-IsSafe h i s (record s { send = tail_of s.send }) e (shorter s.send (safe.1 i s e))
      (λ on. on) refl safe
  where
    shorter :
        (l : List String) → length l ≤ send_buffer_size → length (tail_of l) ≤ send_buffer_size
    shorter [] b = b
    shorter (x ∷ l) b = omega (arith, b)

enqueue-IsSafe :
    (h : Hub) (i : ℕ) (s : Subscriber) (payload : String)
    → h.subscribers i ≡ some s
    → IsSafe h
    → IsSafe (record h { subscribers = set_subscriber i (enqueue payload s) h.subscribers })
enqueue-IsSafe h i s payload e safe = by_room (ltb (length s.send) send_buffer_size) refl
  where
    added : Subscriber
    added = record s { send = s.send ++ payload ∷ [] }

    fits : length s.send < send_buffer_size → length (s.send ++ payload ∷ []) ≤ send_buffer_size
    fits room = omega (arith, room, length-append s.send (payload ∷ []))

    by_room :
        (b : Bool)
        → ltb (length s.send) send_buffer_size ≡ b
        → IsSafe
            (record h { subscribers = set_subscriber i (if b then added else s) h.subscribers })
    by_room true room =
        change-IsSafe h i s added e (fits (ltb→lt (length s.send) send_buffer_size room)) (λ on. on)
          refl safe
    by_room false full = change-IsSafe h i s s e (safe.1 i s e) (λ on. on) refl safe

offer-member :
    (i : ℕ) (payload t : String) (heap : Heap) (m : IsMember t (heap i))
    → offer i payload (heap i) heap ≡ some (set_subscriber i (enqueue payload m.0) heap)
unfolding offer offer_to
offer-member i payload t heap m =
    ap (λ o. offer i payload o heap) m.1 ∙ ap (λ p. offer_to p i payload m.0 heap) m.2

offer_all-IsSafe :
    (h : Hub) (t payload : String) (set : List ℕ)
    → ((j : ℕ) → has_member set j ≡ true → has_member (members (h.topics t)) j ≡ true)
    → IsSafe h
    → (heap : Heap) × (offer_all set payload h.subscribers ≡ some heap)
      × IsSafe (record h { subscribers = heap })
unfolding offer_all
offer_all-IsSafe h t payload [] within safe = (h.subscribers, refl, safe)
offer_all-IsSafe h t payload (i ∷ set) within safe =
    let m = safe.0 t i (within i (own i)) in
    let next = set_subscriber i (enqueue payload m.0) h.subscribers in
    let rest =
      offer_all-IsSafe (record h { subscribers = next }) t payload set
        (λ j has. within j (later i j has)) (enqueue-IsSafe h i m.0 payload m.1 safe) in
    (
      rest.0,
      subst
          (λ (o : Option Heap).
            elim o [ none ↦ none | some n ↦ offer_all set payload n ] ≡ some rest.0)
          (sym (offer-member i payload t h.subscribers m)) rest.1,
      rest.2,
    )
  where
    own : (k : ℕ) → has_member (k ∷ set) k ≡ true
    own k = ground arith

    later : (k j : ℕ) → has_member set j ≡ true → has_member (k ∷ set) j ≡ true
    later k j has = ground arith

broadcast-IsSafe :
    (h : Hub) (t payload : String)
    → IsSafe h
    → (heap : Heap) × (broadcast t payload h ≡ some heap) × IsSafe (record h { subscribers = heap })
unfolding broadcast
broadcast-IsSafe h t payload safe =
    offer_all-IsSafe h t payload (members (h.topics t)) (λ j has. has) safe

step-IsSafe : {h g : Hub} → HubStep h g → IsSafe h → IsSafe g
step-IsSafe (subscribes {h = h} i topics fresh) safe = subscribe-IsSafe h i topics fresh safe
step-IsSafe (leaves {h = h} i s e on) safe = leave-IsSafe h i s e safe
step-IsSafe (closes {h = h} i s e gone) safe = close_send-IsSafe h i s e gone safe
step-IsSafe (broadcasts {h = h} t payload heap e) safe =
    let b = broadcast-IsSafe h t payload safe in
    subst (λ x. IsSafe (record h { subscribers = x })) (some-injective b.0 heap (sym b.1 ∙ e)) b.2
step-IsSafe (receives {h = h} i s e) safe = receive-IsSafe h i s e safe

reach-IsSafe : {h : Hub} → ReachHub h → IsSafe h
unfolding new_hub
reach-IsSafe at_start = (λ t j has. ground (arith, has), λ j s e. ground (arith, e))
reach-IsSafe (then_step r step) = step-IsSafe step (reach-IsSafe r)

-- However subscribing, the two halves of unsubscribing, broadcasts and receives follow one another, a
-- broadcast never sends on a closed channel, and no buffer holds more than 32 events.
pub broadcast-Reach :
    (h : Hub)
    → ReachHub h
    → ((topic payload : String) → (heap : Heap) × (broadcast topic payload h ≡ some heap))
      × ((i : ℕ) (s : Subscriber) → h.subscribers i ≡ some s → length s.send ≤ send_buffer_size)
broadcast-Reach h r =
    let safe = reach-IsSafe r in
    (λ topic payload. let b = broadcast-IsSafe h topic payload safe in (b.0, b.1), safe.1)
