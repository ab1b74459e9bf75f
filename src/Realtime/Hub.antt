-- ===== src/Realtime/Hub.antt =====
-- internal/realtime/hub.go: the topics, their subscribers, and the channels to the connections.
--
-- A subscriber is known by a number, as by its pointer, and a map is a function. What a channel holds is
-- a list. A step is what happens under the mutex, one use of a channel, or the closing of one:
-- `unsubscribe` is `leave` and then `close_send`.
pub mod Members
pub mod Safe
use alertmesh_new.Prelude.{
  ℕ, suc, String, Bool, true, false, not, Option, none, some, List, [], ◌∷◌, ◌++◌, ◌≡◌, ◌==◌, ltb,
  length, str_eq, if◌then◌else◌,
}

-- `left` is between the two halves of `unsubscribe`.
pub data Phase : Type 0 where
  joined : Phase
  left : Phase
  closed : Phase

pub record Subscriber : Type 0 where
  pub send : List String
  pub topics : List String
  pub phase : Phase

abbrev pub send_buffer_size : ℕ
send_buffer_size = 32

abbrev pub Index : Type 0
Index = String → Option (List ℕ)

abbrev pub Heap : Type 0
Heap = ℕ → Option Subscriber

pub record Hub : Type 0 where
  pub topics : Index
  pub subscribers : Heap

unfoldable pub new_hub : Hub
new_hub = record { topics = λ t. none; subscribers = λ i. none }

abbrev pub set_topic : String → Option (List ℕ) → Index → Index
set_topic t set table u = if str_eq t u then set else table u

abbrev pub set_subscriber : ℕ → Subscriber → Heap → Heap
set_subscriber i s heap j = if i == j then some s else heap j

abbrev pub has_member : List ℕ → ℕ → Bool
has_member [] i = false
has_member (j ∷ set) i = if j == i then true else has_member set i

-- A missing topic has no members.
abbrev pub members : Option (List ℕ) → List ℕ
members none = []
members (some set) = set

abbrev pub add_member : ℕ → List ℕ → List ℕ
add_member i set = if has_member set i then set else i ∷ set

unfoldable pub drop_member : ℕ → List ℕ → List ℕ
drop_member i [] = []
drop_member i (j ∷ set) = let rest = drop_member i set in if j == i then rest else j ∷ rest

-- The loop of `Subscribe`.
unfoldable pub index_topics : ℕ → List String → Index → Index
index_topics i [] table = table
index_topics i (t ∷ ts) table =
    index_topics i ts (set_topic t (some (add_member i (members (table t)))) table)

abbrev pub or_gone : List ℕ → Option (List ℕ)
or_gone [] = none
or_gone (i ∷ set) = some (i ∷ set)

-- The loop of `unsubscribe`: a topic without members is deleted.
unfoldable pub drop_topics : ℕ → List String → Index → Index
unfolding drop_member
drop_topics i [] table = table
drop_topics i (t ∷ ts) table =
    drop_topics i ts (set_topic t (or_gone (drop_member i (members (table t)))) table)

unfoldable pub subscribe : ℕ → List String → Hub → Hub
unfolding index_topics
subscribe i topics hub = record {
  topics = index_topics i topics hub.topics;
  subscribers =
      set_subscriber i (record { send = []; topics = topics; phase = joined }) hub.subscribers;
}

unfoldable pub leave : ℕ → Subscriber → Hub → Hub
unfolding drop_topics
leave i s hub = record {
  topics = drop_topics i s.topics hub.topics;
  subscribers = set_subscriber i (record s { phase = left }) hub.subscribers;
}

unfoldable pub close_send : ℕ → Subscriber → Hub → Hub
close_send i s hub = record hub {
  subscribers = set_subscriber i (record s { phase = closed }) hub.subscribers;
}

-- A full buffer drops the event.
abbrev pub enqueue : String → Subscriber → Subscriber
enqueue payload s =
    if ltb (length s.send) send_buffer_size then record s { send = s.send ++ payload ∷ [] } else s

-- `sub.send <- payload` in a select with a default; `none` is the panic of a send on a closed channel.
unfoldable pub offer_to : Phase → ℕ → String → Subscriber → Heap → Option Heap
offer_to joined i payload s heap = some (set_subscriber i (enqueue payload s) heap)
offer_to left i payload s heap = some (set_subscriber i (enqueue payload s) heap)
offer_to closed i payload s heap = none

unfoldable pub offer : ℕ → String → Option Subscriber → Heap → Option Heap
unfolding offer_to
offer i payload none heap = some heap
offer i payload (some s) heap = offer_to s.phase i payload s heap

unfoldable pub offer_all : List ℕ → String → Heap → Option Heap
unfolding offer
offer_all [] payload heap = some heap
offer_all (i ∷ set) payload heap = elim (offer i payload (heap i) heap) [
  | none ↦ none
  | some next ↦ offer_all set payload next
]

-- `Broadcast`, down to the heap that it leaves.
unfoldable pub broadcast : String → String → Hub → Option Heap
unfolding offer_all
broadcast topic payload hub = offer_all (members (hub.topics topic)) payload hub.subscribers

-- `SubscriberCount`
unfoldable pub subscriber_count : String → Hub → ℕ
subscriber_count topic hub = length (members (hub.topics topic))

abbrev pub tail_of : List String → List String
tail_of [] = []
tail_of (x ∷ xs) = xs

-- The receive of `writePump`.
unfoldable pub receive : ℕ → Subscriber → Hub → Hub
receive i s hub = record hub {
  subscribers = set_subscriber i (record s { send = tail_of s.send }) hub.subscribers;
}

-- What may happen. `Subscribe` makes a new subscriber, and `Run` calls `unsubscribe` once.
pub data HubStep : Hub → Hub → Type 0 where
  subscribes :
      {h : Hub} (i : ℕ) (topics : List String)
      → h.subscribers i ≡ none
      → HubStep h (subscribe i topics h)
  leaves :
      {h : Hub} (i : ℕ) (s : Subscriber)
      → h.subscribers i ≡ some s
      → s.phase ≡ joined
      → HubStep h (leave i s h)
  closes :
      {h : Hub} (i : ℕ) (s : Subscriber)
      → h.subscribers i ≡ some s
      → s.phase ≡ left
      → HubStep h (close_send i s h)
  broadcasts :
      {h : Hub} (topic payload : String) (heap : Heap)
      → broadcast topic payload h ≡ some heap
      → HubStep h (record h { subscribers = heap })
  receives :
      {h : Hub} (i : ℕ) (s : Subscriber) → h.subscribers i ≡ some s → HubStep h (receive i s h)

pub data ReachHub : Hub → Type 0 where
  at_start : ReachHub new_hub
  then_step : {h g : Hub} → ReachHub h → HubStep h g → ReachHub g
