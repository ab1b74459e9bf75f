-- ===== src/Realtime/Tests.antt =====
-- internal/realtime: a run of the hub.
use alertmesh_new.Prelude.{ℕ, ◌≤◌, String, some, [], ◌∷◌, ◌≡◌, refl, length}
use alertmesh_new.Realtime.Hub.{
  Hub, Heap, Subscriber, send_buffer_size, new_hub, subscribe, broadcast, subscribes, ReachHub,
  at_start, then_step,
}
use alertmesh_new.Realtime.Hub.Safe.{broadcast-Reach}

abbrev with_one : Hub
with_one = subscribe 7 ("incidents" ∷ []) new_hub

reach_one : ReachHub with_one
unfolding new_hub
reach_one = then_step at_start (subscribes 7 ("incidents" ∷ []) refl)

broadcast-Reach_example :
    ((topic payload : String) → (heap : Heap) × (broadcast topic payload with_one ≡ some heap))
    × ((i : ℕ) (s : Subscriber)
        → with_one.subscribers i ≡ some s
        → length s.send ≤ send_buffer_size)
broadcast-Reach_example = broadcast-Reach with_one reach_one
