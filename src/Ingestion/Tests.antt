-- ===== src/Ingestion/Tests.antt =====
-- Runs of the partition tracker, and its theorems at concrete calls.
use alertmesh_new.Prelude.{ℕ, List, [], ◌∷◌, ◌≡◌, refl, All, arith}
use alertmesh_new.Ingestion.Tracker.{Message, bucket_get, bucket_delete, drain, ack, new_tracker}
use alertmesh_new.Ingestion.Tracker.Commit.{
  Call, acked, after, offsets_of, IsCommittable, drain-after-IsCommittable, first_ack_skips,
}

abbrev at : ℕ → ℕ → Message
at p n = record { partition = p; offset = n; payload = "" }

-- Offset 12 waits for 11; partition 1 is on its own. The last call comes first.
abbrev out_of_order : List Call
out_of_order = acked (at 0 11) ∷ acked (at 1 3) ∷ acked (at 0 12) ∷ acked (at 0 10) ∷ []

drain_run : (drain (0 ∷ 1 ∷ []) (after out_of_order)).1 ≡ at 0 12 ∷ at 1 3 ∷ []
unfolding drain after ack new_tracker bucket_get bucket_delete
drain_run = refl

drain-after-IsCommittable_example :
    All
      (λ m. IsCommittable (offsets_of m.partition out_of_order) m.offset)
      (drain (0 ∷ 1 ∷ []) (after out_of_order)).1
drain-after-IsCommittable_example = drain-after-IsCommittable out_of_order (0 ∷ 1 ∷ [])

first_ack_skips_example : (drain (0 ∷ []) (after (acked (at 0 100) ∷ []))).1 ≡ at 0 100 ∷ []
first_ack_skips_example = (first_ack_skips (at 0 100) (at 0 99) 0 refl refl (omega arith)).0
