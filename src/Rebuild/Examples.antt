-- ===== src/Rebuild/Examples.antt =====
-- Tests and instances of the rebuild queue.
use Prim.Native.String.{String}
use recallum_mcp.Prelude.{
  ℕ, ◌≡◌, refl, Bool, true, ◌==◌, not, Option, none, some, List, [], ◌∷◌, ◌++◌, arith,
}
use recallum_mcp.Rebuild.{
  ProfileKey, RebuildQueue, new_queue, bind, enqueue, enqueue_all, enqueue_one, make_room, same_key,
  drain_loop, group_keys, Round, raised, flush, enqueue_calls, take_batch, drain_groups,
  add_project,
}
use recallum_mcp.Rebuild.Accepted.{IsCoalesced, Accepts, new_queue-IsCoalesced}
use recallum_mcp.Rebuild.Enqueue.{asked, enqueue-Accepts}
use recallum_mcp.Rebuild.Drain.{grouped_for, grouped_for-group_keys}
use recallum_mcp.Rebuild.Worker.{Ends, drain_loop-Ends}

abbrev small : RebuildQueue
unfolding new_queue
small = new_queue 2 2

abbrev key : ℕ → Option String → ProfileKey
key u p = record { user_id = u; project = p }

-- Two slots, three keys: the oldest is dropped.
abbrev full : RebuildQueue
full = record {
  batch_size = 2;
  buffer_limit = 2;
  bound = true;
  pending = key 1 (some "a") ∷ key 1 (some "b") ∷ [];
  queued = key 1 (some "b") ∷ key 1 (some "a") ∷ [];
  wake = true;
  dropped_keys = 1;
}

drops_oldest : enqueue (bind small) 1 (none ∷ some "a" ∷ none ∷ some "b" ∷ []) ≡ some full
unfolding new_queue bind enqueue enqueue_all enqueue_one make_room same_key
drops_oldest = refl

enqueue-Accepts_example :
    (r : RebuildQueue) × (enqueue small 1 (none ∷ some "a" ∷ some "b" ∷ []) ≡ some r)
    × Accepts (asked 1 (none ∷ some "a" ∷ some "b" ∷ [])) small r
unfolding new_queue
enqueue-Accepts_example =
    enqueue-Accepts small 1 (none ∷ some "a" ∷ some "b" ∷ [])
      (new_queue-IsCoalesced 2 2 (omega arith))

abbrev pending : List ProfileKey
pending = key 1 (some "a") ∷ key 2 none ∷ key 1 none ∷ []

grouped_for-group_keys_sample : grouped_for 1 (group_keys [] pending) ≡ some "a" ∷ none ∷ []
grouped_for-group_keys_sample = grouped_for-group_keys 1 pending

abbrev not_two : ℕ → List (Option String) → Bool
not_two user projects = not (user == 2)

full-IsCoalesced : IsCoalesced full
unfolding same_key
full-IsCoalesced = record {
  agree = λ k. ground arith;
  distinct = ((refl, tt), (tt, tt));
  bounded = omega arith;
  positive = omega arith;
}

-- While the first batch is drained, a key of it is asked for again, and a new one.
abbrev calls : List Round
calls =
    record { waiting = []; draining = (1, some "a" ∷ some "c" ∷ []) ∷ [] }
    ∷ record { waiting = (2, none ∷ []) ∷ []; draining = [] }
    ∷ []

drain_loop-Ends_example :
    Ends not_two
      (full.pending ++ key 1 (some "a") ∷ key 1 (some "c") ∷ key 2 none ∷ [])
      (drain_loop not_two 6 calls full)
drain_loop-Ends_example =
    drain_loop-Ends not_two 6 calls full full-IsCoalesced (omega arith) (omega arith)

-- The key of the second round drops the oldest one, and the drain of its user raises.
drain_raises : (drain_loop not_two 6 calls full).0 ≡ raised (key 1 (some "c") ∷ key 2 none ∷ [])
unfolding drain_loop flush enqueue_calls enqueue enqueue_all enqueue_one make_room same_key
    take_batch drain_groups group_keys add_project
drain_raises = refl
