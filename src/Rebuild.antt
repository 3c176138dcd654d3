-- ===== src/Rebuild.antt =====
-- The profile-rebuild queue of memory/profile_rebuild.py. The set `_queued` is a list; `none` is the
-- IndexError of `popleft` on an empty deque. The drain is an argument that tells for each user and
-- projects whether it returns (true) or raises (false). A locked part is one step; the calls that other
-- tasks make between the steps of a flush are arguments of it.
use Prim.Native.String.{String}
use recallum_mcp.Prelude.{
  ℕ, zero, suc, ◌+◌, Bool, true, false, not, ◌&&◌, ◌||◌, Option, none, some, List, [], ◌∷◌, ◌++◌,
  map, length, take, drop, keep, leb, ◌==◌, min, if◌then◌else◌,
}
use recallum_mcp.Visibility.{same_project}
pub mod Keys
pub mod Accepted
pub mod Enqueue
pub mod Drain
pub mod Worker
mod Examples

pub record ProfileKey : Type 0 where
  pub user_id : ℕ
  pub project : Option String

unfoldable pub same_key : ProfileKey → ProfileKey → Bool
same_key j k = j.user_id == k.user_id && same_project j.project k.project

-- `k in keys` and `keys.discard(k)`
abbrev pub has : ProfileKey → List ProfileKey → Bool
has k [] = false
has k (j ∷ keys) = same_key j k || has k keys

abbrev pub discard : ProfileKey → List ProfileKey → List ProfileKey
discard k = keep (λ j. not (same_key j k))

pub record RebuildQueue : Type 0 where
  pub batch_size : ℕ
  pub buffer_limit : ℕ
  pub bound : Bool
  pub pending : List ProfileKey
  pub queued : List ProfileKey
  pub wake : Bool
  pub dropped_keys : ℕ

-- `__init__`, with no drain attached yet.
unfoldable pub new_queue : ℕ → ℕ → RebuildQueue
new_queue batch_size buffer_limit = record {
  batch_size = batch_size;
  buffer_limit = buffer_limit;
  bound = false;
  pending = [];
  queued = [];
  wake = false;
  dropped_keys = 0;
}

unfoldable pub bind : RebuildQueue → RebuildQueue
bind q = record q { bound = true }

-- The eviction of the oldest key where the queue is full.
unfoldable pub make_room : RebuildQueue → Option RebuildQueue
make_room q =
    if leb q.buffer_limit (length q.pending)
    then elim q.pending [
      | [] ↦ none
      | oldest ∷ rest ↦ some (record q {
        pending = rest;
        queued = discard oldest q.queued;
        dropped_keys = q.dropped_keys + 1;
      })
    ]
    else some q

abbrev pub append_key : ProfileKey → RebuildQueue → RebuildQueue
append_key k q = record q { pending = q.pending ++ k ∷ []; queued = k ∷ q.queued }

-- One round of `enqueue`; the Boolean is `added`.
unfoldable pub enqueue_one : RebuildQueue → ProfileKey → Bool → Option (RebuildQueue × Bool)
enqueue_one q k added =
    if has k q.queued
    then some (q, added)
    else elim (make_room q) [ none ↦ none | some room ↦ some (append_key k room, true) ]

unfoldable pub enqueue_all :
    RebuildQueue → ℕ → List (Option String) → Bool → Option (RebuildQueue × Bool)
enqueue_all q user [] added = some (q, added)
enqueue_all q user (project ∷ projects) added =
    elim (enqueue_one q (record { user_id = user; project = project }) added) [
      | none ↦ none
      | some (q', added') ↦ enqueue_all q' user projects added'
    ]

abbrev pub wake_if : RebuildQueue × Bool → RebuildQueue
wake_if (q, added) = if added then record q { wake = true } else q

unfoldable pub enqueue : RebuildQueue → ℕ → List (Option String) → Option RebuildQueue
enqueue q user projects = elim (enqueue_all q user projects false) [
  | none ↦ none
  | some r ↦ some (wake_if r)
]

abbrev pub discard_all : List ProfileKey → List ProfileKey → List ProfileKey
discard_all [] queued = queued
discard_all (k ∷ batch) queued = discard_all batch (discard k queued)

-- The locked part of `flush`: the batch, and the queue without it.
unfoldable pub take_batch : RebuildQueue → List ProfileKey × RebuildQueue
take_batch q =
    let n = min (length q.pending) q.batch_size in
    let batch = take n q.pending in
    (batch, record q { pending = drop n q.pending; queued = discard_all batch q.queued })

-- `by_user[item.user_id].append(item.project)`
unfoldable pub add_project :
    ProfileKey → List (ℕ × List (Option String)) → List (ℕ × List (Option String))
add_project k [] = (k.user_id, k.project ∷ []) ∷ []
add_project k ((u, projects) ∷ groups) =
    if u == k.user_id
    then (u, projects ++ k.project ∷ []) ∷ groups
    else (u, projects) ∷ add_project k groups

unfoldable pub group_keys :
    List (ℕ × List (Option String)) → List ProfileKey → List (ℕ × List (Option String))
group_keys groups [] = groups
group_keys groups (k ∷ batch) = group_keys (add_project k groups) batch

-- The calls of `enqueue` by other tasks, in order; `none` is an IndexError.
unfoldable pub enqueue_calls : List (ℕ × List (Option String)) → RebuildQueue → Option RebuildQueue
enqueue_calls [] q = some q
enqueue_calls ((user, projects) ∷ calls) q = elim (enqueue q user projects) [
  | none ↦ none
  | some r ↦ enqueue_calls calls r
]

-- The calls that run while a flush waits for the lock, and while it awaits the drain.
pub record Round : Type 0 where
  pub waiting : List (ℕ × List (Option String))
  pub draining : List (ℕ × List (Option String))

-- The calls of the first round, and the rounds after it; where there are no more no task calls.
abbrev pub next_round : List Round → Round
next_round [] = record { waiting = []; draining = [] }
next_round (w ∷ rounds) = w

abbrev pub later_rounds : List Round → List Round
later_rounds [] = []
later_rounds (w ∷ rounds) = rounds

-- How the worker's loop ends: with nothing pending, with a batch whose drain raised, with an IndexError
-- of another task, or with no fuel left.
pub data LoopEnd : Type 0 where
  emptied index_error out_of_fuel : LoopEnd
  raised : List ProfileKey → LoopEnd

module _ (drains : ℕ → List (Option String) → Bool) where
  unfoldable pub drain_groups : List (ℕ × List (Option String)) → Bool
  drain_groups [] = true
  drain_groups ((user, projects) ∷ groups) = drains user projects && drain_groups groups

  -- What `flush` returns for its batch.
  abbrev pub flush_result : Bool → List ProfileKey → Bool
  flush_result bound [] = true
  flush_result bound (k ∷ rest) = if bound then drain_groups (group_keys [] (k ∷ rest)) else true

  -- `flush`, with the calls of other tasks that run while it awaits: the batch, what it returns, and
  -- the queue in the end; or an IndexError of one of the calls.
  unfoldable pub flush : Round → RebuildQueue → Option (List ProfileKey × (Bool × RebuildQueue))
  flush w q = elim (enqueue_calls w.waiting q) [
    | none ↦ none
    | some before ↦ elim (enqueue_calls w.draining (take_batch before).1) [
      | none ↦ none
      | some after ↦
          some ((take_batch before).0, (flush_result before.bound (take_batch before).0, after))
    ]
  ]

  -- `while self._pending: …` of the worker, on fuel.
  unfoldable pub drain_loop : ℕ → List Round → RebuildQueue → LoopEnd × RebuildQueue
  drain_loop zero rounds q = (out_of_fuel, q)
  drain_loop (suc fuel) rounds q = elim q.pending [
    | [] ↦ (emptied, q)
    | k ∷ rest ↦ elim (flush (next_round rounds) q) [
      | none ↦ (index_error, q)
      | some (batch, (succeeded, after)) ↦ elim succeeded [
        | true ↦ drain_loop fuel (later_rounds rounds) after
        | false ↦ (raised batch, after)
      ]
    ]
  ]
