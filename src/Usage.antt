-- ===== src/Usage.antt =====
-- The deferred usage counters of memory/usage.py. A dictionary is the list of its entries in the
-- order of insertion; the set of users in flight is a list. What runs under the lock is one
-- function; the repository call between two of them is an argument, `applies user rows`, that
-- tells whether `apply_usage` returns (true) or raises (false).
use recallum_mcp.Prelude.{
  ℕ, suc, ◌+◌, ◌-◌, Bool, true, false, not, ◌&&◌, Option, none, some, List, [], ◌∷◌, ◌++◌, map,
  length, take, drop, keep, mem, sum_of, leb, ltb, ◌==◌, if◌then◌else◌,
}
pub mod Dict
pub mod Account
pub mod Requeue
pub mod Apply
pub mod System
pub mod Conserved
pub mod Overlap
mod Examples

pub record Key : Type 0 where
  pub user : ℕ
  pub memory : ℕ

abbrev pub same_key : Key → Key → Bool
same_key j k = j.user == k.user && j.memory == k.memory

pub record Delta : Type 0 where
  pub recall_delta : ℕ
  pub context_delta : ℕ
  pub served_at : Option ℕ

abbrev pub Entries : Type 0
Entries = List (Key × Delta)

-- `served` of `_merge`: the later instant.
abbrev pub later : Option ℕ → Option ℕ → Option ℕ
later left none = left
later none (some r) = some r
later (some l) (some r) = if ltb l r then some r else some l

unfoldable pub merge : Delta → Delta → Delta
merge left right = record {
  recall_delta = left.recall_delta + right.recall_delta;
  context_delta = left.context_delta + right.context_delta;
  served_at = later left.served_at right.served_at;
}

-- `d.get(key)`, `d[key] = value` and `d.pop(key, None)`
unfoldable pub get : Key → Entries → Option Delta
get k [] = none
get k ((j, d) ∷ rest) = if same_key j k then some d else get k rest

unfoldable pub put : Key → Delta → Entries → Entries
put k v [] = (k, v) ∷ []
put k v ((j, d) ∷ rest) = if same_key j k then (j, v) ∷ rest else (j, d) ∷ put k v rest

unfoldable pub pop : Key → Entries → Entries
pop k [] = []
pop k ((j, d) ∷ rest) = if same_key j k then rest else (j, d) ∷ pop k rest

pub record UsageBuffer : Type 0 where
  pub batch_size : ℕ
  pub buffer_limit : ℕ
  pub pending : Entries
  pub wake : Bool
  pub inflight : List ℕ
  pub dropped : ℕ
  pub flush_failures : ℕ

abbrev pub pending_count : UsageBuffer → ℕ
pending_count b = length b.pending

pub record UsageSnapshot : Type 0 where
  pub pending : ℕ
  pub dropped : ℕ
  pub flush_failures : ℕ

unfoldable pub snapshot : UsageBuffer → UsageSnapshot
snapshot b = record {
  pending = pending_count b;
  dropped = b.dropped;
  flush_failures = b.flush_failures;
}

-- `incoming if current is None else _merge(current, incoming)`
abbrev pub join : Option Delta → Delta → Delta
join none incoming = incoming
join (some current) incoming = merge current incoming

abbrev pub is_none : Option Delta → Bool
is_none none = true
is_none (some d) = false

-- `at if recall else None`
abbrev pub at_if : ℕ → Option ℕ → Option ℕ
at_if recall at = if recall == 0 then none else at

unfoldable pub accumulate : UsageBuffer → ℕ → ℕ → ℕ → ℕ → Option ℕ → UsageBuffer
accumulate b user memory recall context at =
    let key : Key = record { user = user; memory = memory } in
    let current = get key b.pending in
    if is_none current && leb b.buffer_limit (length b.pending)
    then record b { dropped = b.dropped + 1 }
    else record b {
      pending =
          put key
            (join current (record {
              recall_delta = recall;
              context_delta = context;
              served_at = at_if recall at;
            }))
            b.pending;
    }

unfoldable pub wake_if_full : UsageBuffer → UsageBuffer
wake_if_full b = if leb b.batch_size (length b.pending) then record b { wake = true } else b

-- The loop of `record_recall` and that of `record_context`.
unfoldable pub accumulate_all : UsageBuffer → ℕ → List ℕ → ℕ → ℕ → Option ℕ → UsageBuffer
accumulate_all b user [] recall context at = b
accumulate_all b user (memory ∷ ids) recall context at =
    accumulate_all (accumulate b user memory recall context at) user ids recall context at

unfoldable pub record_recall : UsageBuffer → ℕ → List ℕ → ℕ → UsageBuffer
record_recall b user [] at = b
record_recall b user (i ∷ ids) at = wake_if_full (accumulate_all b user (i ∷ ids) 1 0 (some at))

unfoldable pub record_context : UsageBuffer → ℕ → List ℕ → UsageBuffer
record_context b user [] = b
record_context b user (i ∷ ids) = wake_if_full (accumulate_all b user (i ∷ ids) 0 1 none)

-- Sets of users.
abbrev pub add_user : ℕ → List ℕ → List ℕ
add_user u users = if mem u users then users else u ∷ users

abbrev pub add_users : List ℕ → List ℕ → List ℕ
add_users [] users = users
add_users (u ∷ more) users = add_user u (add_users more users)

abbrev pub users_of : Entries → List ℕ
users_of batch = add_users (map (λ e. e.0.user) batch) []

abbrev pub without : List ℕ → List ℕ → List ℕ
without gone users = keep (λ u. not (mem u gone)) users

-- The locked part of `flush`, which takes the batch; `none` if nothing is pending.
unfoldable pub flush_take : UsageBuffer → Option (Entries × UsageBuffer)
flush_take b = elim b.pending [
  | [] ↦ none
  | e ∷ rest ↦
      some
        (e ∷ rest, record b { pending = []; inflight = add_users (users_of (e ∷ rest)) b.inflight })
]

abbrev pub of_user : ℕ → Key × Delta → Bool
of_user user e = e.0.user == user

-- The locked part of `flush_user` once `user` is not in flight.
unfoldable pub flush_user_take : UsageBuffer → ℕ → Option (Entries × UsageBuffer)
flush_user_take b user = elim (keep (of_user user) b.pending) [
  | [] ↦ none
  | e ∷ rest ↦ some (
    e ∷ rest,
    record b {
      pending = keep (λ e. not (of_user user e)) b.pending;
      inflight = add_user user b.inflight;
    },
  )
]

abbrev pub Rows : Type 0
Rows = List (ℕ × Delta)

-- `by_user.setdefault(user_id, []).append((memory_id, delta))`
unfoldable pub add_row : Key × Delta → List (ℕ × Rows) → List (ℕ × Rows)
add_row (k, d) [] = (k.user, (k.memory, d) ∷ []) ∷ []
add_row (k, d) ((u, rows) ∷ groups) =
    if u == k.user
    then (u, rows ++ (k.memory, d) ∷ []) ∷ groups
    else (u, rows) ∷ add_row (k, d) groups

unfoldable pub group_from : List (ℕ × Rows) → Entries → List (ℕ × Rows)
group_from groups [] = groups
group_from groups (e ∷ batch) = group_from (add_row e groups) batch

unfoldable pub pop_rows : ℕ → Rows → Entries → Entries
pop_rows user [] remaining = remaining
pop_rows user ((memory, d) ∷ rows) remaining =
    pop_rows user rows (pop (record { user = user; memory = memory }) remaining)

module _ (applies : ℕ → Rows → Bool) where
  -- The calls of `apply_usage`, a user at a time: `none` if all return, and otherwise what was not
  -- applied when one raised.
  unfoldable pub apply_groups : List (ℕ × Rows) → Entries → Option Entries
  apply_groups [] remaining = none
  apply_groups ((user, rows) ∷ groups) remaining =
      if applies user rows
      then apply_groups groups (pop_rows user rows remaining)
      else some remaining

  unfoldable pub apply : Entries → Option Entries
  apply batch = apply_groups (group_from [] batch) batch

-- The entries of `merged` in `_requeue`: the failed keys that are not pending, and the pending ones
-- with what failed before them.
unfoldable pub merged_entries : Entries → Entries → Entries
merged_entries failed pending =
    keep (λ e. is_none (get e.0 pending)) failed
    ++ map (λ e. (e.0, join (get e.0 failed) e.1)) pending

abbrev pub weight : Delta → ℕ
weight d = d.recall_delta + d.context_delta

abbrev pub total : Entries → ℕ
total = sum_of (λ e. weight e.1)

unfoldable pub requeue : UsageBuffer → Entries → UsageBuffer
requeue b failed =
    let all = merged_entries failed b.pending in
    let overflow = length all - b.buffer_limit in
    record b { pending = drop overflow all; dropped = b.dropped + total (take overflow all) }

unfoldable pub finish : UsageBuffer → List ℕ → Option Entries → UsageBuffer × Bool
finish b users none = (record b { inflight = without users b.inflight }, true)
finish b users (some failed) =
    let r = requeue (record b { flush_failures = b.flush_failures + 1 }) failed in
    (record r { inflight = without users r.inflight }, false)

-- The whole of `flush` and of `flush_user` where no other task runs in between.
module _ (applies : ℕ → Rows → Bool) where
  unfoldable pub flush : UsageBuffer → UsageBuffer × Bool
  flush b = elim (flush_take b) [
    | none ↦ (b, true)
    | some (batch, b') ↦ finish b' (users_of batch) (apply applies batch)
  ]

  unfoldable pub flush_user : UsageBuffer → ℕ → UsageBuffer × Bool
  flush_user b user = elim (flush_user_take b user) [
    | none ↦ (b, true)
    | some (batch, b') ↦ finish b' (user ∷ []) (apply applies batch)
  ]
