-- ===== src/Usage/Examples.antt =====
-- Tests and instances of the usage counters.
use recallum_mcp.Prelude.{ℕ, ◌≡◌, refl, ◌+◌, ◌==◌, Bool, false, none, [], ◌∷◌, mem, arith}
use recallum_mcp.Usage.{
  Key, Delta, Entries, Rows, UsageBuffer, get, put, pop, merge, accumulate, accumulate_all,
  wake_if_full, record_recall, record_context, flush_take, flush_user_take, add_row, group_from,
  pop_rows, apply_groups, apply, merged_entries, requeue, finish, flush, flush_user, total,
}
use recallum_mcp.Usage.Dict.{HasDistinctKeys}
use recallum_mcp.Usage.Account.{IsValid, IsRecorded, record-IsRecorded}
use recallum_mcp.Usage.Requeue.{IsRequeued, requeue-IsRequeued}
use recallum_mcp.Usage.Apply.{sent, left, apply-accounts}
use recallum_mcp.Usage.System.{System, here, next, take_all, IsAccounted}
use recallum_mcp.Usage.Conserved.{Reach-IsAccounted}
use recallum_mcp.Usage.Overlap.{finish-releases}

abbrev empty : UsageBuffer
empty = record {
  batch_size = 2;
  buffer_limit = 3;
  pending = [];
  wake = false;
  inflight = [];
  dropped = 0;
  flush_failures = 0;
}

program : Unit {0}
unfolding get put pop merge accumulate accumulate_all wake_if_full record_recall record_context
    flush_take flush_user_take add_row group_from pop_rows apply_groups apply merged_entries requeue
    finish flush flush_user
program = tt

abbrev entry : ℕ → ℕ → ℕ → ℕ → Key × Delta
entry user memory recall context = (
  record { user = user; memory = memory },
  record { recall_delta = recall; context_delta = context; served_at = none },
)

-- The fourth key is dropped, and the batch size wakes the worker.
four_keys :
    (record_context empty 1 (1 ∷ 2 ∷ 1 ∷ 3 ∷ 4 ∷ [])).pending
    ≡ entry 1 1 0 2 ∷ entry 1 2 0 1 ∷ entry 1 3 0 1 ∷ []
unfolding program
four_keys = refl

abbrev two_users : UsageBuffer
two_users = record empty { pending = entry 1 7 1 0 ∷ entry 2 7 0 2 ∷ entry 1 8 1 0 ∷ [] }

-- The repository takes user 1 and refuses user 2.
abbrev only_first : ℕ → Rows → Bool
only_first user rows = user == 1

partial_flush :
    ((flush only_first two_users).0.pending ≡ entry 2 7 0 2 ∷ [])
    × ((flush only_first two_users).1 ≡ false)
    × ((flush only_first two_users).0.flush_failures ≡ 1)
    × ((flush_user only_first two_users 1).0.pending ≡ entry 2 7 0 2 ∷ [])
unfolding program
partial_flush = (refl, refl, refl, refl)

empty-IsValid : IsValid empty
empty-IsValid = omega arith

two_users-IsValid : IsValid two_users
two_users-IsValid = record {
  distinct = ((refl, (refl, tt)), ((refl, tt), (tt, tt)));
  bounded = omega arith;
}

record-IsRecorded_sample :
    IsRecorded two_users (7 ∷ 9 ∷ []) (record_recall two_users 1 (7 ∷ 9 ∷ []) 50)
    × IsRecorded two_users (7 ∷ 9 ∷ []) (record_context two_users 1 (7 ∷ 9 ∷ []))
record-IsRecorded_sample = record-IsRecorded two_users 1 (7 ∷ 9 ∷ []) 50 two_users-IsValid

abbrev failed : Entries
failed = entry 1 7 1 0 ∷ entry 3 3 0 4 ∷ []

requeue-IsRequeued_sample : IsRequeued two_users failed (requeue two_users failed)
requeue-IsRequeued_sample =
    requeue-IsRequeued two_users failed two_users-IsValid ((refl, tt), (tt, tt))

apply-accounts_sample :
    (sent only_first (group_from [] two_users.pending)
        + total (left (apply only_first two_users.pending))
      ≡ total two_users.pending)
    × HasDistinctKeys (left (apply only_first two_users.pending))
apply-accounts_sample = apply-accounts only_first two_users.pending two_users-IsValid.distinct

-- A system that recorded four serves, all pending.
abbrev begun : System
begun = record { buffer = two_users; flights = []; recorded = 4; applied = 0 }

abbrev flown : System
flown = record begun {
  buffer = record two_users { pending = []; inflight = 2 ∷ 1 ∷ [] };
  flights = record { users = 2 ∷ 1 ∷ []; batch = two_users.pending } ∷ [];
}

Reach-IsAccounted_example : IsAccounted flown
unfolding program
Reach-IsAccounted_example =
    Reach-IsAccounted {s = begun}
      (record { valid = two_users-IsValid; distinct = tt; accounted = refl })
      (next here (take_all two_users.pending _ refl refl))

finish-releases_sample :
    (mem 1 (finish flown.buffer (1 ∷ []) none).0.inflight ≡ false)
    × (flush_user_take (finish flown.buffer (1 ∷ []) none).0 1 ≡ none)
finish-releases_sample = finish-releases flown.buffer (1 ∷ []) 1 refl refl
