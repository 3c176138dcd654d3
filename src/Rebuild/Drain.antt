-- ===== src/Rebuild/Drain.antt =====
-- What a flush takes from the queue.
use Prim.Native.String.{String}
use recallum_mcp.Prelude.{
  ℕ, zero, suc, ◌≡◌, ◌∙◌, ap, sym, Option, List, [], ◌∷◌, ◌++◌, min, take, drop, length,
  length-drop, AllPairs, ◌==◌, if◌then◌else◌, arith,
}
use mathlib.Core.List.{append-nil, append_assoc}
use recallum_mcp.Rebuild.{
  ProfileKey, RebuildQueue, has, discard, discard_all, take_batch, add_project, group_keys,
}
use recallum_mcp.Rebuild.Keys.{Apart, has-discard, has-absent}
use recallum_mcp.Rebuild.Accepted.{IsCoalesced}

discard_all-take :
    (n : ℕ) (pending queued : List ProfileKey)
    → AllPairs Apart pending
    → ((k : ProfileKey) → has k queued ≡ has k pending)
    → (k : ProfileKey) → has k (discard_all (take n pending) queued) ≡ has k (drop n pending)
discard_all-take zero pending queued d a k = a k
discard_all-take (suc n) [] queued d a k = a k
discard_all-take (suc n) (x ∷ pending) queued (p, d) a k =
    discard_all-take n pending (discard x queued) d
      (λ j. ground (arith, has-discard j x queued, has-absent j x pending p, a j)) k

drop-Apart : (n : ℕ) (keys : List ProfileKey) → AllPairs Apart keys → AllPairs Apart (drop n keys)
drop-Apart zero keys d = d
drop-Apart (suc n) [] d = tt
drop-Apart (suc n) (k ∷ keys) (p, d) = drop-Apart n keys d

pub take_batch-IsCoalesced : (q : RebuildQueue) → IsCoalesced q → IsCoalesced (take_batch q).1
unfolding take_batch
take_batch-IsCoalesced q v =
    let n = min (length q.pending) q.batch_size in
    record {
      agree = discard_all-take n q.pending q.queued v.distinct v.agree;
      distinct = drop-Apart n q.pending v.distinct;
      bounded = ground (arith, length-drop n q.pending, v.bounded);
      positive = v.positive;
    }

-- The projects of a user among keys, and among groups.
abbrev pub projects_of : ℕ → List ProfileKey → List (Option String)
projects_of user [] = []
projects_of user (k ∷ keys) =
    if k.user_id == user then k.project ∷ projects_of user keys else projects_of user keys

abbrev pub grouped_for : ℕ → List (ℕ × List (Option String)) → List (Option String)
grouped_for user [] = []
grouped_for user ((u, projects) ∷ groups) = if u == user then projects else grouped_for user groups

grouped_for-add_project :
    (user : ℕ) (k : ProfileKey) (groups : List (ℕ × List (Option String)))
    → grouped_for user (add_project k groups) ≡ grouped_for user groups ++ projects_of user (k ∷ [])
unfolding add_project
grouped_for-add_project user k [] = ground arith
grouped_for-add_project user k ((u, projects) ∷ groups) = ground (
  arith,
  grouped_for-add_project user k groups,
  append-nil projects,
  append-nil (grouped_for user groups),
)

grouped_for-from :
    (user : ℕ) (groups : List (ℕ × List (Option String))) (batch : List ProfileKey)
    → grouped_for user (group_keys groups batch) ≡ grouped_for user groups ++ projects_of user batch
unfolding group_keys
grouped_for-from user groups [] = sym (append-nil (grouped_for user groups))
grouped_for-from user groups (k ∷ batch) =
    grouped_for-from user (add_project k groups) batch
    ∙ ap (λ (l : List (Option String)). l ++ projects_of user batch)
        (grouped_for-add_project user k groups)
    ∙ append_assoc (grouped_for user groups) (projects_of user (k ∷ [])) (projects_of user batch)
    ∙ ap (◌++◌ (grouped_for user groups)) (one k batch)
  where
    one :
        (j : ProfileKey) (keys : List ProfileKey)
        → projects_of user (j ∷ []) ++ projects_of user keys ≡ projects_of user (j ∷ keys)
    one j keys = ground arith

-- The drain is called for each user with the projects of the user's keys in the batch, in order.
pub grouped_for-group_keys :
    (user : ℕ) (batch : List ProfileKey)
    → grouped_for user (group_keys [] batch) ≡ projects_of user batch
grouped_for-group_keys user batch = grouped_for-from user [] batch
