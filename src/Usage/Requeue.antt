-- ===== src/Usage/Requeue.antt =====
-- What a failed flush puts back, and what is dropped of it.
use recallum_mcp.Prelude.{
  ◌+◌, ◌-◌, ◌≡◌, refl, ap, sym, ◌∙◌, inl, inr, true, Option, none, some, [], ◌∷◌, length, take,
  drop, keep, length-drop, sum_of-append, take-append-drop, All, Bool-cases, arith,
}
use recallum_mcp.Usage.{
  Delta, Entries, UsageBuffer, get, join, is_none, weight, total, merged_entries, requeue,
}
use recallum_mcp.Usage.Dict.{
  HasDistinctKeys, Other, weight-join, get-absent, get-none-Other, append-HasDistinctKeys, revalue,
  revalue-HasDistinctKeys, revalue-Other, drop-HasDistinctKeys, keep-HasDistinctKeys,
}
use recallum_mcp.Usage.Account.{IsValid, held, shared, shared-cons}

total-revalue :
    (failed pending : Entries)
    → total (revalue (λ e. join (get e.0 failed) e.1) pending)
      ≡ shared failed pending + total pending
unfolding shared
total-revalue failed [] = omega arith
total-revalue failed ((k, d) ∷ pending) =
    omega (arith, weight-join (get k failed) d, total-revalue failed pending)

shared-nil : (pending : Entries) → shared [] pending ≡ 0
unfolding shared get
shared-nil [] = refl
shared-nil (e ∷ pending) = omega (arith, shared-nil pending)

is_none-eq : (o : Option Delta) → is_none o ≡ true → o ≡ none
is_none-eq none h = refl
is_none-eq (some d) h = cc

total-keep-shared :
    (failed pending : Entries)
    → HasDistinctKeys failed
    → HasDistinctKeys pending
    → total (keep (λ e. is_none (get e.0 pending)) failed) + shared failed pending ≡ total failed
total-keep-shared [] pending h k = omega (arith, shared-nil pending)
total-keep-shared ((j, d) ∷ failed) pending (a, h) k = ground (
  arith,
  total-keep-shared failed pending h k,
  shared-cons j d failed pending k (get-absent j failed a),
)

module _ (failed pending : Entries) (h : HasDistinctKeys failed) (k : HasDistinctKeys pending) where
  total-merged_entries : total (merged_entries failed pending) ≡ total failed + total pending
  unfolding merged_entries
  total-merged_entries = omega (
    arith,
    sum_of-append (λ e. weight e.1) (keep (λ e. is_none (get e.0 pending)) failed)
        (revalue (λ e. join (get e.0 failed) e.1) pending),
    total-revalue failed pending,
    total-keep-shared failed pending h k,
  )

  merged_entries-HasDistinctKeys : HasDistinctKeys (merged_entries failed pending)
  unfolding merged_entries
  merged_entries-HasDistinctKeys =
      append-HasDistinctKeys _ _ (keep-HasDistinctKeys _ failed h)
        (revalue-HasDistinctKeys _ pending k) (apart failed)
    where
      apart :
          (l : Entries)
          → All
              (λ e. All (Other e.0) (revalue (λ e. join (get e.0 failed) e.1) pending))
              (keep (λ e. is_none (get e.0 pending)) l)
      apart [] = tt
      apart (e ∷ l) = elim (Bool-cases (is_none (get e.0 pending))) [
        | inl q ↦
            rw q
              (revalue-Other _ e.0 pending (get-none-Other e.0 pending (is_none-eq _ q)), apart l)
        | inr q ↦ rw q (apart l)
      ]

-- A buffer after a failed batch came back: it holds or has dropped all that it did before and all of
-- the batch, and is valid.
pub record IsRequeued (b : UsageBuffer) (failed : Entries) (c : UsageBuffer) : Type 0 where
  pub counted : held c ≡ held b + total failed
  pub valid : IsValid c
  pub buffer_limit : c.buffer_limit ≡ b.buffer_limit

module _ (b : UsageBuffer) (failed : Entries) (v : IsValid b) (h : HasDistinctKeys failed) where
  -- What a failed flush returns is merged with what came in since: every count is held again or
  -- counted as dropped, the keys stay distinct and the limit is kept.
  pub requeue-IsRequeued : IsRequeued b failed (requeue b failed)
  unfolding requeue
  requeue-IsRequeued =
      let all = merged_entries failed b.pending in
      let overflow = length all - b.buffer_limit in
      let parts : total (take overflow all) + total (drop overflow all) ≡ total all =
        sym (sum_of-append (λ e. weight e.1) (take overflow all) (drop overflow all))
        ∙ ap total (take-append-drop overflow all) in
      record {
        counted = omega (arith, parts, total-merged_entries failed b.pending h v.distinct);
        valid = record {
          distinct =
              drop-HasDistinctKeys overflow all
                (merged_entries-HasDistinctKeys failed b.pending h v.distinct);
          bounded = omega (arith, length-drop overflow all);
        };
        buffer_limit = refl;
      }
