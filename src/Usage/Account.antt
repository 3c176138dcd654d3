-- ===== src/Usage/Account.antt =====
-- Recording and requeueing: no serve is lost without being counted as dropped, and the buffer
-- keeps its limit.
use recallum_mcp.Prelude.{
  ℕ, ◌+◌, ◌≤◌, ◌≡◌, refl, inl, inr, ◌&&◌, Option, none, some, List, [], ◌∷◌, length, sum_of, All,
  Bool-cases, leb, if◌then◌else◌, arith,
}
use recallum_mcp.Usage.{
  Key, Delta, Entries, UsageBuffer, same_key, get, put, join, is_none, at_if, weight, total,
  accumulate, accumulate_all, wake_if_full, record_recall, record_context,
}
use recallum_mcp.Usage.Dict.{
  HasDistinctKeys, Other, weight_of, total-put, length-put, put-HasDistinctKeys, same_key-eq,
  same_key_comm,
}

-- The pending dictionary has distinct keys and no more entries than the limit.
pub record IsValid (b : UsageBuffer) : Type 0 where
  pub distinct : HasDistinctKeys b.pending
  pub bounded : length b.pending ≤ b.buffer_limit

-- The serves that the buffer holds or has dropped.
abbrev pub held : UsageBuffer → ℕ
held b = total b.pending + b.dropped

-- What recording leaves as it was.
pub record KeepsRest (b c : UsageBuffer) : Type 0 where
  pub batch_size : c.batch_size ≡ b.batch_size
  pub buffer_limit : c.buffer_limit ≡ b.buffer_limit
  pub inflight : c.inflight ≡ b.inflight
  pub flush_failures : c.flush_failures ≡ b.flush_failures

module _ (b : UsageBuffer) (user memory recall context : ℕ) (at : Option ℕ)
    (one : recall + context ≡ 1) (v : IsValid b) where
  abbrev key : Key
  key = record { user = user; memory = memory }

  abbrev incoming : Delta
  incoming = record { recall_delta = recall; context_delta = context; served_at = at_if recall at }

  abbrev stored : Entries
  stored = put key (join (get key b.pending) incoming) b.pending

  accumulate-held : held (accumulate b user memory recall context at) ≡ held b + 1
  unfolding accumulate
  accumulate-held = ground (arith, total-put key incoming b.pending)

  accumulate-IsValid : IsValid (accumulate b user memory recall context at)
  unfolding accumulate
  accumulate-IsValid =
      elim (Bool-cases (is_none (get key b.pending) && leb b.buffer_limit (length b.pending))) [
        | inl full ↦ rw full (record { distinct = v.distinct; bounded = v.bounded })
        | inr room ↦ rw room (record {
          distinct = put-HasDistinctKeys key _ b.pending v.distinct;
          bounded =
              ground
                (arith, v.bounded, length-put key (join (get key b.pending) incoming) b.pending);
        })
      ]

  accumulate-KeepsRest : KeepsRest b (accumulate b user memory recall context at)
  unfolding accumulate
  accumulate-KeepsRest = ground arith

-- What recording a list of identifiers does to a valid buffer.
pub record IsRecorded (b : UsageBuffer) (ids : List ℕ) (c : UsageBuffer) : Type 0 where
  pub valid : IsValid c
  pub counted : held c ≡ held b + length ids
  pub rest : KeepsRest b c

module _ (user : ℕ) (recall context : ℕ) (at : Option ℕ) (one : recall + context ≡ 1) where
  KeepsRest-trans : (b c d : UsageBuffer) → KeepsRest b c → KeepsRest c d → KeepsRest b d
  KeepsRest-trans b c d h k = ground arith

  accumulate_all-IsRecorded :
      (b : UsageBuffer) (ids : List ℕ)
      → IsValid b
      → IsRecorded b ids (accumulate_all b user ids recall context at)
  unfolding accumulate_all
  accumulate_all-IsRecorded b [] v = record {
    valid = v;
    counted = omega arith;
    rest = ground arith;
  }
  accumulate_all-IsRecorded b (memory ∷ ids) v =
      let c = accumulate b user memory recall context at in
      let r =
        accumulate_all-IsRecorded c ids
          (accumulate-IsValid b user memory recall context at one v) in
      record {
        valid = r.valid;
        counted = omega (arith, r.counted, accumulate-held b user memory recall context at one v);
        rest =
            KeepsRest-trans b c _ (accumulate-KeepsRest b user memory recall context at one v)
              r.rest;
      }

wake_if_full-IsRecorded :
    (b : UsageBuffer) (ids : List ℕ) (c : UsageBuffer)
    → IsRecorded b ids c
    → IsRecorded b ids (wake_if_full c)
unfolding wake_if_full
wake_if_full-IsRecorded b ids c r = elim (Bool-cases (leb c.batch_size (length c.pending))) [
  | inl e ↦ rw e (record {
    valid = record { distinct = r.valid.distinct; bounded = r.valid.bounded };
    counted = r.counted;
    rest = ground (arith, r.rest);
  })
  | inr e ↦ rw e r
]

-- A recorded serve is held or counted as dropped, never lost: recording recalls of `ids` raises the
-- sum of the pending counts and the dropped count by their number, and so does recording contexts;
-- the buffer stays valid, and no limit, nothing in flight and no failure count changes.
pub record-IsRecorded :
    (b : UsageBuffer) (user : ℕ) (ids : List ℕ) (at : ℕ)
    → IsValid b
    → IsRecorded b ids (record_recall b user ids at) × IsRecorded b ids (record_context b user ids)
unfolding record_recall record_context
record-IsRecorded b user [] at v =
    let same : IsRecorded b [] b = record {
      valid = v;
      counted = omega arith;
      rest = ground arith;
    } in
    (same, same)
record-IsRecorded b user (i ∷ ids) at v = (
  wake_if_full-IsRecorded b (i ∷ ids) _
      (accumulate_all-IsRecorded user 1 0 (some at) (omega arith) b (i ∷ ids) v),
  wake_if_full-IsRecorded b (i ∷ ids) _
      (accumulate_all-IsRecorded user 0 1 none (omega arith) b (i ∷ ids) v),
)

-- The weight that a list of entries stores under the keys of another.
unfoldable pub shared : Entries → Entries → ℕ
shared failed = sum_of (λ e. weight_of (get e.0 failed))

shared-cons-absent :
    (k : Key) (d : Delta) (failed pending : Entries)
    → All (Other k) pending
    → shared ((k, d) ∷ failed) pending ≡ shared failed pending
unfolding shared get
shared-cons-absent k d failed [] a = refl
shared-cons-absent k d failed ((j, c) ∷ pending) (p, a) =
    ground (arith, same_key_comm j k, shared-cons-absent k d failed pending a)

-- One more failed entry is shared once if its key is pending, and is new to the failed ones.
pub shared-cons :
    (k : Key) (d : Delta) (failed pending : Entries)
    → HasDistinctKeys pending
    → get k failed ≡ none
    → shared ((k, d) ∷ failed) pending
      ≡ (if is_none (get k pending) then 0 else weight d) + shared failed pending
unfolding shared get
shared-cons k d failed [] h n = omega arith
shared-cons k d failed ((j, c) ∷ pending) (a, h) n = elim (Bool-cases (same_key j k)) [
  | inl e ↦
      let q = same_key-eq j k e in
      let here : All (Other k) pending = rw (← q) a in
      let gone : get j failed ≡ none = rw q n in
      ground (arith, same_key_comm j k, gone, shared-cons-absent k d failed pending here)
  | inr e ↦ ground (arith, same_key_comm j k, shared-cons k d failed pending h n)
]
