-- ===== src/Rebuild/Worker.antt =====
-- The worker's loop, while other tasks call `enqueue`.
use Prim.Native.String.{String}
use recallum_mcp.Prelude.{
  ℕ, zero, suc, ◌+◌, ◌≤◌, ◌<◌, ◌≡◌, ◌∙◌, ap, sym, inl, inr, refl, Bool, true, false, ◌||◌, Option,
  some, List, [], ◌∷◌, ◌++◌, min, take, drop, length, length-append, length-take, length-drop,
  Bool-cases, List-cases, arith,
}
use recallum_mcp.Rebuild.{
  ProfileKey, RebuildQueue, has, take_batch, group_keys, enqueue_calls, Round, next_round,
  later_rounds, LoopEnd, emptied, raised, index_error, out_of_fuel, drain_groups, flush_result,
  flush, drain_loop,
}
use recallum_mcp.Rebuild.Accepted.{IsCoalesced, Accepts, has-join, nothing-Accepts, then-Accepts}
use recallum_mcp.Rebuild.Enqueue.{asked, enqueue-Accepts}
use recallum_mcp.Rebuild.Drain.{take_batch-IsCoalesced}

-- The keys that calls ask for.
abbrev pub asked_in : List (ℕ × List (Option String)) → List ProfileKey
asked_in [] = []
asked_in ((user, projects) ∷ calls) = asked user projects ++ asked_in calls

abbrev pub asked_round : Round → List ProfileKey
asked_round w = asked_in w.waiting ++ asked_in w.draining

abbrev pub asked_of : List Round → List ProfileKey
asked_of [] = []
asked_of (w ∷ rounds) = asked_round w ++ asked_of rounds

enqueue_calls-Accepts :
    (calls : List (ℕ × List (Option String))) (q : RebuildQueue)
    → IsCoalesced q
    → (r : RebuildQueue) × (enqueue_calls calls q ≡ some r) × Accepts (asked_in calls) q r
unfolding enqueue_calls
enqueue_calls-Accepts [] q v = (q, refl, nothing-Accepts q v)
enqueue_calls-Accepts ((user, projects) ∷ calls) q v =
    let (r, e, a) = enqueue-Accepts q user projects v in
    let (s, f, b) = enqueue_calls-Accepts calls r a.coalesced in
    (s, ground (arith, e, f), then-Accepts (asked user projects) (asked_in calls) q r s a b)

-- What is pending after calls was pending or asked for; and calls leave something pending.
pending-Accepts :
    (keys : List ProfileKey) (q r : RebuildQueue)
    → Accepts keys q r
    → (k : ProfileKey) → has k r.pending ≡ true
    → has k (q.pending ++ keys) ≡ true
pending-Accepts keys q r a k h =
    let flow : has k (q.pending ++ a.added) ≡ has k (a.dropped ++ r.pending) = ap (has k) a.flow in
    ground (
      arith,
      h,
      flow,
      a.wanted k,
      has-join k q.pending a.added,
      has-join k a.dropped r.pending,
      has-join k q.pending keys,
    )

length-Accepts :
    (keys : List ProfileKey) (q r : RebuildQueue)
    → Accepts keys q r
    → 1 ≤ length q.pending
    → (1 ≤ length r.pending) × (length r.pending ≤ length q.pending + length keys)
length-Accepts keys q r a h =
    let flow : length (q.pending ++ a.added) ≡ length (a.dropped ++ r.pending) = ap length a.flow in
    let less : length r.pending ≤ length q.pending + length keys =
      omega
        (arith, flow, a.few, length-append q.pending a.added, length-append a.dropped r.pending) in
    elim a.full [
      | inl e ↦ (
        omega
            (arith, e, h, flow, length-append q.pending a.added, length-append a.dropped r.pending),
        less,
      )
      | inr e ↦ (omega (arith, e, a.coalesced.positive, a.settings.buffer_limit), less)
    ]

more-Accepts :
    (keys : List ProfileKey) (q r : RebuildQueue)
    → Accepts keys q r
    → length r.pending ≤ length q.pending + length keys
more-Accepts keys q r a =
    let flow : length (q.pending ++ a.added) ≡ length (a.dropped ++ r.pending) = ap length a.flow in
    omega (arith, flow, a.few, length-append q.pending a.added, length-append a.dropped r.pending)

has-take :
    (n : ℕ) (k : ProfileKey) (keys : List ProfileKey)
    → has k keys ≡ (has k (take n keys) || has k (drop n keys))
has-take zero k keys = refl
has-take (suc n) k [] = refl
has-take (suc n) k (x ∷ keys) = ground (arith, has-take n k keys)

length-take_batch :
    (q : RebuildQueue)
    → 1 ≤ q.batch_size
    → 1 ≤ length q.pending
    → (1 ≤ length (take_batch q).0) × (suc (length (take_batch q).1.pending) ≤ length q.pending)
unfolding take_batch
length-take_batch q b h =
    let n = min (length q.pending) q.batch_size in
    let n_positive : 1 ≤ n = ground (arith, b, h) in
    let rest = length-drop (min (length q.pending) q.batch_size) q.pending in
    let batch = length-take (min (length q.pending) q.batch_size) q.pending in
    (ground (arith, b, h, batch), ground (arith, b, h, rest))

next-asked :
    (rounds : List Round)
    → asked_of rounds ≡ asked_round (next_round rounds) ++ asked_of (later_rounds rounds)
next-asked [] = refl
next-asked (w ∷ rounds) = refl

module _ (drains : ℕ → List (Option String) → Bool) where
  -- A flush returned, with a batch of keys that were pending or asked for, and there is less to do.
  record IsFlushed (w : Round) (q : RebuildQueue) : Type 0 where
    batch : List ProfileKey
    succeeded : Bool
    after : RebuildQueue
    returns : flush drains w q ≡ some (batch, (succeeded, after))
    result : (bound : Bool) × (succeeded ≡ flush_result drains bound batch)
    coalesced : IsCoalesced after
    batch_size : after.batch_size ≡ q.batch_size
    nonempty : 1 ≤ length batch
    shorter : suc (length after.pending) ≤ length q.pending + length (asked_round w)
    batched : (k : ProfileKey) → has k batch ≡ true → has k (q.pending ++ asked_round w) ≡ true
    remains :
        (k : ProfileKey) → has k after.pending ≡ true → has k (q.pending ++ asked_round w) ≡ true

  flush-IsFlushed :
      (w : Round) (q : RebuildQueue)
      → IsCoalesced q
      → 1 ≤ q.batch_size
      → 1 ≤ length q.pending
      → IsFlushed w q
  unfolding flush take_batch
  flush-IsFlushed w q v b h =
      let (before, e, a) = enqueue_calls-Accepts w.waiting q v in
      let batch = (take_batch before).0 in
      let left = (take_batch before).1 in
      let (after, f, c) =
        enqueue_calls-Accepts w.draining (take_batch before).1
          (take_batch-IsCoalesced before a.coalesced) in
      let (some_left, most) = length-Accepts (asked_in w.waiting) q before a h in
      let (full, less) =
        length-take_batch before (omega (arith, b, a.settings.batch_size)) some_left in
      let more = more-Accepts (asked_in w.draining) (take_batch before).1 after c in
      let source : (k : ProfileKey)
          → has k before.pending ≡ true
          → has k (q.pending ++ asked_round w) ≡ true =
        λ k g. ground (
          arith,
          pending-Accepts (asked_in w.waiting) q before a k g,
          has-join k q.pending (asked_in w.waiting),
          has-join k q.pending (asked_round w),
          has-join k (asked_in w.waiting) (asked_in w.draining),
        ) in
      record {
        batch = (take_batch before).0;
        succeeded = flush_result drains before.bound (take_batch before).0;
        after = after;
        returns = ground (arith, e, f);
        result = (before.bound, refl);
        coalesced = c.coalesced;
        batch_size = c.settings.batch_size ∙ a.settings.batch_size;
        nonempty = full;
        shorter =
            omega
              (arith, most, less, more, length-append (asked_in w.waiting) (asked_in w.draining));
        batched = λ k g. source k (
            ground (
              arith,
              g,
              has-take (min (length before.pending) before.batch_size) k before.pending,
            ));
        remains = λ k g.
            let come = pending-Accepts (asked_in w.draining) (take_batch before).1 after c k g in
            ground (
              arith,
              come,
              source k,
              has-take (min (length before.pending) before.batch_size) k before.pending,
              has-join k (take_batch before).1.pending (asked_in w.draining),
              has-join k q.pending (asked_round w),
              has-join k (asked_in w.waiting) (asked_in w.draining),
            );
      }

  -- How the loop ended, where the keys that were pending or asked for are known.
  abbrev pub IsEnd : List ProfileKey → LoopEnd → RebuildQueue → Type 0
  IsEnd known emptied r = r.pending ≡ []
  IsEnd known (raised batch) r =
      (drain_groups drains (group_keys [] batch) ≡ false)
      × (1 ≤ length batch)
      × ((k : ProfileKey) → has k batch ≡ true → has k known ≡ true)
  IsEnd known index_error r = ⊥
  IsEnd known out_of_fuel r = ⊥

  abbrev pub Ends : List ProfileKey → LoopEnd × RebuildQueue → Type 0
  Ends known (end, r) = IsCoalesced r × IsEnd known end r

  known-Ends :
      (known more : List ProfileKey) (o : LoopEnd × RebuildQueue)
      → ((k : ProfileKey) → has k known ≡ true → has k more ≡ true)
      → Ends known o
      → Ends more o
  known-Ends known more (emptied, r) h e = e
  known-Ends known more (raised batch, r) h (c, (f, n, g)) = (c, (f, n, λ k b. h k (g k b)))
  known-Ends known more (index_error, r) h e = e
  known-Ends known more (out_of_fuel, r) h e = e

  drain_loop-done :
      (fuel : ℕ) (rounds : List Round) (q : RebuildQueue)
      → q.pending ≡ []
      → drain_loop drains (suc fuel) rounds q ≡ (emptied, q)
  unfolding drain_loop
  drain_loop-done fuel rounds q e = ground (arith, e)

  drain_loop-step :
      (fuel : ℕ) (rounds : List Round) (q : RebuildQueue) (k : ProfileKey) (rest : List ProfileKey)
      (s : IsFlushed (next_round rounds) q)
      → q.pending ≡ k ∷ rest
      → drain_loop drains (suc fuel) rounds q ≡ (elim s.succeeded [
        | true ↦ drain_loop drains fuel (later_rounds rounds) s.after
        | false ↦ (raised s.batch, s.after)
      ])
  unfolding drain_loop
  drain_loop-step fuel rounds q k rest s e = ground (arith, e, s.returns)

  raised-groups :
      (bound : Bool) (batch : List ProfileKey)
      → flush_result drains bound batch ≡ false
      → drain_groups drains (group_keys [] batch) ≡ false
  raised-groups bound [] h = absurd (ground (arith, h))
  raised-groups true (k ∷ rest) h = h
  raised-groups false (k ∷ rest) h = absurd (ground (arith, h))

  -- Whatever calls other tasks make while it awaits, with more fuel than keys are pending or asked for
  -- by them and a positive batch size, the worker's loop ends, and leaves the queue coalesced; nothing
  -- is then pending, or the drain raised for a batch of keys that were pending or asked for.
  pub drain_loop-Ends :
      (fuel : ℕ) (rounds : List Round) (q : RebuildQueue)
      → IsCoalesced q
      → 1 ≤ q.batch_size
      → length q.pending + length (asked_of rounds) < fuel
      → Ends (q.pending ++ asked_of rounds) (drain_loop drains fuel rounds q)
  drain_loop-Ends zero rounds q v b f = absurd (omega arith)
  drain_loop-Ends (suc fuel) rounds q v b f = elim (List-cases q.pending) [
    | inl e ↦ rw (drain_loop-done fuel rounds q e) (v, e)
    | inr (k, rest, e) ↦
        let one : length q.pending ≡ suc (length rest) = ap length e in
        let s = flush-IsFlushed (next_round rounds) q v b (omega (arith, one)) in
        let now = asked_round (next_round rounds) in
        let later = asked_of (later_rounds rounds) in
        let split = next-asked rounds in
        let known : (j : ProfileKey)
            → has j (q.pending ++ asked_of rounds) ≡ (
                has j (q.pending ++ asked_round (next_round rounds))
                || has j (asked_of (later_rounds rounds))) =
          λ j. ground (
            arith,
            ap (has j) split,
            has-join j q.pending (asked_of rounds),
            has-join j q.pending (asked_round (next_round rounds)),
            has-join j (asked_round (next_round rounds)) (asked_of (later_rounds rounds)),
          ) in
        elim (Bool-cases s.succeeded) [
          | inl h ↦
              let enough : length s.after.pending + length (asked_of (later_rounds rounds)) < fuel =
                omega (
                  arith,
                  f,
                  s.shorter,
                  ap length split,
                  length-append (asked_round (next_round rounds)) (asked_of (later_rounds rounds)),
                ) in
              let rest_of =
                drain_loop-Ends fuel (later_rounds rounds) s.after s.coalesced
                  (omega (arith, b, s.batch_size)) enough in
              rw (drain_loop-step fuel rounds q k rest s e, h)
                (known-Ends (s.after.pending ++ asked_of (later_rounds rounds))
                  (q.pending ++ asked_of rounds)
                  (drain_loop drains fuel (later_rounds rounds) s.after)
                  (λ j g. ground (
                    arith,
                    g,
                    known j,
                    s.remains j,
                    has-join j s.after.pending (asked_of (later_rounds rounds)),
                  ))
                  rest_of)
          | inr h ↦
              let (bound, r) = s.result in
              rw (drain_loop-step fuel rounds q k rest s e, h)
                (
                  s.coalesced,
                  (
                    raised-groups bound s.batch (sym r ∙ h),
                    s.nonempty,
                    λ j g. ground (arith, known j, s.batched j g),
                  ),
                )
        ]
  ]
