-- ===== src/Rebuild/Accepted.antt =====
-- The invariant of the queue, and the account of what comes in and what is dropped.
use recallum_mcp.Prelude.{
  ℕ, ◌+◌, ◌≤◌, ◌≡◌, ◌∙◌, sym, ap, ◌⊎◌, inl, inr, refl, true, ◌||◌, List, [], ◌∷◌, ◌++◌, length,
  length-append, AllPairs, arith,
}
use mathlib.Core.List.{append-nil, append_assoc}
use recallum_mcp.Rebuild.{ProfileKey, RebuildQueue, has, new_queue}
use recallum_mcp.Rebuild.Keys.{Apart}

-- The set holds the keys of the deque, no key is there twice, and the deque is within its limit.
pub record IsCoalesced (q : RebuildQueue) : Type 0 where
  pub agree : (k : ProfileKey) → has k q.queued ≡ has k q.pending
  pub distinct : AllPairs Apart q.pending
  pub bounded : length q.pending ≤ q.buffer_limit
  pub positive : 1 ≤ q.buffer_limit

pub new_queue-IsCoalesced :
    (batch_size buffer_limit : ℕ)
    → 1 ≤ buffer_limit
    → IsCoalesced (new_queue batch_size buffer_limit)
unfolding new_queue
new_queue-IsCoalesced batch_size buffer_limit h = record {
  agree = λ k. refl;
  distinct = tt;
  bounded = omega arith;
  positive = h;
}

-- The settings of a queue, which no operation changes.
pub record SameSettings (q r : RebuildQueue) : Type 0 where
  pub batch_size : r.batch_size ≡ q.batch_size
  pub buffer_limit : r.buffer_limit ≡ q.buffer_limit
  pub bound : r.bound ≡ q.bound

-- From q to r the keys that were added went to the end of the deque, and the keys that were dropped left
-- from its front and were counted; only keys asked for are added, and no more than were asked for; each
-- of them was in the deque or is added; and keys are dropped only where the deque is full in the end.
pub record Accepts (keys : List ProfileKey) (q r : RebuildQueue) : Type 0 where
  pub coalesced : IsCoalesced r
  pub settings : SameSettings q r
  pub added : List ProfileKey
  pub dropped : List ProfileKey
  pub flow : q.pending ++ added ≡ dropped ++ r.pending
  pub counted : r.dropped_keys ≡ q.dropped_keys + length dropped
  pub wanted : (k : ProfileKey) → has k added ≡ true → has k keys ≡ true
  pub reached : (k : ProfileKey) → has k keys ≡ true → has k (q.pending ++ added) ≡ true
  pub few : length added ≤ length keys
  pub full : (length dropped ≡ 0) ⊎ (length r.pending ≡ q.buffer_limit)

pub has-join :
    (k : ProfileKey) (xs ys : List ProfileKey) → has k (xs ++ ys) ≡ (has k xs || has k ys)
has-join k [] ys = refl
has-join k (x ∷ xs) ys = ground (arith, has-join k xs ys)

pub nothing-Accepts : (q : RebuildQueue) → IsCoalesced q → Accepts [] q q
nothing-Accepts q v = record {
  coalesced = v;
  settings = record { batch_size = refl; buffer_limit = refl; bound = refl };
  added = [];
  dropped = [];
  flow = append-nil q.pending;
  counted = omega arith;
  wanted = λ k h. h;
  reached = λ k h. absurd (ground (arith, h));
  few = omega arith;
  full = inl refl;
}

-- The two accounts, one after the other.
both_flows :
    (p a b c d q r : List ProfileKey)
    → p ++ a ≡ c ++ q
    → q ++ b ≡ d ++ r
    → p ++ (a ++ b) ≡ (c ++ d) ++ r
both_flows p a b c d q r h k =
    sym (append_assoc p a b)
    ∙ ap (λ (l : List ProfileKey). l ++ b) h
    ∙ append_assoc c q b
    ∙ ap (◌++◌ c) k
    ∙ sym (append_assoc c d r)

both_full :
    (ks js : List ProfileKey) (p q r : RebuildQueue) (a : Accepts ks p q) (b : Accepts js q r)
    → (length (a.dropped ++ b.dropped) ≡ 0) ⊎ (length r.pending ≡ p.buffer_limit)
both_full ks js p q r a b = elim b.full [
  | inr y ↦ inr (y ∙ a.settings.buffer_limit)
  | inl y ↦ elim a.full [
    | inl x ↦ inl (omega (arith, x, y, length-append a.dropped b.dropped))
    | inr x ↦
        let flow : length (q.pending ++ b.added) ≡ length (b.dropped ++ r.pending) =
          ap length b.flow in
        inr (
          omega (
            arith,
            x,
            y,
            flow,
            length-append q.pending b.added,
            length-append b.dropped r.pending,
            b.coalesced.bounded,
            a.settings.buffer_limit,
            b.settings.buffer_limit,
          ))
  ]
]

pub then-Accepts :
    (ks js : List ProfileKey) (p q r : RebuildQueue)
    → Accepts ks p q
    → Accepts js q r
    → Accepts (ks ++ js) p r
then-Accepts ks js p q r a b =
    let flow =
      both_flows p.pending a.added b.added a.dropped b.dropped q.pending r.pending a.flow b.flow in
    record {
      coalesced = b.coalesced;
      settings = record {
        batch_size = b.settings.batch_size ∙ a.settings.batch_size;
        buffer_limit = b.settings.buffer_limit ∙ a.settings.buffer_limit;
        bound = b.settings.bound ∙ a.settings.bound;
      };
      added = a.added ++ b.added;
      dropped = a.dropped ++ b.dropped;
      flow = flow;
      counted = omega (arith, a.counted, b.counted, length-append a.dropped b.dropped);
      wanted = λ k h.
          ground (arith, h, has-join k a.added b.added, has-join k ks js, a.wanted k, b.wanted k);
      reached = λ k h.
          let one : has k (p.pending ++ a.added) ≡ has k (a.dropped ++ q.pending) =
            ap (has k) a.flow in
          ground (
            arith,
            h,
            one,
            has-join k ks js,
            has-join k p.pending a.added,
            has-join k p.pending (a.added ++ b.added),
            has-join k a.added b.added,
            has-join k a.dropped q.pending,
            has-join k q.pending b.added,
            a.reached k,
            b.reached k,
          );
      few = omega (arith, a.few, b.few, length-append a.added b.added, length-append ks js);
      full = both_full ks js p q r a b;
    }
