-- ===== src/Usage/Conserved.antt =====
-- No interleaving of records and flushes loses a serve.
use recallum_mcp.Prelude.{
  ℕ, ◌+◌, ◌≡◌, ap, Bool, not, Option, none, some, List, [], ◌∷◌, ◌++◌, length, length-keep-le,
  sum_of-append, All, arith,
}
use recallum_mcp.Usage.{Entries, Rows, UsageBuffer, total, of_user, group_from, apply, finish}
use recallum_mcp.Usage.Dict.{HasDistinctKeys, keep-HasDistinctKeys}
use recallum_mcp.Usage.Account.{IsValid, held, record-IsRecorded}
use recallum_mcp.Usage.Requeue.{requeue-IsRequeued}
use recallum_mcp.Usage.Apply.{sent, left, apply-accounts}
use recallum_mcp.Usage.System.{
  Flight, System, Step, recall, context, take_all, take_user, come_back, Reach, here, next,
  in_flight, IsAccounted, flush_take-batch, flush_user_take-batch, split_total,
}

finish-held :
    (b : UsageBuffer) (users : List ℕ) (failed : Option Entries)
    → IsValid b
    → HasDistinctKeys (left failed)
    → (held (finish b users failed).0 ≡ held b + total (left failed))
      × IsValid (finish b users failed).0
unfolding finish
finish-held b users none v h = (omega arith, record { distinct = v.distinct; bounded = v.bounded })
finish-held b users (some failed) v h =
    let c : UsageBuffer = record b { flush_failures = b.flush_failures + 1 } in
    let w : IsValid c = record { distinct = v.distinct; bounded = v.bounded } in
    let r = requeue-IsRequeued c failed w h in
    (r.counted, record { distinct = r.valid.distinct; bounded = r.valid.bounded })

-- The flight between others.
All-middle :
    (P : Flight → Type 0) (before : List Flight) (f : Flight) (after : List Flight)
    → All P (before ++ f ∷ after)
    → P f × All P (before ++ after)
All-middle P [] f after (p, a) = (p, a)
All-middle P (g ∷ before) f after (q, a) =
    let (p, rest) = All-middle P before f after a in (p, (q, rest))

in_flight-middle :
    (before : List Flight) (f : Flight) (after : List Flight)
    → in_flight (before ++ f ∷ after) ≡ total f.batch + in_flight (before ++ after)
in_flight-middle before f after = omega (
  arith,
  sum_of-append (λ (g : Flight). total g.batch) before (f ∷ after),
  sum_of-append (λ (g : Flight). total g.batch) before after,
)

came_back :
    (s : System) (applies : ℕ → Rows → Bool) (before : List Flight) (f : Flight)
    (after : List Flight)
    → s.flights ≡ before ++ f ∷ after
    → IsAccounted s
    → IsAccounted (record s {
      buffer = (finish s.buffer f.users (apply applies f.batch)).0;
      flights = before ++ after;
      applied = s.applied + sent applies (group_from [] f.batch);
    })
came_back s applies before f after e a =
    let (mine, others) =
      All-middle (λ g. HasDistinctKeys g.batch) before f after (rw e at a.distinct) in
    let (sums, fine) = apply-accounts applies f.batch mine in
    let (back, valid) = finish-held s.buffer f.users (apply applies f.batch) a.valid fine in
    record {
      valid = valid;
      distinct = others;
      accounted =
          omega (arith, a.accounted, back, sums, in_flight-middle before f after, ap in_flight e);
    }

Step-IsAccounted : {s t : System} → Step s t → IsAccounted s → IsAccounted t
Step-IsAccounted {s} (recall user ids at e) a =
    let r = (record-IsRecorded s.buffer user ids at a.valid).0 in
    rw e (record {
      valid = r.valid;
      distinct = a.distinct;
      accounted = omega (arith, a.accounted, r.counted);
    })
Step-IsAccounted {s} (context user ids e) a =
    let r = (record-IsRecorded s.buffer user ids 0 a.valid).1 in
    rw e (record {
      valid = r.valid;
      distinct = a.distinct;
      accounted = omega (arith, a.accounted, r.counted);
    })
Step-IsAccounted {s} (take_all batch b took e) a =
    let (all, none_left, same) = flush_take-batch s.buffer b batch took in
    rw e (record {
      valid = record { distinct = rw none_left tt; bounded = rw none_left (omega arith) };
      distinct = (rw (← all) a.valid.distinct, a.distinct);
      accounted = omega (arith, a.accounted, ap total all, ap total none_left, same);
    })
Step-IsAccounted {s} (take_user user batch b free took e) a =
    let (mine, rest, same, limit) = flush_user_take-batch s.buffer b user batch took in
    rw e (record {
      valid = record {
        distinct = rw rest (keep-HasDistinctKeys _ s.buffer.pending a.valid.distinct);
        bounded = omega (
          arith,
          a.valid.bounded,
          limit,
          ap (λ (l : Entries). length l) rest,
          length-keep-le (λ e. not (of_user user e)) s.buffer.pending,
        );
      };
      distinct =
          (rw (← mine) (keep-HasDistinctKeys _ s.buffer.pending a.valid.distinct), a.distinct);
      accounted = omega (
        arith,
        a.accounted,
        ap total mine,
        ap total rest,
        same,
        split_total (of_user user) s.buffer.pending,
      );
    })
Step-IsAccounted {s} (come_back applies before f after e e') a =
    rw e' (came_back s applies before f after e a)

-- In every state that records, flushes and failing repository calls can reach from an accounted
-- one, in any order, every recorded serve is pending, in flight, applied or counted as dropped; and
-- the pending entries keep distinct keys and the buffer's limit.
pub Reach-IsAccounted : {s t : System} → IsAccounted s → Reach s t → IsAccounted t
Reach-IsAccounted a here = a
Reach-IsAccounted a (next r st) = Step-IsAccounted st (Reach-IsAccounted a r)
