-- ===== src/Rebuild/Enqueue.antt =====
-- What `enqueue` keeps, adds and drops.
use Prim.Native.String.{String}
use recallum_mcp.Prelude.{
  ℕ, suc, ◌+◌, ◌≤◌, ◌<◌, ◌≡◌, ◌∙◌, ap, ◌⊎◌, inl, inr, refl, Bool, true, false, Option, some, List,
  [], ◌∷◌, ◌++◌, length, length-append, All, All-append, AllPairs, Bool-cases, List-cases, leb,
  arith,
}
use mathlib.Core.List.{append-nil, append_assoc}
use recallum_mcp.Rebuild.{
  ProfileKey, RebuildQueue, same_key, has, discard, make_room, append_key, enqueue_one, enqueue_all,
  wake_if, enqueue,
}
use recallum_mcp.Rebuild.Keys.{
  Apart, same_key_iff, has-append, has-discard, has-absent, absent-Apart,
}
use recallum_mcp.Rebuild.Accepted.{
  IsCoalesced, SameSettings, Accepts, has-join, nothing-Accepts, then-Accepts,
}

append-Apart :
    (k : ProfileKey) (keys : List ProfileKey)
    → AllPairs Apart keys
    → All (λ j. Apart j k) keys
    → AllPairs Apart (keys ++ k ∷ [])
append-Apart k [] h a = (tt, tt)
append-Apart k (j ∷ keys) (p, h) (q, a) =
    (All-append (Apart j) keys (k ∷ []) p (q, tt), append-Apart k keys h a)

append_key-IsCoalesced :
    (k : ProfileKey) (q : RebuildQueue)
    → IsCoalesced q
    → length q.pending < q.buffer_limit
    → has k q.pending ≡ false
    → IsCoalesced (append_key k q)
append_key-IsCoalesced k q v room h = record {
  agree = λ j. ground (arith, v.agree j, has-append j k q.pending);
  distinct = append-Apart k q.pending v.distinct (absent-Apart k q.pending h);
  bounded = omega (arith, length-append q.pending (k ∷ []));
  positive = v.positive;
}

-- A queue that can take a key, with what was dropped from the first one for it.
record HasRoom (q r : RebuildQueue) : Type 0 where
  coalesced : IsCoalesced r
  settings : SameSettings q r
  room : length r.pending < r.buffer_limit
  dropped : List ProfileKey
  flow : q.pending ≡ dropped ++ r.pending
  counted : r.dropped_keys ≡ q.dropped_keys + length dropped
  full : (length dropped ≡ 0) ⊎ (suc (length r.pending) ≡ q.buffer_limit)

evicted-HasRoom :
    (q : RebuildQueue) (oldest : ProfileKey) (rest : List ProfileKey)
    → IsCoalesced q
    → q.buffer_limit ≤ length q.pending
    → q.pending ≡ oldest ∷ rest
    → HasRoom q (record q {
      pending = rest;
      queued = discard oldest q.queued;
      dropped_keys = q.dropped_keys + 1;
    })
evicted-HasRoom q oldest rest v l e =
    let d : AllPairs Apart (oldest ∷ rest) = rw e at v.distinct in
    let b : suc (length rest) ≤ q.buffer_limit = rw e at v.bounded in
    let most : q.buffer_limit ≤ suc (length rest) = rw e at l in
    let a : (k : ProfileKey) → has k q.queued ≡ has k (oldest ∷ rest) = rw e at v.agree in
    record {
      coalesced = record {
        agree =
            λ k. ground (arith, has-discard k oldest q.queued, has-absent k oldest rest d.0, a k);
        distinct = d.1;
        bounded = omega arith;
        positive = v.positive;
      };
      settings = record { batch_size = refl; buffer_limit = refl; bound = refl };
      room = b;
      dropped = oldest ∷ [];
      flow = e;
      counted = refl;
      full = inr (omega (arith, b, most));
    }

-- A queue within a positive limit never pops from an empty deque.
make_room-HasRoom :
    (q : RebuildQueue) → IsCoalesced q → (r : RebuildQueue) × (make_room q ≡ some r) × HasRoom q r
unfolding make_room
make_room-HasRoom q v = elim (Bool-cases (leb q.buffer_limit (length q.pending))) [
  | inl h ↦ elim (List-cases q.pending) [
    | inl e ↦ let p : length q.pending ≡ 0 = ap length e in absurd (ground (arith, v.positive))
    | inr (oldest, rest, e) ↦
        (_, ground arith, evicted-HasRoom q oldest rest v (ground (arith, h)) e)
  ]
  | inr h ↦ rw h (
    q,
    refl,
    record {
      coalesced = v;
      settings = record { batch_size = refl; buffer_limit = refl; bound = refl };
      room = ground arith;
      dropped = [];
      flow = refl;
      counted = omega arith;
      full = inl refl;
    },
  )
]

-- The keys of a user that are asked for.
abbrev pub asked : ℕ → List (Option String) → List ProfileKey
asked user [] = []
asked user (project ∷ projects) = record { user_id = user; project = project } ∷ asked user projects

has-same :
    (k j : ProfileKey) (keys : List ProfileKey)
    → has k keys ≡ true
    → same_key k j ≡ true
    → has j keys ≡ true
has-same k j keys h e = rw ((same_key_iff k j).0 e) at h

-- A key that stands in the deque is not added.
present-Accepts :
    (q : RebuildQueue) (k : ProfileKey)
    → IsCoalesced q
    → has k q.queued ≡ true
    → Accepts (k ∷ []) q q
present-Accepts q k v h =
    let there : has k q.pending ≡ true = ground (arith, v.agree k) in
    record {
      coalesced = v;
      settings = record { batch_size = refl; buffer_limit = refl; bound = refl };
      added = [];
      dropped = [];
      flow = append-nil q.pending;
      counted = omega arith;
      wanted = λ j g. absurd (ground (arith, g));
      reached = λ j g. ground (arith, g, has-join j q.pending [], has-same k j q.pending there);
      few = omega arith;
      full = inl refl;
    }

-- Another is, once there is room for it.
absent-Accepts :
    (q room : RebuildQueue) (k : ProfileKey)
    → IsCoalesced q
    → has k q.queued ≡ false
    → HasRoom q room
    → Accepts (k ∷ []) q (append_key k room)
absent-Accepts q room k v h r =
    let flow : has k q.pending ≡ has k (r.dropped ++ room.pending) = ap (has k) r.flow in
    let absent : has k room.pending ≡ false =
      ground (arith, h, flow, v.agree k, has-join k r.dropped room.pending) in
    record {
      coalesced = append_key-IsCoalesced k room r.coalesced r.room absent;
      settings = record {
        batch_size = r.settings.batch_size;
        buffer_limit = r.settings.buffer_limit;
        bound = r.settings.bound;
      };
      added = k ∷ [];
      dropped = r.dropped;
      flow =
          ap (λ (l : List ProfileKey). l ++ k ∷ []) r.flow
          ∙ append_assoc r.dropped room.pending (k ∷ []);
      counted = r.counted;
      wanted = λ j g. g;
      reached = λ j g. ground (arith, g, has-join j q.pending (k ∷ []));
      few = omega arith;
      full = elim r.full [
        | inl e ↦ inl e
        | inr e ↦ inr (omega (arith, e, length-append room.pending (k ∷ [])))
      ];
    }

enqueue_one-Accepts :
    (q : RebuildQueue) (k : ProfileKey) (added : Bool)
    → IsCoalesced q
    → (r : RebuildQueue) × (b : Bool) × (enqueue_one q k added ≡ some (r, b)) × Accepts (k ∷ []) q r
unfolding enqueue_one
enqueue_one-Accepts q k added v = elim (Bool-cases (has k q.queued)) [
  | inl h ↦ rw h (q, added, refl, present-Accepts q k v h)
  | inr h ↦
      let (room, e, r) = make_room-HasRoom q v in
      (append_key k room, true, ground (arith, e, h), absent-Accepts q room k v h r)
]

enqueue_all-Accepts :
    (q : RebuildQueue) (user : ℕ) (projects : List (Option String)) (added : Bool)
    → IsCoalesced q
    → (r : RebuildQueue) × (b : Bool) × (enqueue_all q user projects added ≡ some (r, b))
      × Accepts (asked user projects) q r
unfolding enqueue_all
enqueue_all-Accepts q user [] added v = (q, added, refl, nothing-Accepts q v)
enqueue_all-Accepts q user (project ∷ projects) added v =
    let (r, b, e, a) =
      enqueue_one-Accepts q (record { user_id = user; project = project }) added v in
    let (s, c, f, d) = enqueue_all-Accepts r user projects b a.coalesced in
    (
      s,
      c,
      ground (arith, e, f),
      then-Accepts (record { user_id = user; project = project } ∷ []) (asked user projects) q r s a
          d,
    )

wake_if-Accepts :
    (keys : List ProfileKey) (q r : RebuildQueue) (added : Bool)
    → Accepts keys q r
    → Accepts keys q (wake_if (r, added))
wake_if-Accepts keys q r false a = a
wake_if-Accepts keys q r true a = record {
  coalesced = record {
    agree = a.coalesced.agree;
    distinct = a.coalesced.distinct;
    bounded = a.coalesced.bounded;
    positive = a.coalesced.positive;
  };
  settings = record {
    batch_size = a.settings.batch_size;
    buffer_limit = a.settings.buffer_limit;
    bound = a.settings.bound;
  };
  added = a.added;
  dropped = a.dropped;
  flow = a.flow;
  counted = a.counted;
  wanted = a.wanted;
  reached = a.reached;
  few = a.few;
  full = a.full;
}

-- Under the invariant, with a positive limit, `enqueue` returns and keeps the invariant. What was
-- queued and then the keys added are what was dropped and then what is queued, so that the oldest keys
-- go; each drop is counted once, and there is none unless the deque ends full. Only keys asked for are
-- added, and each of them was in the deque or is added.
pub enqueue-Accepts :
    (q : RebuildQueue) (user : ℕ) (projects : List (Option String))
    → IsCoalesced q
    → (r : RebuildQueue) × (enqueue q user projects ≡ some r) × Accepts (asked user projects) q r
unfolding enqueue
enqueue-Accepts q user projects v =
    let (r, b, e, a) = enqueue_all-Accepts q user projects false v in
    (wake_if (r, b), ground (arith, e), wake_if-Accepts (asked user projects) q r b a)
