-- ===== src/Usage/System.antt =====
-- The buffer among concurrent tasks: records, flushes of all users and of one, whose repository
-- calls run outside the lock and come back in any order.
use recallum_mcp.Prelude.{
  ℕ, ◌+◌, ◌≡◌, Bool, false, not, some, List, [], ◌∷◌, ◌++◌, length, keep, mem, sum_of, All, arith,
}
use recallum_mcp.Usage.{
  Key, Delta, Entries, Rows, UsageBuffer, total, record_recall, record_context, users_of, of_user,
  flush_take, flush_user_take, group_from, apply, finish,
}
use recallum_mcp.Usage.Dict.{HasDistinctKeys}
use recallum_mcp.Usage.Account.{IsValid}
use recallum_mcp.Usage.Apply.{sent}

-- A batch that was taken and has not come back.
pub record Flight : Type 0 where
  pub users : List ℕ
  pub batch : Entries

-- `recorded` and `applied` count the serves that were recorded and that the repository was given.
pub record System : Type 0 where
  pub buffer : UsageBuffer
  pub flights : List Flight
  pub recorded : ℕ
  pub applied : ℕ

pub data Step (s t : System) : Type 0 where
  recall :
      (user : ℕ) (ids : List ℕ) (at : ℕ)
      → t ≡ record s {
        buffer = record_recall s.buffer user ids at;
        recorded = s.recorded + length ids;
      }
      → Step s t
  context :
      (user : ℕ) (ids : List ℕ)
      → t
        ≡ record s { buffer = record_context s.buffer user ids; recorded = s.recorded + length ids }
      → Step s t
  take_all :
      (batch : Entries) (b : UsageBuffer)
      → flush_take s.buffer ≡ some (batch, b)
      → t ≡ record s {
        buffer = b;
        flights = record { users = users_of batch; batch = batch } ∷ s.flights;
      }
      → Step s t
  take_user :
      (user : ℕ) (batch : Entries) (b : UsageBuffer)
      → mem user s.buffer.inflight ≡ false
      → flush_user_take s.buffer user ≡ some (batch, b)
      → t
        ≡ record s { buffer = b; flights = record { users = user ∷ []; batch = batch } ∷ s.flights }
      → Step s t
  come_back :
      (applies : ℕ → Rows → Bool) (before : List Flight) (f : Flight) (after : List Flight)
      → s.flights ≡ before ++ f ∷ after
      → t ≡ record s {
        buffer = (finish s.buffer f.users (apply applies f.batch)).0;
        flights = before ++ after;
        applied = s.applied + sent applies (group_from [] f.batch);
      }
      → Step s t

pub data Reach (s : System) : System → Type 0 where
  here : Reach s s
  next : {t u : System} → Reach s t → Step t u → Reach s u

abbrev pub in_flight : List Flight → ℕ
in_flight = sum_of (λ f. total f.batch)

-- Every recorded serve is pending, in flight, applied or counted as dropped; the pending entries
-- have distinct keys and keep the limit, and the keys of each batch are distinct.
pub record IsAccounted (s : System) : Type 0 where
  pub valid : IsValid s.buffer
  pub distinct : All (λ f. HasDistinctKeys f.batch) s.flights
  pub accounted :
      s.recorded ≡ total s.buffer.pending + s.buffer.dropped + in_flight s.flights + s.applied

pub flush_take-batch :
    (b c : UsageBuffer) (batch : Entries)
    → flush_take b ≡ some (batch, c)
    → (b.pending ≡ batch) × (c.pending ≡ []) × (c.dropped ≡ b.dropped)
unfolding flush_take
flush_take-batch b c batch h = ground arith

pub split_total :
    (p : Key × Delta → Bool) (l : Entries)
    → total (keep p l) + total (keep (λ e. not (p e)) l) ≡ total l
split_total p [] = omega arith
split_total p (e ∷ l) = ground (arith, split_total p l)

pub flush_user_take-batch :
    (b c : UsageBuffer) (user : ℕ) (batch : Entries)
    → flush_user_take b user ≡ some (batch, c)
    → (keep (of_user user) b.pending ≡ batch)
      × (c.pending ≡ keep (λ e. not (of_user user e)) b.pending)
      × (c.dropped ≡ b.dropped)
      × (c.buffer_limit ≡ b.buffer_limit)
unfolding flush_user_take
flush_user_take-batch b c user batch h = ground arith
