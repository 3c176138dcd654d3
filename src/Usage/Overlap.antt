-- ===== src/Usage/Overlap.antt =====
-- Two flights of one user: the first that comes back releases the user.
use recallum_mcp.Prelude.{ℕ, ◌≡◌, refl, true, false, none, List, [], ◌∷◌, keep, mem, arith}
use recallum_mcp.Usage.{UsageBuffer, without, finish, flush_user_take, of_user}

mem-without : (u : ℕ) (gone users : List ℕ) → mem u gone ≡ true → mem u (without gone users) ≡ false
mem-without u gone [] h = refl
mem-without u gone (v ∷ users) h = ground (arith, mem-without u gone users h)

-- Once a batch of a user came back whole, that user does not count as in flight, also while another
-- batch of the user still is: a `flush_user` with nothing of the user pending then returns at once.
pub finish-releases :
    (b : UsageBuffer) (users : List ℕ) (user : ℕ)
    → mem user users ≡ true
    → keep (of_user user) b.pending ≡ []
    → (mem user (finish b users none).0.inflight ≡ false)
      × (flush_user_take (finish b users none).0 user ≡ none)
unfolding finish flush_user_take
finish-releases b users user h e = (mem-without user users b.inflight h, rw e refl)
