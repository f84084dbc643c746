-- ===== src/Sdk/Transport/Retry.antt =====
-- The retry loop of `_send` by the answers that it meets.
use native.Mathlib.Nat.{pow-suc, add-zero, add-suc}
use inferspect.Prelude.{
  ℕ, zero, suc, ◌+◌, ◌-◌, ◌≤◌, ◌<◌, ◌^◌, ◌≡◌, refl, ap, ◌≢◌, ◌⊎◌, inl, inr, arith, ltb,
  if◌then◌else◌,
}
use inferspect.Sdk.Transport.Send.{Response, Verdict, Outcome, verdict, send, send_from}

-- The outcome that the verdict on a last answer stands for.
abbrev pub outcome_of : Verdict → Outcome
outcome_of Verdict.flushed = Outcome.flushed
outcome_of Verdict.rejected = Outcome.rejected
outcome_of Verdict.crashed = Outcome.crashed
outcome_of Verdict.retry = Outcome.exhausted

-- Of the answers from number `a` on, the first `k` call for a retry.
abbrev pub Retries : (ℕ → Response) → ℕ → ℕ → Type 0
Retries post a zero = Unit {0}
Retries post a (suc k) = (verdict (post a) ≡ Verdict.retry) × Retries post (suc a) k

-- So do the first `k`, and the verdict on the next is `v`, which is none.
abbrev pub Decides : (ℕ → Response) → ℕ → ℕ → Verdict → Type 0
Decides post a zero v = (verdict (post a) ≡ v) × (v ≢ Verdict.retry)
Decides post a (suc k) v = (verdict (post a) ≡ Verdict.retry) × Decides post (suc a) k v

send_from_decisive :
    (post : ℕ → Response) (a left k : ℕ) (v : Verdict)
    → k < left
    → Decides post a k v
    → ((send_from post a left).outcome ≡ outcome_of v) × ((send_from post a left).posts ≡ k + 1)
unfolding send_from
send_from_decisive post a zero k v h d = absurd (omega arith)
send_from_decisive post a (suc left) zero v h d = ground arith
send_from_decisive post a (suc left) (suc k) v h d =
    ground (arith, send_from_decisive post (suc a) left k v)

send_from_exhausted :
    (post : ℕ → Response) (a left : ℕ)
    → Retries post a left
    → ((send_from post a left).outcome ≡ Outcome.exhausted) × ((send_from post a left).posts ≡ left)
unfolding send_from
send_from_exhausted post a zero r = ground arith
send_from_exhausted post a (suc left) r = ground (arith, send_from_exhausted post (suc a) left)

two_pow-suc : (n : ℕ) → 2 ^ suc n ≡ 2 ^ n + 2 ^ n
two_pow-suc n = rw pow-suc (omega arith)

two_pow_le : (a l : ℕ) → 2 ^ a ≤ 2 ^ (a + l)
two_pow_le a zero = rw add-zero (omega arith)
two_pow_le a (suc l) = rw add-suc (rw two_pow-suc (omega (arith, two_pow_le a l)))

backoff_step :
    (post : ℕ → Response) (a left : ℕ)
    → ((send_from post (suc a) (suc left)).backoff ≡ 0)
      ⊎ ((send_from post (suc a) (suc left)).backoff
          ≡ (if ltb 0 left then 2 ^ a else 0) + (send_from post (suc (suc a)) left).backoff)
unfolding send_from
backoff_step post a left = ground arith

no_attempt_no_sleep : (post : ℕ → Response) (a : ℕ) → (send_from post a 0).backoff ≡ 0
unfolding send_from
no_attempt_no_sleep post a = refl

two_pow_shift : (a l : ℕ) → 2 ^ (a + suc l) ≡ 2 ^ (suc a + l)
two_pow_shift a l = ap (λ (n : ℕ). 2 ^ n) (omega arith)

-- Each sleep is twice the one before it.
send_from_backoff :
    (post : ℕ → Response) (a left : ℕ)
    → (send_from post (suc a) (suc left)).backoff + 2 ^ a ≤ 2 ^ (a + left)
send_from_backoff post a zero = elim (backoff_step post a 0) [
  | inl e ↦ rw (e, add-zero) (omega arith)
  | inr e ↦ rw (e, add-zero) (omega (arith, no_attempt_no_sleep post (suc (suc a))))
]
send_from_backoff post a (suc left) = elim (backoff_step post a (suc left)) [
  | inl e ↦ rw e (omega (arith, two_pow_le a (suc left)))
  | inr e ↦
      rw e (rw two_pow_shift (ground (arith, send_from_backoff post (suc a) left, two_pow-suc a)))
]

-- The first answer that is no reason to retry, among the first `max_retries`, decides how the batch
-- ends, and no post is made after it.
pub send_decisive :
    (max_retries k : ℕ) (v : Verdict) (post : ℕ → Response)
    → k < max_retries
    → Decides post 1 k v
    → ((send max_retries post).outcome ≡ outcome_of v) × ((send max_retries post).posts ≡ k + 1)
unfolding send
send_decisive m k v post h d = send_from_decisive post 1 m k v h d

-- If each of `max_retries` answers calls for a retry, the batch is given up after exactly
-- `max_retries` posts.
pub send_exhausted :
    (max_retries : ℕ) (post : ℕ → Response)
    → Retries post 1 max_retries
    → ((send max_retries post).outcome ≡ Outcome.exhausted)
      × ((send max_retries post).posts ≡ max_retries)
unfolding send
send_exhausted m post r = send_from_exhausted post 1 m r

-- With at least one attempt, the sleeps of a batch sum up to less than `2 ^ (max_retries - 1)` times
-- the base, before jitter.
pub send_backoff :
    (max_retries : ℕ) (post : ℕ → Response)
    → 0 < max_retries
    → (send max_retries post).backoff < 2 ^ (max_retries - 1)
unfolding send
send_backoff zero post h = absurd (omega arith)
send_backoff (suc m) post h =
    let bound = send_from_backoff post 0 m in
    let top : 2 ^ (0 + m) ≡ 2 ^ (suc m - 1) = ap (λ (n : ℕ). 2 ^ n) (omega arith) in omega arith
