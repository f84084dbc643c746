-- ===== src/Sdk/Transport/Send.antt =====
-- `BatchedLogTransport._send`: one batch, posted until an answer is decisive.
use inferspect.Prelude.{ℕ, zero, suc, ◌+◌, ◌-◌, ◌^◌, Bool, not, ◌&&◌, ltb, leb, ◌==◌, if◌then◌else◌}

-- What the HTTP client answers to one post: a response, an `httpx.HTTPError` or `TimeoutError`, or
-- any other exception, which `_send` does not catch.
pub data Response : Type 0 where
  status : ℕ → Response
  http_error : Response
  other_error : Response

-- How `_send` ends; `retry` is the verdict on one answer that ends nothing.
pub data Verdict : Type 0 where
  flushed rejected crashed retry : Verdict

pub data Outcome : Type 0 where
  flushed rejected exhausted crashed : Outcome

abbrev is_success : ℕ → Bool
is_success code = leb 200 code && ltb code 300

-- A 4xx answer is final, but for 429.
abbrev is_rejection : ℕ → Bool
is_rejection code = leb 400 code && ltb code 500 && not (code == 429)

unfoldable pub verdict : Response → Verdict
verdict (status code) =
    if is_success code
    then Verdict.flushed
    else if is_rejection code
    then Verdict.rejected
    else Verdict.retry
verdict http_error = Verdict.retry
verdict other_error = Verdict.crashed

-- The outcome, the posts made, and the time slept in multiples of `backoff_base_s`, without the
-- jitter, which adds at most as much again.
pub record Sent : Type 0 where
  pub outcome : Outcome
  pub posts : ℕ
  pub backoff : ℕ

abbrev ended : Outcome → Sent
ended o = record { outcome = o; posts = 1; backoff = 0 }

-- One more post, and a sleep before the rest, unless it was the last attempt.
abbrev after_retry : ℕ → ℕ → Sent → Sent
after_retry attempt left rest = record {
  outcome = rest.outcome;
  posts = rest.posts + 1;
  backoff = (if ltb 0 left then 2 ^ (attempt - 1) else 0) + rest.backoff;
}

-- The `for` loop: `attempt` runs from 1, `left` counts the attempts that remain.
unfoldable pub send_from : (ℕ → Response) → ℕ → ℕ → Sent
send_from post attempt zero = record { outcome = Outcome.exhausted; posts = 0; backoff = 0 }
send_from post attempt (suc left) = elim (verdict (post attempt)) [
  | Verdict.flushed ↦ ended Outcome.flushed
  | Verdict.rejected ↦ ended Outcome.rejected
  | Verdict.crashed ↦ ended Outcome.crashed
  | Verdict.retry ↦ after_retry attempt left (send_from post (attempt + 1) left)
]

-- `post n` is what the n-th attempt meets.
unfoldable pub send : ℕ → (ℕ → Response) → Sent
unfolding send_from
send max_retries post = send_from post 1 max_retries
