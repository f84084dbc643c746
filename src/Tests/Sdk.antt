-- ===== src/Tests/Sdk.antt =====
-- The transport at a small size: batches of two, a queue of three, two attempts.
use inferspect.Prelude.{
  ℕ, ◌≡◌, ◌≢◌, ◌<◌, ◌≤◌, ◌+◌, ◌*◌, ◌++◌, refl, arith, some, List, [], ◌∷◌, length, true, false, not,
  ◌&&◌, ◌==◌, if◌then◌else◌,
}
use inferspect.Sdk.Transport.Send.{Response, status, http_error, Outcome, verdict, send, send_from}
use inferspect.Sdk.Transport.State.{Options, Flusher, Transport, init, stats}
use inferspect.Sdk.Transport.Steps.{Action, Run, run, in_flight}
use inferspect.Sdk.Transport.Fifo.{has_failed, run_fifo}
use inferspect.Sdk.Transport.Accounts.{crashed_batches}
use inferspect.Sdk.Transport.Counts.{stats_account}
use inferspect.Sdk.Transport.Drain.{rounds, close_drains}
use inferspect.Sdk.Transport.Retry.{send_exhausted, send_backoff}

abbrev small : Options
small = record { batch_max = 2; queue_max = 3; max_retries = 2 }

abbrev accepts : ℕ → Response
accepts n = status 202

-- The first answer is a 503, the others are 202.
abbrev recovers : ℕ → Response
recovers n = if n == 1 then status 503 else status 202

abbrev fails : ℕ → Response
fails n = http_error

-- Four submits overflow the queue; the first batch goes through, the second is given up.
abbrev calls : List (Action ℕ)
calls =
    Action.start_task
    ∷ Action.submit_event 1
    ∷ Action.submit_event 2
    ∷ Action.submit_event 3
    ∷ Action.submit_event 4
    ∷ Action.round
    ∷ Action.send_done recovers
    ∷ Action.close_begin
    ∷ Action.submit_event 5
    ∷ Action.round
    ∷ Action.send_done fails
    ∷ []

abbrev waiting : Transport ℕ
waiting = record init { flusher = Flusher.waiting; buffer = 1 ∷ 2 ∷ 3 ∷ []; closed = true }

run_fifo_example :
    (r : Run ℕ) × (run small calls init ≡ some r)
    × (r.left ++ r.state.buffer ≡ r.entered)
    × (length r.state.buffer ≤ 3)
    × ((r.close_raised && not (has_failed r.state.flusher)) ≡ false)
run_fifo_example = run_fifo small calls init (omega arith) (omega arith)

stats_account_example :
    (r : Run ℕ) × (run small calls init ≡ some r)
    × (let counts = stats r.state in
        let seen = counts.queued + counts.dropped + counts.flushed in
        (seen + length (in_flight r.state) ≤ length r.entered)
        × (length r.entered
            ≤ seen
              + length (in_flight r.state)
              + 2 * (counts.failed_batches + crashed_batches r.state)))
    × (length (in_flight r.state) ≤ 2)
stats_account_example = stats_account small calls (omega arith)

never_crashes : (i : ℕ) → (send 2 recovers).outcome ≢ Outcome.crashed
unfolding send send_from verdict
never_crashes i e = cc

close_drains_example :
    ((rounds 4 small (λ i. recovers) waiting).flusher ≡ Flusher.stopped)
    × ((rounds 4 small (λ i. recovers) waiting).buffer ≡ [])
close_drains_example =
    close_drains 4 small (λ i. recovers) waiting (omega arith) refl refl never_crashes (omega arith)

two_posts : ((send 2 fails).outcome ≡ Outcome.exhausted) × ((send 2 fails).posts ≡ 2)
unfolding verdict
two_posts = send_exhausted 2 fails (refl, (refl, tt))

send_backoff_example : (send 2 fails).backoff < 2
send_backoff_example = send_backoff 2 fails (omega arith)
