-- ===== src/Sdk/Transport/Counts.antt =====
-- The counters of `stats()` against the events that were admitted.
use native.Mathlib.Nat.{add-zero}
use mathlib.Core.Path.{subst}
use inferspect.Prelude.{
  ℕ, ◌+◌, ◌*◌, ◌≤◌, ◌<◌, ◌≡◌, ◌≢◌, ◌⊎◌, false, ◌||◌, refl, ap, ◌∙◌, sym, inl, inr, Option, some,
  List, [], ◌∷◌, ◌++◌, arith, length, length-append,
}
use inferspect.Sdk.Transport.Send.{Response, Outcome, send}
use inferspect.Sdk.Transport.State.{
  Options, Flusher, Transport, init, start, stats, close, close_end, settle, count_sent, wake, sent,
}
use inferspect.Sdk.Transport.Steps.{
  Action, Run, step, does_raise, admitted, departed, carried, in_flight, run,
}
use inferspect.Sdk.Transport.Queues.{Queues, step-Queues}
use inferspect.Sdk.Transport.Accounts.{
  Accounts, crashes, crashed_batches, submit-Accounts, wake-Accounts,
}

module _ {ℓ} {E : Type ℓ} where
  settle-carries : (s : Transport E) → length (in_flight (settle s)) ≡ 0
  settle-carries s = ground arith

  settle-crashes : (s : Transport E) → crashed_batches (settle s) ≡ 0
  settle-crashes s = ground arith

  module _ (o : Options) (n : ℕ) (batch : List E) (s : Transport E)
      (w : s.flusher ≡ Flusher.sending batch) (a : Accounts o n s) where
    carries : length (in_flight s) ≡ length batch
    carries = ap (λ (f : Flusher E). length (carried f)) w

    settled_load :
        (t : Transport E)
        → o.batch_max * (t.failed_batches + crashed_batches (settle t))
          ≡ o.batch_max * t.failed_batches
    settled_load t = ap (λ (x : ℕ). o.batch_max * x) (omega (arith, settle-crashes t))

    load : o.batch_max * (s.failed_batches + crashed_batches s) ≡ o.batch_max * s.failed_batches
    load =
        ap (λ (x : ℕ). o.batch_max * (s.failed_batches + x)) (ap crashes w)
        ∙ ap (λ (x : ℕ). o.batch_max * x) (omega arith)

    flushed-Accounts : Accounts o n (count_sent batch Outcome.flushed s)
    flushed-Accounts =
        let t : Transport E = record s { flushed_count = s.flushed_count + length batch } in
        record {
          no_more = omega (arith, carries, settle-carries t);
          no_less = omega (arith, carries, settle-carries t, settled_load t, load);
          batch_fits = omega (arith, settle-carries t);
        }

    failed-Accounts : Accounts o n (settle (record s { failed_batches = s.failed_batches + 1 }))
    failed-Accounts =
        let t : Transport E = record s { failed_batches = s.failed_batches + 1 } in
        record {
          no_more = omega (arith, carries, settle-carries t);
          no_less = omega (arith, carries, settle-carries t, settled_load t, load);
          batch_fits = omega (arith, settle-carries t);
        }

    crashed-Accounts : Accounts o n (count_sent batch Outcome.crashed s)
    crashed-Accounts = record {
      no_more = omega (arith, carries);
      no_less = omega (arith, carries, load);
      batch_fits = omega arith;
    }

    count_sent-Accounts : (out : Outcome) → Accounts o n (count_sent batch out s)
    count_sent-Accounts Outcome.flushed = flushed-Accounts
    count_sent-Accounts Outcome.rejected = failed-Accounts
    count_sent-Accounts Outcome.exhausted = failed-Accounts
    count_sent-Accounts Outcome.crashed = crashed-Accounts

  Flusher-cases :
      (f : Flusher E)
      → ((batch : List E) × (f ≡ Flusher.sending batch))
        ⊎ ((batch : List E) → f ≢ Flusher.sending batch)
  Flusher-cases (Flusher.sending batch) = inl (batch, refl)
  Flusher-cases Flusher.absent = inr (λ batch. cc)
  Flusher-cases Flusher.waiting = inr (λ batch. cc)
  Flusher-cases Flusher.stopped = inr (λ batch. cc)
  Flusher-cases Flusher.failed = inr (λ batch. cc)

  sent-sending :
      (o : Options) (post : ℕ → Response) (batch : List E) (s : Transport E)
      → s.flusher ≡ Flusher.sending batch
      → sent o post s ≡ count_sent batch ((send o.max_retries post).outcome) s
  unfolding sent
  sent-sending o post batch s w = ground arith

  sent-idle :
      (o : Options) (post : ℕ → Response) (s : Transport E)
      → ((batch : List E) → s.flusher ≢ Flusher.sending batch)
      → sent o post s ≡ s
  unfolding sent
  sent-idle o post s idle = grind arith

  sent-Accounts :
      (o : Options) (n : ℕ) (post : ℕ → Response) (s : Transport E)
      → Accounts o n s
      → Accounts o n (sent o post s)
  sent-Accounts o n post s a = elim (Flusher-cases s.flusher) [
    | inl (batch, w) ↦
        rw (sent-sending o post batch s w)
          (count_sent-Accounts o n batch s w a ((send o.max_retries post).outcome))
    | inr idle ↦ rw (sent-idle o post s idle) a
  ]

  -- A step that changes no count, moves no event and ends no batch.
  start-Accounts : (o : Options) (n : ℕ) (s : Transport E) → Accounts o n s → Accounts o n (start s)
  start-Accounts o n s a = ground arith

  close_end-Accounts :
      (o : Options) (n : ℕ) (s : Transport E) → Accounts o n s → Accounts o n (close_end s).1
  close_end-Accounts o n s a = ground arith

  to_next :
      (o : Options) (n : ℕ) (s t : Transport E)
      → ◌≡◌ {A = Option (Transport E)} (some s) (some t)
      → Accounts o n s
      → Accounts o (n + 0) t
  to_next o n s t h a =
      let e : s ≡ t = cc in
      subst (λ (m : ℕ). Accounts o m t) (sym (add-zero n))
        (subst (λ (u : Transport E). Accounts o n u) e a)

  step-Accounts :
      (o : Options) (n : ℕ) (a : Action E) (s s' : Transport E)
      → step o a s ≡ some s'
      → Queues o a s s'
      → Accounts o n s
      → Accounts o (n + length (admitted a s)) s'
  unfolding step
  step-Accounts o n (Action.submit_event e) s s' h q k = submit-Accounts o n e s s' h q k
  step-Accounts o n Action.round s s' h q k = to_next o n (wake o s) s' h (wake-Accounts o n s k)
  step-Accounts o n (Action.send_done post) s s' h q k =
      to_next o n (sent o post s) s' h (sent-Accounts o n post s k)
  step-Accounts o n Action.start_task s s' h q k =
      to_next o n (start s) s' h (start-Accounts o n s k)
  step-Accounts o n Action.close_begin s s' h q k =
      to_next o n (close s) s' h
        (record { no_more = k.no_more; no_less = k.no_less; batch_fits = k.batch_fits })
  step-Accounts o n Action.close_done s s' h q k =
      to_next o n (close_end s).1 s' h (close_end-Accounts o n s k)

  run-Accounts :
      (o : Options) (actions : List (Action E)) (n : ℕ) (s : Transport E)
      → 0 < o.queue_max
      → length s.buffer ≤ o.queue_max
      → Accounts o n s
      → (r : Run E) × (run o actions s ≡ some r) × Accounts o (n + length r.entered) r.state
  unfolding run
  run-Accounts o [] n s pos h k = (
    record { state = s; entered = []; left = []; close_raised = false },
    refl,
    to_next o n s s refl k,
  )
  run-Accounts o (a ∷ actions) n s pos h k =
      let (s', e, q) = step-Queues o a s pos h in
      let k' = step-Accounts o n a s s' e q k in
      let (r, er, kr) = run-Accounts o actions (n + length (admitted a s)) s' pos q.within k' in
      let size : n + length (admitted a s) + length r.entered
          ≡ n + length (admitted a s ++ r.entered) =
        omega (arith, length-append (admitted a s) r.entered) in
      (
        record r {
          entered = admitted a s ++ r.entered;
          left = departed o a s ++ r.left;
          close_raised = does_raise a s || r.close_raised;
        },
        rw (e, er),
        subst (λ (m : ℕ). Accounts o m r.state) size kr,
      )

  -- However the calls on a new transport interleave, for a buffer's bound that is not 0, the events
  -- admitted are those that `stats()` reports as queued, dropped or flushed, and those of the batch in
  -- flight, which it does not report and which are at most `batch_max`, plus at most `batch_max` for each
  -- failed batch and for the batch at which the flusher crashed, if it did.
  pub stats_account :
      (o : Options) (actions : List (Action E))
      → 0 < o.queue_max
      → (r : Run E) × (run o actions init ≡ some r)
        × (let counts = stats r.state in
            let seen = counts.queued + counts.dropped + counts.flushed in
            (seen + length (in_flight r.state) ≤ length r.entered)
            × (length r.entered
                ≤ seen
                  + length (in_flight r.state)
                  + o.batch_max * (counts.failed_batches + crashed_batches r.state)))
        × (length (in_flight r.state) ≤ o.batch_max)
  stats_account o actions pos =
      let fresh : Accounts {E = E} o 0 init = omega arith in
      let (r, e, k) = run-Accounts o actions 0 init pos (omega arith) fresh in
      (r, e, (omega (arith, k.no_more), omega (arith, k.no_less)), k.batch_fits)
