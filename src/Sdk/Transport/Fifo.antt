-- ===== src/Sdk/Transport/Fifo.antt =====
-- The buffer as a bounded queue.
use mathlib.Core.List.{append-nil, append_assoc}
use inferspect.Prelude.{
  ◌≤◌, ◌<◌, ◌≡◌, refl, Bool, not, ◌&&◌, true, false, ◌||◌, Bool-cases, inl, inr, some, List, [],
  ◌∷◌, ◌++◌, arith, length,
}
use inferspect.Sdk.Transport.State.{Options, Flusher, Transport, submit, enqueue, wake, sent}
use inferspect.Sdk.Transport.Steps.{Action, Run, step, does_raise, admitted, departed, run}
use inferspect.Sdk.Transport.Queues.{step-Queues}

module _ {ℓ} {E : Type ℓ} where
  run_fifo_step :
      (d ds b b' es b0 a : List E)
      → ds ++ b ≡ b' ++ es
      → d ++ b' ≡ b0 ++ a
      → (d ++ ds) ++ b ≡ b0 ++ (a ++ es)
  run_fifo_step d ds b b' es b0 a tail_ head_ =
      cc (append_assoc d ds b, append_assoc d b' es, append_assoc b0 a es)

  step-failed :
      (o : Options) (a : Action E) (s s' : Transport E)
      → s.flusher ≡ Flusher.failed
      → step o a s ≡ some s'
      → s'.flusher ≡ Flusher.failed
  unfolding step submit enqueue wake sent
  step-failed o (Action.submit_event e) s s' f h = ground arith
  step-failed o Action.round s s' f h = ground arith
  step-failed o Action.start_task s s' f h = ground arith
  step-failed o Action.close_begin s s' f h = ground arith
  step-failed o Action.close_done s s' f h = ground arith
  step-failed o (Action.send_done post) s s' f h = ground arith

  -- A close raises only where the flusher has crashed.
  does_raise-failed :
      (a : Action E) (s : Transport E) → does_raise a s ≡ true → s.flusher ≡ Flusher.failed
  does_raise-failed Action.close_done s h = ground arith
  does_raise-failed a s h = cc

  run_raises :
      (o : Options) (actions : List (Action E)) (s : Transport E)
      → 0 < o.queue_max
      → length s.buffer ≤ o.queue_max
      → (r : Run E) × (run o actions s ≡ some r)
        × (r.left ++ r.state.buffer ≡ s.buffer ++ r.entered)
        × (length r.state.buffer ≤ o.queue_max)
        × (r.close_raised ≡ true → r.state.flusher ≡ Flusher.failed)
        × (s.flusher ≡ Flusher.failed → r.state.flusher ≡ Flusher.failed)
  unfolding run
  run_raises o [] s pos h = (
    record { state = s; entered = []; left = []; close_raised = false },
    refl,
    ground (arith, append-nil s.buffer),
    h,
    λ b. cc,
    λ f. f,
  )
  run_raises o (a ∷ actions) s pos h =
      let (s', e, q) = step-Queues o a s pos h in
      let (r, er, fifo, within, raising, lasting) = run_raises o actions s' pos q.within in
      (
        record r {
          entered = admitted a s ++ r.entered;
          left = departed o a s ++ r.left;
          close_raised = does_raise a s || r.close_raised;
        },
        rw (e, er),
        run_fifo_step (departed o a s) r.left r.state.buffer s'.buffer r.entered s.buffer
            (admitted a s) fifo q.order,
        within,
        λ b. elim (Bool-cases (does_raise a s)) [
          | inl now ↦ lasting (step-failed o a s s' (does_raise-failed a s now) e)
          | inr later ↦ raising (ground arith)
        ],
        λ f. lasting (step-failed o a s s' f e),
      )

  abbrev pub has_failed : Flusher E → Bool
  has_failed Flusher.failed = true
  has_failed _ = false

  -- From a buffer within its bound, for a bound that is not 0, no call in any sequence raises, but the
  -- end of a close, which raises only after the flusher has crashed. The buffer stays within its bound,
  -- and the events that departed, then those still buffered, are the events that were there, then those
  -- admitted, in that order.
  pub run_fifo :
      (o : Options) (actions : List (Action E)) (s : Transport E)
      → 0 < o.queue_max
      → length s.buffer ≤ o.queue_max
      → (r : Run E) × (run o actions s ≡ some r)
        × (r.left ++ r.state.buffer ≡ s.buffer ++ r.entered)
        × (length r.state.buffer ≤ o.queue_max)
        × ((r.close_raised && not (has_failed r.state.flusher)) ≡ false)
  run_fifo o actions s pos h =
      let (r, e, fifo, within, raising, lasting) = run_raises o actions s pos h in
      (
        r,
        e,
        fifo,
        within,
        elim (Bool-cases r.close_raised) [ inl b ↦ rw (b, raising b) refl | inr b ↦ rw b refl ],
      )
