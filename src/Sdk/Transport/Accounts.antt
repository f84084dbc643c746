-- ===== src/Sdk/Transport/Accounts.antt =====
-- The events that are accounted for, when an event is submitted and when a round starts.
use inferspect.Prelude.{
  ℕ, ◌+◌, ◌*◌, ◌≤◌, ◌≡◌, false, ap, ap₂, ◌∙◌, sym, inl, inr, some, List, [], ◌∷◌, arith, length,
  take, drop, length-append, length-take-le,
}
use inferspect.Sdk.Transport.State.{Options, Flusher, Transport, enqueue, submit, begin_send, wake}
use inferspect.Sdk.Transport.Steps.{Action, admitted, departed, carried, in_flight}
use inferspect.Sdk.Transport.Queues.{Queues}
use inferspect.Sdk.Transport.Rounds.{wake-moves, wake-idle, waiting-cases, buffer-fill}

module _ {ℓ} {E : Type ℓ} where
  -- The events in the counters and in flight.
  abbrev pub known : Transport E → ℕ
  known s = length s.buffer + s.dropped_count + s.flushed_count + length (in_flight s)

  -- A batch that ended the flusher by an exception is in no counter.
  abbrev pub crashes : Flusher E → ℕ
  crashes Flusher.failed = 1
  crashes _ = 0

  abbrev pub crashed_batches : Transport E → ℕ
  crashed_batches s = crashes s.flusher

  -- `n` events were admitted: all are accounted for but those in failed batches.
  pub record Accounts (o : Options) (n : ℕ) (s : Transport E) : Type 0 where
    pub no_more : known s ≤ n
    pub no_less : n ≤ known s + o.batch_max * (s.failed_batches + crashed_batches s)
    pub batch_fits : length (in_flight s) ≤ o.batch_max

  -- What a call of `submit` leaves alone, and what it counts.
  record Counted (o : Options) (e : E) (s s' : Transport E) : Type ℓ where
    drops : s'.dropped_count ≡ s.dropped_count + length (departed o (Action.submit_event e) s)
    flushes : s'.flushed_count ≡ s.flushed_count
    fails : s'.failed_batches ≡ s.failed_batches
    same_flusher : s'.flusher ≡ s.flusher

  submit-Counted :
      (o : Options) (e : E) (s s' : Transport E) → submit o e s ≡ some s' → Counted o e s s'
  unfolding submit enqueue
  submit-Counted o e s s' h = ground arith

  pub submit-Accounts :
      (o : Options) (n : ℕ) (e : E) (s s' : Transport E)
      → submit o e s ≡ some s'
      → Queues o (Action.submit_event e) s s'
      → Accounts o n s
      → Accounts o (n + length (admitted (Action.submit_event e) s)) s'
  submit-Accounts o n e s s' h q a =
      let d = departed o (Action.submit_event e) s in
      let c = submit-Counted o e s s' h in
      let moved = ap length q.order in
      let left = length-append d s'.buffer in
      let right = length-append s.buffer (admitted (Action.submit_event e) s) in
      let flight : length (in_flight s') ≡ length (in_flight s) =
        ap (λ (f : Flusher E). length (carried f)) c.same_flusher in
      let crash : crashed_batches s' ≡ crashed_batches s = ap crashes c.same_flusher in
      let load : o.batch_max * (s'.failed_batches + crashed_batches s')
          ≡ o.batch_max * (s.failed_batches + crashed_batches s) =
        ap₂ (λ (x y : ℕ). o.batch_max * (x + y)) c.fails crash in
      let drops = c.drops in
      let flushes = c.flushes in
      record { no_more = omega arith; no_less = omega arith; batch_fits = omega arith }

  record Untouched (o : Options) (s s' : Transport E) : Type 0 where
    drops : s'.dropped_count ≡ s.dropped_count
    flushes : s'.flushed_count ≡ s.flushed_count
    fails : s'.failed_batches ≡ s.failed_batches
    no_crash : crashed_batches s' ≡ 0
    fits : length (in_flight s') ≤ o.batch_max

  begin_send-Untouched :
      (o : Options) (batch rest : List E) (s : Transport E)
      → length batch ≤ o.batch_max
      → Untouched o s (begin_send batch rest s)
  begin_send-Untouched o [] rest s h = ground arith
  begin_send-Untouched o (e ∷ batch) rest s h = ground arith

  wake-Untouched :
      (o : Options) (s : Transport E) → s.flusher ≡ Flusher.waiting → Untouched o s (wake o s)
  unfolding wake
  wake-Untouched o s w =
      let t : Transport E = record s { flush_event = false } in
      let n = o.batch_max in
      let u =
        begin_send-Untouched o (take n s.buffer) (drop n s.buffer) t (length-take-le n s.buffer) in
      ground (arith, buffer-fill o s.buffer, u)

  pub wake-Accounts :
      (o : Options) (n : ℕ) (s : Transport E) → Accounts o n s → Accounts o n (wake o s)
  wake-Accounts o n s a = elim (waiting-cases s.flusher) [
    | inl w ↦
        let u = wake-Untouched o s w in
        let moved = ap length (wake-moves o s w) in
        let sizes = length-append (in_flight (wake o s)) (wake o s).buffer in
        let before : length (in_flight s) ≡ 0 = ap (λ (f : Flusher E). length (carried f)) w in
        let crash : crashed_batches s ≡ 0 = ap crashes w in
        let load : o.batch_max * ((wake o s).failed_batches + crashed_batches (wake o s))
            ≡ o.batch_max * (s.failed_batches + crashed_batches s) =
          ap₂ (λ (x y : ℕ). o.batch_max * (x + y)) u.fails (u.no_crash ∙ sym crash) in
        let drops = u.drops in
        let flushes = u.flushes in
        record { no_more = omega arith; no_less = omega arith; batch_fits = u.fits }
    | inr idle ↦ rw (wake-idle o s idle) a
  ]
