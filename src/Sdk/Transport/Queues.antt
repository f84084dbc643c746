-- ===== src/Sdk/Transport/Queues.antt =====
-- What each action does to the buffer.
use mathlib.Core.List.{append-nil}
use inferspect.Prelude.{
  ℕ, suc, ◌+◌, ◌-◌, ◌≤◌, ◌<◌, ◌≡◌, refl, ap, ◌⊎◌, inl, inr, true, false, some, List, [], ◌∷◌, ◌++◌,
  arith, length, ltb, length-append, Bool-cases,
}
use inferspect.Sdk.Transport.State.{
  Options, Transport, append_max, enqueue, submit, start, close, close_end, wake, sent,
}
use inferspect.Sdk.Transport.Steps.{Action, step, admitted, departed, in_flight}
use inferspect.Sdk.Transport.Rounds.{wake-moves, wake-idle, waiting-cases, buffer-sent}

module _ {ℓ} {E : Type ℓ} where
  append_max_fits : (n : ℕ) (e : E) (xs : List E) → length xs < n → append_max n e xs ≡ xs ++ e ∷ []
  unfolding append_max
  append_max_fits n e xs h =
      let none_over : length (xs ++ e ∷ []) - n ≡ 0 = omega (arith, length-append xs (e ∷ [])) in
      rw none_over

  buffer-enqueue :
      (o : Options) (e : E) (s : Transport E)
      → length s.buffer < o.queue_max
      → (enqueue o e s).buffer ≡ s.buffer ++ e ∷ []
  unfolding enqueue
  buffer-enqueue o e s h = append_max_fits o.queue_max e s.buffer h

  -- What one action does to the buffer.
  pub record Queues (o : Options) (a : Action E) (s s' : Transport E) : Type ℓ where
    pub order : departed o a s ++ s'.buffer ≡ s.buffer ++ admitted a s
    pub within : length s'.buffer ≤ o.queue_max

  submit_room :
      (o : Options) (e : E) (s : Transport E)
      → length s.buffer < o.queue_max
      → s.closed ≡ false
      → (s' : Transport E) × (submit o e s ≡ some s') × Queues o (Action.submit_event e) s s'
  unfolding submit
  submit_room o e s h open_ =
      let b = buffer-enqueue o e s h in
      (
        enqueue o e s,
        ground arith,
        record {
          order = ground (arith, b);
          within = omega (arith, ap length b, length-append s.buffer (e ∷ []));
        },
      )

  submit_full :
      (o : Options) (e x : E) (rest : List E) (s : Transport E)
      → s.closed ≡ false
      → s.buffer ≡ x ∷ rest
      → suc (length rest) ≡ o.queue_max
      → (s' : Transport E) × (submit o e s ≡ some s') × Queues o (Action.submit_event e) s s'
  unfolding submit
  submit_full o e x rest s h b r =
      let t : Transport E = record s { buffer = rest; dropped_count = s.dropped_count + 1 } in
      let b' = buffer-enqueue o e t (omega arith) in
      (
        enqueue o e t,
        ground arith,
        record {
          order = ground (arith, b');
          within = omega (arith, ap length b', length-append rest (e ∷ []));
        },
      )

  submit_closed :
      (o : Options) (e : E) (s : Transport E)
      → length s.buffer ≤ o.queue_max
      → s.closed ≡ true
      → (s' : Transport E) × (submit o e s ≡ some s') × Queues o (Action.submit_event e) s s'
  unfolding submit
  submit_closed o e s h shut =
      (s, ground arith, record { order = ground (arith, append-nil s.buffer); within = h })

  List-cases : (xs : List E) → (xs ≡ []) ⊎ ((x : E) × (rest : List E) × (xs ≡ x ∷ rest))
  List-cases [] = inl refl
  List-cases (x ∷ rest) = inr (x, rest, refl)

  submit-Queues :
      (o : Options) (e : E) (s : Transport E)
      → 0 < o.queue_max
      → length s.buffer ≤ o.queue_max
      → (s' : Transport E) × (submit o e s ≡ some s') × Queues o (Action.submit_event e) s s'
  submit-Queues o e s pos h = elim (Bool-cases s.closed) [
    | inl shut ↦ submit_closed o e s h shut
    | inr open_ ↦ elim (Bool-cases (ltb (length s.buffer) o.queue_max)) [
      | inl room ↦ submit_room o e s (ground arith) open_
      | inr full ↦ elim (List-cases s.buffer) [
        | inl none_there ↦ absurd (ground arith)
        | inr (x, rest, b) ↦ submit_full o e x rest s open_ b (ground arith)
      ]
    ]
  ]

  round-Queues :
      (o : Options) (s : Transport E)
      → length s.buffer ≤ o.queue_max
      → Queues o Action.round s (wake o s)
  round-Queues o s h = elim (waiting-cases s.flusher) [
    | inl w ↦
        let m = wake-moves o s w in
        record {
          order = ground (arith, m, append-nil s.buffer);
          within =
              omega (arith, ap length m, length-append (in_flight (wake o s)) (wake o s).buffer, h);
        }
    | inr idle ↦ record {
      order = ground (arith, wake-idle o s idle, append-nil s.buffer);
      within = rw (wake-idle o s idle) h;
    }
  ]

  pub step-Queues :
      (o : Options) (a : Action E) (s : Transport E)
      → 0 < o.queue_max
      → length s.buffer ≤ o.queue_max
      → (s' : Transport E) × (step o a s ≡ some s') × Queues o a s s'
  unfolding step
  step-Queues o (Action.submit_event e) s pos h = submit-Queues o e s pos h
  step-Queues o Action.round s pos h = (wake o s, refl, round-Queues o s h)
  step-Queues o Action.start_task s pos h =
      (start s, refl, record { order = ground (arith, append-nil s.buffer); within = ground arith })
  step-Queues o Action.close_begin s pos h =
      (close s, refl, record { order = ground (arith, append-nil s.buffer); within = ground arith })
  step-Queues o Action.close_done s pos h = (
    (close_end s).1,
    refl,
    record { order = ground (arith, append-nil s.buffer); within = ground arith },
  )
  step-Queues o (Action.send_done post) s pos h = (
    sent o post s,
    refl,
    record {
      order = ground (arith, append-nil s.buffer, buffer-sent o post s);
      within = ground (arith, buffer-sent o post s);
    },
  )
