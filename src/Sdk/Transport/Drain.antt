-- ===== src/Sdk/Transport/Drain.antt =====
-- The rounds of the flusher after `close()`.
use mathlib.Core.Path.{subst}
use inferspect.Prelude.{
  ℕ, zero, suc, ◌-◌, ◌<◌, ◌≡◌, ◌≢◌, ◌⊎◌, refl, ap, ap₂, sym, ◌∙◌, inl, inr, true, false, List, [],
  ◌∷◌, arith, length, take, drop, length-drop,
}
use inferspect.Sdk.Transport.Send.{Response, Outcome, send}
use inferspect.Sdk.Transport.State.{Options, Flusher, Transport, fill_batch, count_sent, wake, sent}
use inferspect.Sdk.Transport.Rounds.{buffer-fill}

module _ {ℓ} {E : Type ℓ} where
  -- One whole round of the flusher, and `fuel` of them. `posts i n` is the answer to the n-th post
  -- of round i.
  abbrev pub whole_round : Options → (ℕ → Response) → Transport E → Transport E
  whole_round o post s = sent o post (wake o s)

  unfoldable pub rounds : ℕ → Options → (ℕ → ℕ → Response) → Transport E → Transport E
  rounds zero o posts s = s
  rounds (suc fuel) o posts s = rounds fuel o (λ i. posts (suc i)) (whole_round o (posts 0) s)

  record IsDrained (s : Transport E) : Type ℓ where
    pub stopped : s.flusher ≡ Flusher.stopped
    pub empty : s.buffer ≡ []

  record Progress (before : ℕ) (s : Transport E) : Type ℓ where
    waits : s.flusher ≡ Flusher.waiting
    shut : s.closed ≡ true
    shrinks : length s.buffer < before

  List-cases : (xs : List E) → (xs ≡ []) ⊎ ((x : E) × (rest : List E) × (xs ≡ x ∷ rest))
  List-cases [] = inl refl
  List-cases (x ∷ rest) = inr (x, rest, refl)

  -- What a batch's end leaves, when it did not crash.
  count_sent-Progress :
      (batch : List E) (out : Outcome) (before : ℕ) (s : Transport E)
      → out ≢ Outcome.crashed
      → s.closed ≡ true
      → length s.buffer < before
      → IsDrained (count_sent batch out s) ⊎ Progress before (count_sent batch out s)
  count_sent-Progress batch out before s h shut less = elim (List-cases s.buffer) [
    | inl e ↦ inl (drained out h e)
    | inr (x, rest, e) ↦ inr (more out h x rest e)
  ]
    where
      drained :
          (out : Outcome)
          → out ≢ Outcome.crashed
          → s.buffer ≡ []
          → IsDrained (count_sent batch out s)
      drained Outcome.crashed h e = absurd (h refl)
      drained _ h e = ground arith

      more :
          (out : Outcome)
          → out ≢ Outcome.crashed
          → (x : E) (rest : List E) → s.buffer ≡ x ∷ rest
          → Progress before (count_sent batch out s)
      more Outcome.crashed h x rest e = absurd (h refl)
      more _ h x rest e = ground arith

  wake_empty :
      (o : Options) (s : Transport E)
      → s.flusher ≡ Flusher.waiting
      → s.closed ≡ true
      → s.buffer ≡ []
      → IsDrained (wake o s)
  unfolding wake fill_batch
  wake_empty o s w shut e = ground arith

  wake_batch :
      (o : Options) (s : Transport E) (m : ℕ) (x : E) (rest : List E)
      → s.flusher ≡ Flusher.waiting
      → o.batch_max ≡ suc m
      → s.buffer ≡ x ∷ rest
      → wake o s ≡ record s {
        flush_event = false;
        buffer = drop m rest;
        flusher = Flusher.sending (x ∷ take m rest);
      }
  unfolding wake
  wake_batch o s m x rest w b e =
      let filled : fill_batch o.batch_max [] s.buffer ≡ (x ∷ take m rest, drop m rest) =
        buffer-fill o s.buffer ∙ ap₂ (λ (n : ℕ) (xs : List E). (take n xs, drop n xs)) b e in
      ground (arith, filled)

  sent_stopped :
      (o : Options) (post : ℕ → Response) (s : Transport E)
      → s.flusher ≡ Flusher.stopped
      → sent o post s ≡ s
  unfolding sent
  sent_stopped o post s h = ground arith

  round_batch :
      (o : Options) (post : ℕ → Response) (s : Transport E) (m : ℕ) (x : E) (rest : List E)
      → s.flusher ≡ Flusher.waiting
      → s.closed ≡ true
      → (send o.max_retries post).outcome ≢ Outcome.crashed
      → o.batch_max ≡ suc m
      → s.buffer ≡ x ∷ rest
      → IsDrained (whole_round o post s) ⊎ Progress (length s.buffer) (whole_round o post s)
  unfolding sent
  round_batch o post s m x rest w shut fine b e =
      let batch = x ∷ take m rest in
      let t : Transport E = record s {
        flush_event = false;
        buffer = drop m rest;
        flusher = Flusher.sending batch;
      } in
      let shorter : length (drop m rest) < length s.buffer =
        omega (arith, length-drop m rest, ap length e) in
      rw (wake_batch o s m x rest w b e) (
        count_sent-Progress batch ((send o.max_retries post).outcome) (length s.buffer) t fine shut
          shorter)

  -- One round on a closed transport empties it, or shortens the buffer and waits again.
  round-Progress :
      (o : Options) (post : ℕ → Response) (s : Transport E)
      → 0 < o.batch_max
      → s.flusher ≡ Flusher.waiting
      → s.closed ≡ true
      → (send o.max_retries post).outcome ≢ Outcome.crashed
      → IsDrained (whole_round o post s) ⊎ Progress (length s.buffer) (whole_round o post s)
  round-Progress o post s pos w shut fine = elim (List-cases s.buffer) [
    | inl e ↦
        let d = wake_empty o s w shut e in
        inl (subst IsDrained (sym (sent_stopped o post (wake o s) d.stopped)) d)
    | inr (x, rest, e) ↦ round_batch o post s (o.batch_max - 1) x rest w shut fine (omega arith) e
  ]

  rounds-IsDrained :
      (fuel : ℕ) (o : Options) (posts : ℕ → ℕ → Response) (s : Transport E)
      → IsDrained s
      → IsDrained (rounds fuel o posts s)
  unfolding rounds wake sent
  rounds-IsDrained zero o posts s d = d
  rounds-IsDrained (suc fuel) o posts s d =
      rounds-IsDrained fuel o (λ i. posts (suc i)) (whole_round o (posts 0) s) (ground (arith, d))

  -- On a closed transport whose sends do not crash, more rounds than there are buffered events
  -- leave the buffer empty and the flusher at its end, whatever the server answers.
  pub close_drains :
      (fuel : ℕ) (o : Options) (posts : ℕ → ℕ → Response) (s : Transport E)
      → 0 < o.batch_max
      → s.flusher ≡ Flusher.waiting
      → s.closed ≡ true
      → ((i : ℕ) → (send o.max_retries (posts i)).outcome ≢ Outcome.crashed)
      → length s.buffer < fuel
      → ((rounds fuel o posts s).flusher ≡ Flusher.stopped) × ((rounds fuel o posts s).buffer ≡ [])
  unfolding rounds
  close_drains zero o posts s pos w shut fine h = absurd (omega arith)
  close_drains (suc fuel) o posts s pos w shut fine h =
      elim (round-Progress o (posts 0) s pos w shut (fine 0)) [
        | inl d ↦
            let d' = rounds-IsDrained fuel o (λ i. posts (suc i)) (whole_round o (posts 0) s) d in
            (d'.stopped, d'.empty)
        | inr p ↦
            close_drains fuel o (λ i. posts (suc i)) (whole_round o (posts 0) s) pos p.waits p.shut
              (λ i. fine (suc i)) (omega (arith, p.shrinks))
      ]
