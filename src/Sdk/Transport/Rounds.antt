-- ===== src/Sdk/Transport/Rounds.antt =====
-- What a round of the flusher takes from the buffer.
use mathlib.Core.List.{append-nil, append_assoc}
use inferspect.Prelude.{
  ℕ, zero, suc, ◌+◌, ◌≡◌, ◌≢◌, refl, ◌⊎◌, inl, inr, false, List, [], ◌∷◌, ◌++◌, arith, length, take,
  drop, length-append, take-append-drop,
}
use inferspect.Sdk.Transport.Send.{Response}
use inferspect.Sdk.Transport.State.{Options, Flusher, Transport, fill_batch, begin_send, wake, sent}
use inferspect.Sdk.Transport.Steps.{in_flight}

module _ {ℓ} {E : Type ℓ} where
  -- The batch loop takes what there is room for, from the front.
  pub fill_batch_lem :
      (n k : ℕ) (batch xs : List E)
      → length batch + k ≡ n
      → fill_batch n batch xs ≡ (batch ++ take k xs, drop k xs)
  unfolding fill_batch
  fill_batch_lem n zero batch [] h = rw append-nil
  fill_batch_lem n (suc k) batch [] h = rw append-nil
  fill_batch_lem n zero batch (x ∷ xs) h = rw append-nil (ground arith)
  fill_batch_lem n (suc k) batch (x ∷ xs) h =
      let ih =
        fill_batch_lem n k (batch ++ x ∷ []) xs (omega (arith, length-append batch (x ∷ []))) in
      ground (arith, ih, append_assoc batch (x ∷ []) (take k xs))

  pub buffer-fill :
      (o : Options) (xs : List E)
      → fill_batch o.batch_max [] xs ≡ (take o.batch_max xs, drop o.batch_max xs)
  buffer-fill o xs = fill_batch_lem o.batch_max o.batch_max [] xs (omega arith)

  begin_send-moves :
      (batch rest : List E) (s : Transport E)
      → in_flight (begin_send batch rest s) ++ (begin_send batch rest s).buffer ≡ batch ++ rest
  begin_send-moves [] rest s = ground arith
  begin_send-moves (e ∷ batch) rest s = refl

  -- A round moves the front of the buffer into the batch in flight.
  pub wake-moves :
      (o : Options) (s : Transport E)
      → s.flusher ≡ Flusher.waiting
      → in_flight (wake o s) ++ (wake o s).buffer ≡ s.buffer
  unfolding wake
  wake-moves o s w =
      let t : Transport E = record s { flush_event = false } in
      let n = o.batch_max in
      rw (w, buffer-fill o s.buffer)
        (ground (
          arith,
          begin_send-moves (take n s.buffer) (drop n s.buffer) t,
          take-append-drop n s.buffer,
        ))

  pub wake-idle : (o : Options) (s : Transport E) → s.flusher ≢ Flusher.waiting → wake o s ≡ s
  unfolding wake
  wake-idle o s h = ground arith

  pub buffer-sent :
      (o : Options) (post : ℕ → Response) (s : Transport E) → (sent o post s).buffer ≡ s.buffer
  unfolding sent
  buffer-sent o post s = ground arith

  pub waiting-cases : (f : Flusher E) → (f ≡ Flusher.waiting) ⊎ (f ≢ Flusher.waiting)
  waiting-cases Flusher.waiting = inl refl
  waiting-cases _ = inr cc
