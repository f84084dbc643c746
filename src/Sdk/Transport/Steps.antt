-- ===== src/Sdk/Transport/Steps.antt =====
-- Any interleaving of the transport's methods, as a list of actions.
use inferspect.Prelude.{
  ℕ, Bool, true, false, ◌||◌, Option, none, some, List, [], ◌∷◌, ◌++◌, length, take, ◌==◌,
  if◌then◌else◌,
}
use inferspect.Sdk.Transport.Send.{Response}
use inferspect.Sdk.Transport.State.{
  Options, Flusher, Closing, Transport, start, close, close_end, submit, wake, sent,
}

-- `sent` carries what the posts of the batch in flight meet.
pub data Action {ℓ} (E : Type ℓ) : Type ℓ where
  start_task close_begin close_done round : Action E
  submit_event : E → Action E
  send_done : (ℕ → Response) → Action E

-- The state after a list of actions, with all that was admitted and all that departed, and whether a
-- close has raised the exception of the flusher.
pub record Run {ℓ} (E : Type ℓ) : Type ℓ where
  pub state : Transport E
  pub entered : List E
  pub left : List E
  pub close_raised : Bool

module _ {ℓ} {E : Type ℓ} where
  unfoldable pub step : Options → Action E → Transport E → Option (Transport E)
  step o Action.start_task s = some (start s)
  step o Action.close_begin s = some (close s)
  step o Action.close_done s = some ((close_end s).1)
  step o Action.round s = some (wake o s)
  step o (Action.submit_event e) s = submit o e s
  step o (Action.send_done post) s = some (sent o post s)

  abbrev pub carried : Flusher E → List E
  carried (Flusher.sending batch) = batch
  carried _ = []

  abbrev pub in_flight : Transport E → List E
  in_flight s = carried s.flusher

  -- The events that an action puts into the buffer, and those that it takes from its front.
  abbrev pub admitted : Action E → Transport E → List E
  admitted (Action.submit_event e) s = if s.closed then [] else e ∷ []
  admitted _ s = []

  abbrev pub departed : Options → Action E → Transport E → List E
  departed o (Action.submit_event e) s =
      if s.closed then [] else if length s.buffer == o.queue_max then take 1 s.buffer else []
  departed o Action.round s = elim s.flusher [ Flusher.waiting ↦ in_flight (wake o s) | _ ↦ [] ]
  departed o _ s = []

  -- Only the end of a close raises, and only where the flusher has crashed.
  abbrev pub does_raise : Action E → Transport E → Bool
  does_raise Action.close_done s = elim ((close_end s).0) [ Closing.raises ↦ true | _ ↦ false ]
  does_raise _ s = false

  abbrev log : List E → List E → Bool → Option (Run E) → Option (Run E)
  log a d b none = none
  log a d b (some r) = some (record r {
    entered = a ++ r.entered;
    left = d ++ r.left;
    close_raised = b || r.close_raised;
  })

  abbrev pub and_then : Option (Transport E) → (Transport E → Option (Run E)) → Option (Run E)
  and_then none k = none
  and_then (some s) k = k s

  unfoldable pub run : Options → List (Action E) → Transport E → Option (Run E)
  run o [] s = some (record { state = s; entered = []; left = []; close_raised = false })
  run o (a ∷ actions) s =
      and_then (step o a s)
        (λ s'. log (admitted a s) (departed o a s) (does_raise a s) (run o actions s'))
