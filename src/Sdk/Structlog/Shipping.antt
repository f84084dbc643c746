-- ===== src/Sdk/Structlog/Shipping.antt =====
-- What an application log carries, and what the processor does with it.
use inferspect.Prelude.{
  ◌≤◌, ◌≡◌, ◌⊎◌, refl, inl, inr, String, Option, none, some, arith, ltb, Bool-cases, Option-cases,
  if◌then◌else◌,
}
use inferspect.Value.{Fields, lookup, lookup-without}
use inferspect.Sdk.Schema.{ApplicationLog}
use inferspect.Sdk.Pii.{Patterns}
use inferspect.Sdk.Pii.Walk.{redacted, lookup-redact_dict}
use inferspect.Sdk.Structlog.{
  Surroundings, Processor, level_to_int, is_reserved, attributes_of, log_of, level_text, process,
}
use inferspect.Sdk.Transport.State.{Options, Transport, submit}

module _ (p : Patterns) (env : Surroundings) (proc : Processor) where
  -- The attributes of the log that is shipped are the values of the event dict but for the four
  -- reserved keys, each redacted if the processor redacts.
  pub attributes_shipped :
      (level k : String) (event : Fields)
      → lookup k (log_of p env proc level event).attributes ≡ (
          if is_reserved k
          then none
          else if proc.pii_redact
          then redacted p proc.pii_recognizers (lookup k event)
          else lookup k event)
  unfolding log_of
  attributes_shipped level k event = ground (
    arith,
    lookup-without is_reserved k event,
    lookup-redact_dict p proc.pii_recognizers k (attributes_of event),
  )

  -- Whatever the event dict is, it goes on as it was and nothing is raised. The transport stays as it
  -- was, or it has taken the log of the event, whose level is then at least the processor's.
  pub process_passes_on {ℓ} :
      {E : Type ℓ} (dump : ApplicationLog → Option E) (o : Options) (method_name : String)
      (event : Fields) (t : Transport E)
      → let level = level_text p env proc method_name event in
        let (event', t') = process p env proc dump o method_name event t in
        (event' ≡ event)
        × ((t' ≡ t)
            ⊎ ((e : E) × (proc.min_level ≤ level_to_int env level)
                × (dump (log_of p env proc level event) ≡ some e)
                × (submit o e t ≡ some t')))
  unfolding process
  process_passes_on dump o method_name event t =
      let level = level_text p env proc method_name event in
      elim (Bool-cases (ltb (level_to_int env level) proc.min_level)) [
        | inl low ↦ rw low (refl, inl refl)
        | inr high ↦ elim (Option-cases (dump (log_of p env proc level event))) [
          | inl none_left ↦ rw (high, none_left) (refl, inl refl)
          | inr (e, dumped) ↦ elim (Option-cases (submit o e t)) [
            | inl raised ↦ rw (high, dumped, raised) (refl, inl refl)
            | inr (t', taken) ↦ rw (high, dumped, taken) (refl, inr (e, ground arith, refl, taken))
          ]
        ]
      ]
