-- ===== src/Chat/Takeover.antt =====
-- Streams of one conversation that enter and leave the registry.
use mathlib.Core.Bool.{false≢true}
use inferspect.Prelude.{
  ℕ, ◌≡◌, ◌∙◌, refl, sym, ap, String, Bool, true, false, not, ◌&&◌, some, List, [], ◌∷◌, arith, inl,
  inr, Bool-cases, ◌==◌, str_eq, eq_iff, eq_refl,
}
use inferspect.Chat.Registry.{
  Registry, register, unregister, cancel, has_active, is_task, Event, enters, leaves, cancels, ends,
  happen, happen_all,
}

-- Whether an event lets `task` lose the conversation.
abbrev pub disturbs : String → ℕ → Event → Bool
disturbs conversation task (enters c t) = str_eq conversation c
disturbs conversation task (leaves c t) = str_eq conversation c && task == t
disturbs conversation task (cancels c) = false
disturbs conversation task (ends t) = task == t

abbrev pub undisturbed : String → ℕ → List Event → Bool
undisturbed conversation task [] = true
undisturbed conversation task (e ∷ events) =
    not (disturbs conversation task e) && undisturbed conversation task events

record Holds (conversation : String) (task : ℕ) (r : Registry) : Type 0 where
  owner : r.tasks conversation ≡ some task
  running : r.done task ≡ false

register-Holds :
    (conversation : String) (task : ℕ) (r : Registry)
    → r.done task ≡ false
    → Holds conversation task (register conversation task r)
unfolding register
register-Holds conversation task r h = record {
  owner = ground (arith, eq_refl conversation);
  running = ground arith;
}

happen-Holds :
    (conversation : String) (task : ℕ) (e : Event) (r : Registry)
    → disturbs conversation task e ≡ false
    → Holds conversation task r
    → Holds conversation task (happen e r)
unfolding happen register unregister cancel
happen-Holds conversation task (enters c t) r u h = record {
  owner = ground (arith, h.owner, eq_refl conversation);
  running = ground (arith, h.running);
}
happen-Holds conversation task (leaves c t) r u h = elim (Bool-cases (is_task (r.tasks c) t)) [
  | inr kept ↦ rw kept (record { owner = h.owner; running = h.running })
  | inl gone ↦ elim (Bool-cases (str_eq conversation c)) [
    | inr apart ↦ rw gone (record { owner = rw apart h.owner; running = h.running })
    | inl same ↦
        let own : r.tasks c ≡ some task =
          ap r.tasks (sym ((eq_iff conversation c).0 same)) ∙ h.owner in
        let taken : (task == t) ≡ true = ap (λ o. is_task o t) (sym own) ∙ gone in
        absurd (false≢true (sym u ∙ (rw (same, taken) refl)))
  ]
]
happen-Holds conversation task (cancels c) r u h = record {
  owner = ground (arith, h.owner, eq_refl conversation);
  running = ground (arith, h.running);
}
happen-Holds conversation task (ends t) r u h = record {
  owner = ground (arith, h.owner, eq_refl conversation);
  running = ground (arith, h.running);
}

undisturbed-Holds :
    (conversation : String) (task : ℕ) (events : List Event) (r : Registry)
    → undisturbed conversation task events ≡ true
    → Holds conversation task r
    → Holds conversation task (happen_all events r)
unfolding happen_all
undisturbed-Holds conversation task [] r u h = h
undisturbed-Holds conversation task (e ∷ events) r u h =
    undisturbed-Holds conversation task events (happen e r) (ground arith)
      (happen-Holds conversation task e r (ground arith) h)

-- After a task that is not done has entered a conversation, whatever happens except that a later one
-- enters it, that the task itself leaves it, or that the task ends: the conversation is active, and
-- `cancel` finds the task and cancels it.
pub newest_stream_stays :
    (conversation : String) (task : ℕ) (events : List Event) (r : Registry)
    → r.done task ≡ false
    → undisturbed conversation task events ≡ true
    → let r' = happen_all events (register conversation task r) in
      (has_active conversation r' ≡ true)
      × ((cancel conversation r').0 ≡ true)
      × ((cancel conversation r').1.cancelled task ≡ true)
unfolding has_active cancel
newest_stream_stays conversation task events r h u =
    let k =
      undisturbed-Holds conversation task events (register conversation task r) u
        (register-Holds conversation task r h) in
    (
      ground (arith, k.owner, k.running),
      ground (arith, k.owner, k.running),
      ground (arith, k.owner, k.running),
    )
