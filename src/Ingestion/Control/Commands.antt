-- ===== src/Ingestion/Control/Commands.antt =====
-- What the operator's calls put into the outbox.
use Prim.Native.Char.{Char}
use inferspect.Prelude.{
  ℕ, ◌≡◌, ◌≢◌, ◌∙◌, not, ◌⊎◌, refl, inl, inr, String, Bool, true, false, ◌||◌, List, [], ◌∷◌, ◌++◌,
  Bool-cases, str_len, str_eq, eq_iff, eq_refl, arith, ◌==◌,
}
use inferspect.Value.{Value, Fields, ℤ, int, str, obj, end, field, get, lookup}
use inferspect.Value.Codec.{Codec}
use inferspect.Valkey.Lists.{Lists, ListLaws}
use inferspect.Ingestion.Control.Queue.{queue_key}
use inferspect.Ingestion.Control.Delivery.{enqueue_appends}
use inferspect.Ingestion.Control.Service.{
  Stamp, Reply, BadRequest, refused, bad_fingerprint, anchor_required, hash_required,
  valid_commands, is_bad_fingerprint, block_fingerprint, unblock_command, block_anchor, block_pid,
  submit_command, kill_fingerprint, unblock_fingerprint, kill_anchor, kill_pid,
}

-- The operator's calls.
pub data Call : Type 0 where
  kill : String → String → ℕ → Call
  unblock : String → Call
  kill_by_anchor : String → String → String → ℕ → Call
  kill_process : ℤ → String → ℕ → Call

abbrev pub is_bad : Call → Bool
is_bad (kill fingerprint reason t) = not (str_len fingerprint == 64)
is_bad (unblock fingerprint) = not (str_len fingerprint == 64)
is_bad (kill_by_anchor anchor hash reason t) = str_eq anchor "" || str_eq hash ""
is_bad (kill_process pid reason t) = false

cons_not_empty : (x : Char) (f : String) → String.◌∷◌ x f ≢ ""
cons_not_empty x f e = cc

-- The length decides: an empty fingerprint is not 64 characters long.
pub bad_length : (f : String) → is_bad_fingerprint f ≡ not (str_len f == 64)
bad_length String.[] = refl
bad_length (String.◌∷◌ x f) = elim (Bool-cases (str_eq (String.◌∷◌ x f) "")) [
  | inl e ↦ absurd (cons_not_empty x f ((eq_iff (String.◌∷◌ x f) "").0 e))
  | inr e ↦ rw e
]

abbrev pub member : String → List String → Bool
member k [] = false
member k (j ∷ js) = str_eq k j || member k js

abbrev pub names_valid : Value → Bool
names_valid (str k) = member k valid_commands
names_valid _ = false

module _ (v : Lists) (c : Codec) (ttl : ℕ) (st : Stamp) (host : String) where
  abbrev pub handle : Call → v.Store → Reply × v.Store
  handle (kill fingerprint reason t) s = kill_fingerprint v c ttl st host fingerprint reason t s
  handle (unblock fingerprint) s = unblock_fingerprint v c ttl st host fingerprint s
  handle (kill_by_anchor anchor hash reason t) s =
      kill_anchor v c ttl st host anchor hash reason t s
  handle (kill_process pid reason t) s = kill_pid v c ttl st host pid reason t s

module _ (v : Lists) (c : Codec) (ttl : ℕ) (laws : ListLaws v) (st : Stamp) (host : String) where
  open laws use {queue}

  kill_valid :
      (f reason : String) (t : ℕ)
      → names_valid (get "command" (block_fingerprint st f reason t)) ≡ true
  unfolding get lookup block_fingerprint
  kill_valid f reason t = refl

  unblock_valid : (f : String) → names_valid (get "command" (unblock_command st f)) ≡ true
  unfolding get lookup unblock_command
  unblock_valid f = refl

  anchor_valid :
      (a h reason : String) (t : ℕ)
      → names_valid (get "command" (block_anchor st a h reason t)) ≡ true
  unfolding get lookup block_anchor
  anchor_valid a h reason t = refl

  pid_valid :
      (p : ℤ) (reason : String) (t : ℕ)
      → names_valid (get "command" (block_pid st p reason t)) ≡ true
  unfolding get lookup block_pid
  pid_valid p reason t = refl

  -- The command is valid, and it is what was added to the host's outbox.
  record Queued (command : Fields) (s : v.Store) (r : Reply × v.Store) : Type 0 where
    pub valid : names_valid (get "command" command) ≡ true
    pub appended :
        queue (queue_key host) r.1 ≡ queue (queue_key host) s ++ c.dumps (obj command) ∷ []

  submit_queues :
      (command more : Fields) (s : v.Store)
      → names_valid (get "command" command) ≡ true
      → Queued command s (submit_command v c ttl st host command more s)
  unfolding submit_command
  submit_queues command more s h = record {
    valid = h;
    appended = ground (arith, enqueue_appends v c ttl laws host host command s, eq_refl host);
  }

  -- A call is refused and changes nothing exactly when its fingerprint is not 64 characters long or
  -- its anchor or hash is empty. Any other call puts exactly one command, of a valid kind, at the end
  -- of the host's outbox.
  pub call_queues_one :
      (call : Call) (s : v.Store)
      → ((is_bad call ≡ true) × (b : BadRequest) × (handle v c ttl st host call s ≡ (refused b, s)))
        ⊎ ((is_bad call ≡ false)
            × (command : Fields) × (names_valid (get "command" command) ≡ true)
            × (queue (queue_key host) (handle v c ttl st host call s).1
                ≡ queue (queue_key host) s ++ c.dumps (obj command) ∷ []))
  unfolding kill_fingerprint unblock_fingerprint kill_anchor kill_pid
  call_queues_one (kill fingerprint reason t) s =
      let command = block_fingerprint st fingerprint reason t in
      let q =
        submit_queues command (field "fingerprint" (str fingerprint) end) s
          (kill_valid fingerprint reason t) in
      elim (Bool-cases (is_bad (kill fingerprint reason t))) [
        | inl bad ↦ inl (bad, bad_fingerprint, rw (bad_length fingerprint ∙ bad))
        | inr good ↦ inr (good, command, q.valid, rw (bad_length fingerprint ∙ good) q.appended)
      ]
  call_queues_one (unblock fingerprint) s =
      let command = unblock_command st fingerprint in
      let q =
        submit_queues command (field "fingerprint" (str fingerprint) end) s
          (unblock_valid fingerprint) in
      elim (Bool-cases (is_bad (unblock fingerprint))) [
        | inl bad ↦ inl (bad, bad_fingerprint, rw (bad_length fingerprint ∙ bad))
        | inr good ↦ inr (good, command, q.valid, rw (bad_length fingerprint ∙ good) q.appended)
      ]
  call_queues_one (kill_by_anchor anchor hash reason t) s =
      let command = block_anchor st anchor hash reason t in
      let q = submit_queues command end s (anchor_valid anchor hash reason t) in
      elim (Bool-cases (str_eq anchor "")) [
        | inl bad ↦ inl (rw bad, anchor_required, rw bad)
        | inr good ↦ elim (Bool-cases (str_eq hash "")) [
          | inl bad ↦ inl (rw (good, bad), hash_required, rw (good, bad))
          | inr fine ↦ inr (rw (good, fine), command, q.valid, rw (good, fine) q.appended)
        ]
      ]
  call_queues_one (kill_process pid reason t) s =
      let command = block_pid st pid reason t in
      let q = submit_queues command (field "pid" (int pid) end) s (pid_valid pid reason t) in
      inr (refl, command, q.valid, q.appended)
