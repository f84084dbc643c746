-- ===== src/Ingestion/Control/Service.antt =====
-- apps/ingestion-service/ingestion_service/services/control_service.py: the operator's commands.
use inferspect.Prelude.{
  ℕ, String, Bool, not, ◌||◌, Option, none, some, List, [], ◌∷◌, str_eq, str_len, ◌==◌,
  if◌then◌else◌,
}
use inferspect.Value.{
  Value, Items, Fields, ℤ, pos, int, str, arr, obj, nil, cons, end, field, truthy, update,
}
use inferspect.Value.Codec.{Codec}
use inferspect.Valkey.Lists.{Lists}
use inferspect.Ingestion.Control.Queue.{enqueue, await_commands, get_heartbeat, list_hosts}

-- What one call takes from its surroundings: `datetime.now(UTC).isoformat()` and `str(uuid4())`.
pub record Stamp : Type 0 where
  pub issued_at : String
  pub command_id : String

pub data BadRequest : Type 0 where
  bad_fingerprint anchor_required hash_required : BadRequest

-- A `ValueError`, or the reply.
pub data Reply : Type 0 where
  refused : BadRequest → Reply
  queued : Fields → Reply

abbrev pub valid_commands : List String
valid_commands =
    "block_fingerprint" ∷ "block_pid" ∷ "unblock_fingerprint" ∷ "block_anchor" ∷ "unblock_anchor"
    ∷ []

-- `not fingerprint or len(fingerprint) != 64`
abbrev pub is_bad_fingerprint : String → Bool
is_bad_fingerprint f = str_eq f "" || not (str_len f == 64)

abbrev stamped : Stamp → Fields
stamped st = field "issued_at" (str st.issued_at) (field "command_id" (str st.command_id) end)

unfoldable pub block_fingerprint : Stamp → String → String → ℕ → Fields
block_fingerprint st fingerprint reason ttl = field "command" (str "block_fingerprint") (
    field "fingerprint" (str fingerprint)
      (field "reason" (str reason) (field "ttl_seconds" (int (pos ttl)) (stamped st))))

unfoldable pub unblock_command : Stamp → String → Fields
unblock_command st fingerprint =
    field "command" (str "unblock_fingerprint") (field "fingerprint" (str fingerprint) (stamped st))

unfoldable pub block_anchor : Stamp → String → String → String → ℕ → Fields
block_anchor st anchor_b64 expected_hash_b64 reason ttl = field "command" (str "block_anchor") (
    field "anchor_b64" (str anchor_b64) (
      field "expected_hash_b64" (str expected_hash_b64)
        (field "reason" (str reason) (field "ttl_seconds" (int (pos ttl)) (stamped st)))))

unfoldable pub block_pid : Stamp → ℤ → String → ℕ → Fields
block_pid st pid reason ttl = field "command" (str "block_pid") (
    field "pid" (int pid)
      (field "reason" (str reason) (field "ttl_seconds" (int (pos ttl)) (stamped st))))

module _ (v : Lists) (c : Codec) (queue_ttl : ℕ) where
  abbrev cursor_text : ℕ → Value
  cursor_text cursor = str (c.text (int (pos cursor)))

  abbrev reply_for : Stamp → String → ℕ → Fields → Reply
  reply_for st host_id cursor more = queued (
      field "command_id" (str st.command_id)
        (field "cursor" (cursor_text cursor) (field "host_id" (str host_id) more)))

  -- `enqueue` and the reply, whose keys stand in another order than the source's.
  unfoldable pub submit_command : Stamp → String → Fields → Fields → v.Store → Reply × v.Store
  submit_command st host_id command more s =
      let (cursor, s') = enqueue v c queue_ttl host_id command s in
      (reply_for st host_id cursor more, s')

  unfoldable pub kill_fingerprint : Stamp → String → String → String → ℕ → v.Store → Reply × v.Store
  kill_fingerprint st host_id fingerprint reason ttl s =
      if is_bad_fingerprint fingerprint
      then (refused bad_fingerprint, s)
      else submit_command st host_id (block_fingerprint st fingerprint reason ttl)
          (field "fingerprint" (str fingerprint) end) s

  unfoldable pub unblock_fingerprint : Stamp → String → String → v.Store → Reply × v.Store
  unblock_fingerprint st host_id fingerprint s =
      if is_bad_fingerprint fingerprint
      then (refused bad_fingerprint, s)
      else submit_command st host_id (unblock_command st fingerprint)
          (field "fingerprint" (str fingerprint) end) s

  unfoldable pub kill_anchor :
      Stamp → String → String → String → String → ℕ → v.Store → Reply × v.Store
  kill_anchor st host_id anchor_b64 expected_hash_b64 reason ttl s =
      if str_eq anchor_b64 ""
      then (refused anchor_required, s)
      else if str_eq expected_hash_b64 ""
      then (refused hash_required, s)
      else submit_command st host_id (block_anchor st anchor_b64 expected_hash_b64 reason ttl) end s

  unfoldable pub kill_pid : Stamp → String → ℤ → String → ℕ → v.Store → Reply × v.Store
  kill_pid st host_id pid reason ttl s =
      submit_command st host_id (block_pid st pid reason ttl) (field "pid" (int pid) end) s

  abbrev items_of : List Fields → Items
  items_of [] = nil
  items_of (f ∷ fs) = cons (obj f) (items_of fs)

  abbrev await_reply : String → List Fields × ℕ × v.Store → Fields × v.Store
  await_reply host_id (commands, cursor, s) = (
    field "host_id" (str host_id)
        (field "commands" (arr (items_of commands)) (field "cursor" (cursor_text cursor) end)),
    s,
  )

  -- `await_commands`, whose batch is the queue's default of 32.
  unfoldable pub poll_commands : String → ℕ → String → v.Store → Fields × v.Store
  poll_commands host_id timeout_s now s =
      await_reply host_id (await_commands v c queue_ttl host_id timeout_s 32 now s)

  -- `{"host_id": host_id, **heartbeat}`; `none` is the `TypeError` of a heartbeat that is no dict.
  abbrev pub host_entry : String → Option Value → Option Fields
  host_entry host_id none = some (field "host_id" (str host_id) end)
  host_entry host_id (some (obj fs)) = some (update fs (field "host_id" (str host_id) end))
  host_entry host_id (some v) = if truthy v then none else some (field "host_id" (str host_id) end)

  abbrev pub entries_for : List String → v.Store → Option (List Fields)
  entries_for [] s = some []
  entries_for (h ∷ hs) s = elim (host_entry h (get_heartbeat v c queue_ttl h s)) [
    | none ↦ none
    | some e ↦ elim (entries_for hs s) [ none ↦ none | some es ↦ some (e ∷ es) ]
  ]

  unfoldable pub list_agents : v.Store → Option (List Fields)
  list_agents s = entries_for (list_hosts v c queue_ttl s) s
