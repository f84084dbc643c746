-- ===== src/Ingestion/Control/Queue.antt =====
-- apps/ingestion-service/ingestion_service/repositories/control_queue.py
use inferspect.Prelude.{
  ℕ, zero, suc, ◌-◌, String, Option, none, some, List, [], ◌∷◌, str_append, str_eq, str_drop,
  str_len, map, if◌then◌else◌,
}
use inferspect.Value.{Value, Fields, str, obj, end, field, insert}
use inferspect.Value.Codec.{Codec}
use inferspect.Valkey.Lists.{Lists, count_or_zero}

unfoldable pub queue_key : String → String
queue_key host_id = str_append "control:queue:" host_id

unfoldable pub cursor_key : String → String
cursor_key host_id = str_append "control:cursor:" host_id

unfoldable pub heartbeat_key : String → String
heartbeat_key host_id = str_append "control:heartbeat:" host_id

abbrev unknown_command : Codec → String → Fields
unknown_command c raw = field "command" (str "unknown") (field "raw" (str raw) end)

abbrev decoded : Codec → String → Option Value → Fields
decoded c raw (some (obj fs)) = fs
decoded c raw _ = unknown_command c raw

-- `_decode`, of a reply that the client has decoded to text.
unfoldable pub decode : Codec → String → Fields
decode c raw = decoded c raw (c.loads raw)

module _ (v : Lists) (c : Codec) (ttl : ℕ) where
  -- The pipeline of `enqueue`; the new cursor is the answer of `INCR`.
  unfoldable pub enqueue : String → Fields → v.Store → ℕ × v.Store
  enqueue host_id command s =
      let s1 = v.lpush (queue_key host_id) (c.dumps (obj command)) s in
      let s2 = v.expire (queue_key host_id) ttl s1 in
      let (cursor, s3) = v.incr (cursor_key host_id) s2 in
      (cursor, v.expire (cursor_key host_id) ttl s3)

  -- `blob = metadata.copy() if metadata else {}`, then `last_seen`; `now` is the clock's text.
  unfoldable pub touch_heartbeat : String → Fields → String → v.Store → v.Store
  touch_heartbeat host_id metadata now s =
      let key = heartbeat_key host_id in
      v.expire key ttl (v.set_text key (c.dumps (obj (insert "last_seen" (str now) metadata))) s)

  abbrev pub collect : String → Option String → List Fields × v.Store → List Fields × v.Store
  collect key none later = later
  collect key (some raw) (commands, s) = (decode c raw ∷ commands, s)

  -- The loop of `await_commands`: up to `n` more commands, until the list is empty.
  unfoldable pub drain : ℕ → String → v.Store → List Fields × v.Store
  drain zero key s = ([], s)
  drain (suc n) key s =
      let (more, s') = v.rpop key s in
      elim more [
        | none ↦ ([], s')
        | some raw ↦ (let (commands, s'') = drain n key s' in (decode c raw ∷ commands, s''))
      ]

  abbrev pub with_cursor : String → List Fields × v.Store → List Fields × ℕ × v.Store
  with_cursor host_id (commands, s) =
      (commands, count_or_zero (v.get_count (cursor_key host_id) s), s)

  abbrev pub after_first : String → ℕ → Option String × v.Store → List Fields × v.Store
  after_first host_id max_batch (none, s) = ([], s)
  after_first host_id max_batch (some raw, s) =
      let (commands, s') = drain (max_batch - 1) (queue_key host_id) s in
      (decode c raw ∷ commands, s')

  unfoldable pub await_commands : String → ℕ → ℕ → String → v.Store → List Fields × ℕ × v.Store
  await_commands host_id timeout_s max_batch now s =
      let s1 = touch_heartbeat host_id end now s in
      with_cursor host_id (after_first host_id max_batch (v.brpop (queue_key host_id) timeout_s s1))

  -- `none` for a missing, empty or unreadable blob.
  abbrev pub blob_of : Option String → Option Value
  blob_of none = none
  blob_of (some raw) = if str_eq raw "" then none else c.loads raw

  unfoldable pub get_heartbeat : String → v.Store → Option Value
  get_heartbeat host_id s = blob_of (v.get_text (heartbeat_key host_id) s)

  unfoldable pub list_hosts : v.Store → List String
  list_hosts s = map (str_drop (str_len "control:heartbeat:")) (v.scan "control:heartbeat:" s)
