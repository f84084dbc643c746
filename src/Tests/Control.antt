-- ===== src/Tests/Control.antt =====
-- The control queue over lists in memory.
use inferspect.Prelude.{
  suc, ◌≡◌, ◌++◌, refl, some, none, [], ◌∷◌, map, arith, str_eq, if◌then◌else◌,
}
use inferspect.Value.{Fields, str, obj, end, field}
use inferspect.Value.Codec.{Codec}
use inferspect.Valkey.Lists.{count_or_zero}
use inferspect.Ingestion.Control.Queue.{queue_key, cursor_key, enqueue, await_commands}
use inferspect.Ingestion.Control.Delivery.{enqueue_appends, await_delivers}
use inferspect.Ingestion.Control.Service.{Stamp}
use inferspect.Tests.Memory.{lists, list_laws, two_texts}

abbrev command : Fields
command = field "command" (str "block_pid") end

abbrev pub codec : Codec
codec = two_texts command end

-- Three commands wait for the host.
abbrev waiting : lists.Store
waiting = (
  λ k. if str_eq k "control:queue:h" then "inner" ∷ "inner" ∷ "inner" ∷ [] else [],
  λ k. if str_eq k "control:cursor:h" then some 3 else none,
  λ k. none,
)

three_wait :
    waiting.0 (queue_key "h") ≡ map (λ g. codec.dumps (obj g)) (command ∷ command ∷ command ∷ [])
unfolding queue_key
three_wait = refl

await_delivers_example :
    let (commands, cursor, s) = await_commands lists codec 60 "h" 5 2 "now" waiting in
    (commands ≡ command ∷ command ∷ [])
    × (s.0 (queue_key "h") ≡ map (λ g. codec.dumps (obj g)) (command ∷ []))
    × (cursor ≡ count_or_zero (waiting.1 (cursor_key "h")))
await_delivers_example =
    await_delivers lists codec 60 list_laws "h" "now" 5 2 command (command ∷ command ∷ []) waiting
      (omega arith) (refl, (refl, (refl, tt))) three_wait

enqueued :
    let (cursor, s) = enqueue lists codec 60 "h" command waiting in
    (s.0 (queue_key "g") ≡ (
      if str_eq "h" "g"
      then waiting.0 (queue_key "g") ++ "inner" ∷ []
      else waiting.0 (queue_key "g")))
    × (cursor ≡ suc (count_or_zero (waiting.1 (cursor_key "h"))))
    × (s.1 (cursor_key "h") ≡ some cursor)
enqueued = enqueue_appends lists codec 60 list_laws "h" "g" command waiting

abbrev pub stamp : Stamp
stamp = record { issued_at = "now"; command_id = "c1" }
