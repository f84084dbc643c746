-- ===== src/Tests/Chats.antt =====
-- A second stream takes a conversation over while the first is still running.
use inferspect.Prelude.{◌≡◌, refl, true, List, [], ◌∷◌}
use inferspect.Chat.Registry.{
  Registry, empty_registry, Event, enters, leaves, cancels, ends, register, cancel, has_active,
  happen_all,
}
use inferspect.Chat.Takeover.{newest_stream_stays}

abbrev busy : Registry
busy = register "c" 1 empty_registry

-- The first stream leaves and ends after the second has entered; another conversation is cancelled.
abbrev events : List Event
events = leaves "c" 1 ∷ enters "d" 3 ∷ cancels "d" ∷ ends 1 ∷ []

abbrev after : Registry
after = happen_all events (register "c" 2 busy)

newest_stream_stays_example :
    (has_active "c" after ≡ true)
    × ((cancel "c" after).0 ≡ true)
    × ((cancel "c" after).1.cancelled 2 ≡ true)
unfolding register
newest_stream_stays_example = newest_stream_stays "c" 2 events busy refl refl
