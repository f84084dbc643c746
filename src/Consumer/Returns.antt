-- ===== src/Consumer/Returns.antt =====
-- When `handle_batch` returns.
use inferspect.Prelude.{
  arith, ℕ, ◌≡◌, refl, String, Bool, true, false, Option, none, some, List, [], ◌∷◌, map,
}
use inferspect.Value.{Fields}
use inferspect.Valkey.Streams.{Entry, Streams}
use inferspect.Consumer.Decode.{RawMessage}
use inferspect.Consumer.Batch.{
  Table, Handled, wrote, Setup, sort_messages, dlq_entry, publish_failed, after_dlq, after_insert,
  write_events, handle_batch,
}

module _ (v : Streams) (w : Table) (c : Setup) where
  abbrev pub Returns : Handled × v.Store × w.Rows → Type 0
  Returns result = (n : ℕ) × (s : v.Store) × (rows : w.Rows) × (result ≡ (wrote n, s, rows))

  module _ (appends : (st : String) (e : Entry) (s : v.Store) → (v.xadd st e s).0 ≡ true) where
    publish_failed_done :
        (error : String) (evs : List Fields) (s : v.Store)
        → (publish_failed v w c error evs s).0 ≡ true
    unfolding publish_failed
    publish_failed_done error [] s = refl
    publish_failed_done error (ev ∷ evs) s =
        let e = dlq_entry v w c error ev in
        ground (
          arith,
          appends c.dlq_stream e s,
          publish_failed_done error evs (v.xadd c.dlq_stream e s).1,
        )

    after_dlq-Returns :
        (n : ℕ) (done : Bool × v.Store) (rows : w.Rows)
        → done.0 ≡ true
        → Returns (after_dlq v w c n done rows)
    after_dlq-Returns n (true, s) rows h = (n, s, rows, refl)
    after_dlq-Returns n (false, s) rows h = cc

    after_insert-Returns :
        (events : List Fields) (answer : Option String × w.Rows) (s : v.Store)
        → Returns (after_insert v w c events answer s)
    after_insert-Returns events (none, rows) s = (_, s, rows, refl)
    after_insert-Returns events (some error, rows) s =
        after_dlq-Returns 0 (publish_failed v w c error events s) rows
          (publish_failed_done error events s)

    write_events-Returns :
        (events : List Fields) (done : Bool × v.Store) (rows : w.Rows)
        → done.0 ≡ true
        → Returns (write_events v w c events done rows)
    write_events-Returns events (false, s) rows h = cc
    write_events-Returns [] (true, s) rows h = (0, s, rows, refl)
    write_events-Returns (ev ∷ evs) (true, s) rows h =
        after_insert-Returns (ev ∷ evs) (w.insert (map c.row (ev ∷ evs)) rows) s

    -- While the dead-letter stream takes every entry, `handle_batch` returns, whatever the messages are
    -- and whatever the table answers.
    pub handle_batch-Returns :
        (raws : List RawMessage) (s : v.Store) (rows : w.Rows)
        → Returns (handle_batch v w c raws s rows)
    unfolding handle_batch
    handle_batch-Returns raws s rows =
        let malformed = (sort_messages c raws).1 in
        write_events-Returns (sort_messages c raws).0
          (publish_failed v w c "malformed-message" malformed s) rows
          (publish_failed_done "malformed-message" malformed s)
