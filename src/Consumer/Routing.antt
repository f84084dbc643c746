-- ===== src/Consumer/Routing.antt =====
-- Where the messages of a batch go: to the table or to the dead-letter stream.
use mathlib.Core.List.{append-nil, append_assoc}
use inferspect.Prelude.{
  ℕ, ◌≡◌, ◌⊎◌, refl, ap, sym, ◌∙◌, str_take, inl, inr, String, Bool, true, false, Option, none,
  some, List, [], ◌∷◌, ◌++◌, map, arith, length, eq_refl,
}
use inferspect.Value.{Fields, str, obj, end, field}
use inferspect.Valkey.Streams.{Entry, Streams, StreamLaws}
use inferspect.Consumer.Decode.{RawMessage}
use inferspect.Consumer.Batch.{
  Table, wrote, Setup, sort_messages, dlq_entry, publish_failed, after_dlq, after_insert,
  write_events, handle_batch,
}

-- The events that messages decode to, and the texts of the messages that do not decode, cut at 1000
-- characters.
abbrev pub decoded : Setup → List RawMessage → List Fields
decoded c [] = []
decoded c (raw ∷ raws) =
    let later = decoded c raws in elim (c.decoder raw) [ none ↦ later | some event ↦ event ∷ later ]

abbrev pub undecoded : Setup → List RawMessage → List Fields
undecoded c [] = []
undecoded c (raw ∷ raws) =
    let later = undecoded c raws in
    elim (c.decoder raw) [
      | none ↦ field "original" (str (str_take 1000 (c.show raw))) end ∷ later
      | some event ↦ later
    ]

-- The dead-letter entries of items, with the text of the error.
abbrev pub dead_letters : Setup → String → List Fields → List Entry
dead_letters c error [] = []
dead_letters c error (item ∷ items) =
    (("payload", c.codec.dumps (obj item)) ∷ ("error", str_take 500 error) ∷ [])
    ∷ dead_letters c error items

sort_messages_lem :
    (c : Setup) (raws : List RawMessage) → sort_messages c raws ≡ (decoded c raws, undecoded c raws)
unfolding sort_messages
sort_messages_lem c [] = refl
sort_messages_lem c (raw ∷ raws) = ground (arith, sort_messages_lem c raws)

module _ (v : Streams) (w : Table) (c : Setup) (laws : StreamLaws v) where
  open laws use {stream, xadd_stream}

  publish_failed_all :
      (error : String) (evs : List Fields) (s s' : v.Store)
      → publish_failed v w c error evs s ≡ (true, s')
      → stream c.dlq_stream s' ≡ stream c.dlq_stream s ++ dead_letters c error evs
  unfolding publish_failed
  publish_failed_all error [] s s' h = ground (arith, append-nil (stream c.dlq_stream s))
  publish_failed_all error (ev ∷ evs) s s' h =
      let e = dlq_entry v w c error ev in
      ground (
        arith,
        xadd_stream c.dlq_stream c.dlq_stream e s,
        eq_refl c.dlq_stream,
        publish_failed_all error evs (v.xadd c.dlq_stream e s).1 s',
        append_assoc (stream c.dlq_stream s) (e ∷ []) (dead_letters c error evs),
      )

  -- How the batch ended: with all decoded events inserted as rows, or with an error text and none.
  abbrev pub Ended : List Fields → w.Rows → ℕ → w.Rows → List Entry → Type 0
  Ended events rows n rows' dead =
      ((n ≡ length events)
        × (dead ≡ [])
        × ((events ≡ []) × (rows' ≡ rows) ⊎ (w.insert (map c.row events) rows ≡ (none, rows'))))
      ⊎ ((n ≡ 0)
          × (error : String) × (w.insert (map c.row events) rows ≡ (some error, rows'))
          × (dead ≡ dead_letters c error events))

  after_dlq_end :
      (events : List Fields) (error : String) (rows rows₂ rows' : w.Rows) (n : ℕ) (s s' : v.Store)
      (done : Bool × v.Store)
      → publish_failed v w c error events s ≡ done
      → w.insert (map c.row events) rows ≡ (some error, rows₂)
      → after_dlq v w c 0 done rows₂ ≡ (wrote n, s', rows')
      → (dead : List Entry) × Ended events rows n rows' dead
        × (stream c.dlq_stream s' ≡ stream c.dlq_stream s ++ dead)
  after_dlq_end events error rows rows₂ rows' n s s' (true, t) p i h = (
    dead_letters c error events,
    inr (ground (arith), error, ground (arith), refl),
    ground (arith, publish_failed_all error events s t),
  )
  after_dlq_end events error rows rows₂ rows' n s s' (false, t) p i h = ground (arith)

  after_insert_end :
      (events : List Fields) (rows rows' : w.Rows) (n : ℕ) (s s' : v.Store)
      (result : Option String × w.Rows)
      → w.insert (map c.row events) rows ≡ result
      → after_insert v w c events result s ≡ (wrote n, s', rows')
      → (dead : List Entry) × Ended events rows n rows' dead
        × (stream c.dlq_stream s' ≡ stream c.dlq_stream s ++ dead)
  after_insert_end events rows rows' n s s' (none, rows₂) i h = (
    [],
    inl (ground (arith), refl, inr (ground (arith))),
    ground (arith, append-nil (stream c.dlq_stream s)),
  )
  after_insert_end events rows rows' n s s' (some error, rows₂) i h =
      after_dlq_end events error rows rows₂ rows' n s s' (publish_failed v w c error events s) refl
        i h

  write_events_end :
      (events : List Fields) (done : Bool × v.Store) (s' : v.Store) (rows rows' : w.Rows) (n : ℕ)
      → write_events v w c events done rows ≡ (wrote n, s', rows')
      → (done.0 ≡ true)
        × (dead : List Entry) × Ended events rows n rows' dead
        × (stream c.dlq_stream s' ≡ stream c.dlq_stream done.1 ++ dead)
  write_events_end events (false, s) s' rows rows' n h = ground (arith)
  write_events_end [] (true, s) s' rows rows' n h = (
    refl,
    [],
    inl (ground (arith), refl, inl (refl, ground (arith))),
    ground (arith, append-nil (stream c.dlq_stream s)),
  )
  write_events_end (ev ∷ evs) (true, s) s' rows rows' n h =
      let (dead, ended, grown) =
        after_insert_end (ev ∷ evs) rows rows' n s s' (w.insert (map c.row (ev ∷ evs)) rows) refl
          h in
      (refl, dead, ended, grown)

  -- When `handle_batch` returns n, the dead-letter stream has grown by one entry with the payload and the
  -- error for each message that does not decode, followed either by nothing (the rows of all events that
  -- the others decode to were inserted, n is their number, and no insert was made if there are none), or by
  -- one such entry for each of these events with the error of the insert (then n is 0).
  pub handle_batch_routes :
      (raws : List RawMessage) (s s' : v.Store) (rows rows' : w.Rows) (n : ℕ)
      → handle_batch v w c raws s rows ≡ (wrote n, s', rows')
      → (dead : List Entry) × Ended (decoded c raws) rows n rows' dead
        × (stream c.dlq_stream s'
            ≡ (stream c.dlq_stream s ++ dead_letters c "malformed-message" (undecoded c raws))
              ++ dead)
  unfolding handle_batch
  handle_batch_routes raws s s' rows rows' n h =
      let events = decoded c raws in
      let malformed = undecoded c raws in
      let published = publish_failed v w c "malformed-message" malformed s in
      let sorted =
        ap
          (λ (parts : List Fields × List Fields).
            write_events v w c parts.0 (publish_failed v w c "malformed-message" parts.1 s) rows)
          (sort_messages_lem c raws) in
      let (done, dead, ended, grown) =
        write_events_end events published s' rows rows' n (sym sorted ∙ h) in
      (
        dead,
        ended,
        grown
            ∙ ap (λ x. x ++ dead)
                (publish_failed_all "malformed-message" malformed s published.1
                  (ap (λ b. (b, published.1)) done)),
      )
