-- ===== src/Sdk/Transport/State.antt =====
-- `BatchedLogTransport` as an object: its buffer, its flags, its counters and where the flusher
-- task stands. A method runs to its next `await`; `_flusher` is cut there into `wake` and `sent`.
use inferspect.Prelude.{
  ℕ, ◌+◌, ◌-◌, Bool, true, false, not, ◌&&◌, Option, none, some, List, [], ◌∷◌, ◌++◌, length, drop,
  ltb, leb, ◌==◌, if◌then◌else◌,
}
use inferspect.Sdk.Transport.Send.{Outcome, Response, send}

pub record Options : Type 0 where
  pub batch_max : ℕ
  pub queue_max : ℕ
  pub max_retries : ℕ

-- Where the flusher task stands: not started, at `wait_for`, inside `_send`, at its end, or ended
-- by an exception.
pub data Flusher {ℓ} (E : Type ℓ) : Type ℓ where
  absent waiting stopped failed : Flusher E
  sending : List E → Flusher E

-- How a call of `close` stands: it has returned, raises the exception of the flusher, or waits.
pub data Closing : Type 0 where
  closed raises waits : Closing

-- What `stats()` reports.
pub record Stats : Type 0 where
  pub queued : ℕ
  pub dropped : ℕ
  pub flushed : ℕ
  pub failed_batches : ℕ

pub record Transport {ℓ} (E : Type ℓ) : Type ℓ where
  pub buffer : List E
  pub flush_event : Bool
  pub closed : Bool
  pub flusher : Flusher E
  pub dropped_count : ℕ
  pub flushed_count : ℕ
  pub failed_batches : ℕ

module _ {ℓ} {E : Type ℓ} where
  abbrev pub init : Transport E
  init = record {
    buffer = [];
    flush_event = false;
    closed = false;
    flusher = Flusher.absent;
    dropped_count = 0;
    flushed_count = 0;
    failed_batches = 0;
  }

  abbrev pub is_empty : List E → Bool
  is_empty [] = true
  is_empty (x ∷ xs) = false

  -- `deque(maxlen=n).append(x)`: a full deque loses its oldest items.
  unfoldable pub append_max : ℕ → E → List E → List E
  append_max n x xs = let ys = xs ++ x ∷ [] in drop (length ys - n) ys

  abbrev pub start : Transport E → Transport E
  start s = elim s.flusher [ Flusher.absent ↦ record s { flusher = Flusher.waiting } | _ ↦ s ]

  -- `close` up to the wait for the task.
  abbrev pub close : Transport E → Transport E
  close s = record s { closed = true; flush_event = true }

  -- The rest of `close`, once the task has ended: `await self._task` raises the exception of a flusher
  -- that has crashed, which leaves the task in its place. A task that goes on is still waited for.
  abbrev pub close_end : Transport E → Closing × Transport E
  close_end s = elim s.flusher [
    | Flusher.stopped ↦ (Closing.closed, record s { flusher = Flusher.absent })
    | Flusher.failed ↦ (Closing.raises, s)
    | Flusher.absent ↦ (Closing.closed, s)
    | _ ↦ (Closing.waits, s)
  ]

  unfoldable pub enqueue : Options → E → Transport E → Transport E
  enqueue o e s =
      let b = append_max o.queue_max e s.buffer in
      record s {
        buffer = b;
        flush_event = if leb o.batch_max (length b) then true else s.flush_event;
      }

  -- `none` is the `IndexError` of `popleft` on an empty buffer.
  abbrev pub drop_oldest : Transport E → List E → Option (Transport E)
  drop_oldest s [] = none
  drop_oldest s (x ∷ rest) = some (record s { buffer = rest; dropped_count = s.dropped_count + 1 })

  abbrev pub enqueue_after : Options → E → Option (Transport E) → Option (Transport E)
  enqueue_after o e none = none
  enqueue_after o e (some s) = some (enqueue o e s)

  unfoldable pub submit : Options → E → Transport E → Option (Transport E)
  submit o e s =
      if s.closed
      then some s
      else if length s.buffer == o.queue_max
      then enqueue_after o e (drop_oldest s s.buffer)
      else some (enqueue o e s)

  -- `while self._buffer and len(batch) < self.batch_max`
  unfoldable pub fill_batch : ℕ → List E → List E → List E × List E
  fill_batch n batch [] = (batch, [])
  fill_batch n batch (x ∷ xs) =
      if ltb (length batch) n then fill_batch n (batch ++ x ∷ []) xs else (batch, x ∷ xs)

  -- The end of a round: `if self._closed and not self._buffer: break`.
  abbrev pub settle : Transport E → Transport E
  settle s = record s {
    flusher = if s.closed && is_empty s.buffer then Flusher.stopped else Flusher.waiting;
  }

  abbrev pub begin_send : List E → List E → Transport E → Transport E
  begin_send [] rest s = settle (record s { buffer = rest })
  begin_send (e ∷ batch) rest s = record s { buffer = rest; flusher = Flusher.sending (e ∷ batch) }

  -- A round of the flusher from its wait to the `await` of `_send`, or to the end of the round.
  unfoldable pub wake : Options → Transport E → Transport E
  wake o s = elim s.flusher [
    | Flusher.waiting ↦
        if is_empty s.buffer && not s.closed
        then record s { flush_event = false }
        else (let (batch, rest) = fill_batch o.batch_max [] s.buffer in
            begin_send batch rest (record s { flush_event = false }))
    | _ ↦ s
  ]

  abbrev pub count_sent : List E → Outcome → Transport E → Transport E
  count_sent batch Outcome.flushed s =
      settle (record s { flushed_count = s.flushed_count + length batch })
  count_sent batch Outcome.rejected s = settle (record s { failed_batches = s.failed_batches + 1 })
  count_sent batch Outcome.exhausted s = settle (record s { failed_batches = s.failed_batches + 1 })
  count_sent batch Outcome.crashed s = record s { flusher = Flusher.failed }

  -- `_send` returns, and the round ends.
  unfoldable pub sent : Options → (ℕ → Response) → Transport E → Transport E
  sent o post s = elim s.flusher [
    | Flusher.sending batch ↦ count_sent batch ((send o.max_retries post).outcome) s
    | _ ↦ s
  ]

  abbrev pub stats : Transport E → Stats
  stats s = record {
    queued = length s.buffer;
    dropped = s.dropped_count;
    flushed = s.flushed_count;
    failed_batches = s.failed_batches;
  }
