-- ===== src/Chat/Registry.antt =====
-- `StreamRegistry` of apps/chat-service/chat_service/cancellation.py, with the tasks that it cancels.
-- The lock makes each operation one step. A task stands as its number.
use inferspect.Prelude.{
  ℕ, String, Bool, true, false, not, ◌&&◌, Option, none, some, List, [], ◌∷◌, ◌==◌, str_eq,
  if◌then◌else◌,
}

-- `tasks` is `_tasks`; a task may be done, and `cancel` may have been called on it.
pub record Registry : Type 0 where
  pub tasks : String → Option ℕ
  pub done : ℕ → Bool
  pub cancelled : ℕ → Bool

abbrev pub empty_registry : Registry
empty_registry = record { tasks = λ c. none; done = λ t. false; cancelled = λ t. false }

-- `task.cancel()`, which does nothing to a task that is done.
abbrev pub cancel_task : ℕ → Registry → Registry
cancel_task task r = record r {
  cancelled = λ t. if t == task && not (r.done task) then true else r.cancelled t;
}

abbrev pub is_running : Option ℕ → Registry → Bool
is_running none r = false
is_running (some task) r = not (r.done task)

abbrev cancel_existing : Option ℕ → Registry → Registry
cancel_existing none r = r
cancel_existing (some task) r = if r.done task then r else cancel_task task r

abbrev put : String → Option ℕ → Registry → Registry
put conversation task r = record r {
  tasks = λ c. if str_eq c conversation then task else r.tasks c;
}

-- The entry of the block of `register_current_task`.
unfoldable pub register : String → ℕ → Registry → Registry
register conversation task r =
    put conversation (some task) (cancel_existing (r.tasks conversation) r)

abbrev pub is_task : Option ℕ → ℕ → Bool
is_task none task = false
is_task (some t) task = t == task

-- Its `finally`.
unfoldable pub unregister : String → ℕ → Registry → Registry
unregister conversation task r =
    if is_task (r.tasks conversation) task then put conversation none r else r

abbrev cancel_found : Option ℕ → Registry → Bool × Registry
cancel_found none r = (false, r)
cancel_found (some task) r = if r.done task then (false, r) else (true, cancel_task task r)

unfoldable pub cancel : String → Registry → Bool × Registry
cancel conversation r = cancel_found (r.tasks conversation) r

unfoldable pub has_active : String → Registry → Bool
has_active conversation r = is_running (r.tasks conversation) r

-- A task ends.
abbrev pub finish : ℕ → Registry → Registry
finish task r = record r { done = λ t. if t == task then true else r.done t }

pub data Event : Type 0 where
  enters : String → ℕ → Event
  leaves : String → ℕ → Event
  cancels : String → Event
  ends : ℕ → Event

unfoldable pub happen : Event → Registry → Registry
happen (enters conversation task) r = register conversation task r
happen (leaves conversation task) r = unregister conversation task r
happen (cancels conversation) r = (cancel conversation r).1
happen (ends task) r = finish task r

unfoldable pub happen_all : List Event → Registry → Registry
happen_all [] r = r
happen_all (e ∷ events) r = happen_all events (happen e r)
