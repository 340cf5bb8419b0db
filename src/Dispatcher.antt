-- ===== src/Dispatcher.antt =====
-- app/services/dispatcher.py: the queue of a priority, and publication through Celery, which may
-- fail. A dispatcher answers whether it returned (`true`) or raised `TaskDispatchError` (`false`).
pub mod Laws
pub mod Memory
use task_mesh.Base.{Bool, true, false, ◌≡◌, List, [], ◌∷◌, ◌++◌, Option, some, if◌then◌else◌}
use task_mesh.Text.{Text, codes, same_text}
use task_mesh.Model.{Uuid, TaskPriority, high, medium, low}

abbrev pub Dispatcher : Type 0 → Type 0
Dispatcher Queues = Uuid → TaskPriority → Queues → Bool × Queues

-- `str(u)` and `UUID(s)` of the standard library: printing, then parsing, gives the UUID back.
pub record UuidText : Type 0 where
  pub print : Uuid → Text
  pub parse : Text → Option Uuid
  pub parse-print : (u : Uuid) → parse (print u) ≡ some u

-- The broker behind Celery. `apply_async arg queue` publishes a message with one argument; if it
-- returns, the message is at the end of that queue and no other queue has changed. Nothing is known
-- of the queues after a publication that raised.
pub record Broker : Type 1 where
  pub Queues : Type 0
  pub pending : Text → Queues → List Text
  pub apply_async : Text → Text → Queues → Bool × Queues
  pub pending-apply_async :
      (q queue arg : Text) (s : Queues)
      → (apply_async arg queue s).0 ≡ true
      → pending q (apply_async arg queue s).1
        ≡ (if same_text queue q then pending q s ++ arg ∷ [] else pending q s)

unfoldable pub queue_for_priority : TaskPriority → Text
queue_for_priority high = codes "high"
queue_for_priority medium = codes "medium"
queue_for_priority low = codes "low"

-- `CeleryTaskDispatcher.dispatch`.
module _ ⦃broker : Broker⦄ (uuid_text : UuidText) where
  open broker use {Queues, apply_async}

  unfoldable pub dispatch : Dispatcher Queues
  dispatch task_id priority s =
      apply_async (uuid_text.print task_id) (queue_for_priority priority) s
