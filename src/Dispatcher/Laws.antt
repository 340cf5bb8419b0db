-- ===== src/Dispatcher/Laws.antt =====
-- Where a dispatched task arrives.
use task_mesh.Base.{true, ◌≡◌, refl, [], ◌∷◌, ◌++◌, some, if◌then◌else◌}
use task_mesh.Text.{same_text}
use task_mesh.Model.{Uuid, TaskPriority, high, medium, low, same_priority}
use task_mesh.Dispatcher.{UuidText, Broker, queue_for_priority, dispatch}

-- No two priorities share a queue.
pub same_queue :
    (p q : TaskPriority)
    → same_text (queue_for_priority p) (queue_for_priority q) ≡ same_priority p q
unfolding queue_for_priority same_text
same_queue high high = refl
same_queue high medium = refl
same_queue high low = refl
same_queue medium high = refl
same_queue medium medium = refl
same_queue medium low = refl
same_queue low high = refl
same_queue low medium = refl
same_queue low low = refl

module _ ⦃broker : Broker⦄ (uuid_text : UuidText) where
  open broker use {Queues, pending, pending-apply_async}
  open uuid_text use {print, parse, parse-print}

  pub dispatch_delivers :
      (task_id : Uuid) (p q : TaskPriority) (s : Queues)
      → (dispatch uuid_text task_id p s).0 ≡ true
      → (pending (queue_for_priority q) (dispatch uuid_text task_id p s).1 ≡ (
          if same_priority p q
          then pending (queue_for_priority q) s ++ print task_id ∷ []
          else pending (queue_for_priority q) s))
        × (parse (print task_id) ≡ some task_id)
  unfolding dispatch
  dispatch_delivers task_id p q s sent = (
    rw (← same_queue p q)
        (pending-apply_async (queue_for_priority q) (queue_for_priority p) (print task_id) s sent),
    parse-print task_id,
  )
