-- ===== src/Execution/Laws.antt =====
-- Which jobs the handlers accept.
use task_mesh.Base.{◌≡◌, ◌↔◌, true, Option, none, some, arith, sym, Bool-cases, inl, inr}
use task_mesh.Text.{Text, codes, same_text}
use task_mesh.Text.Laws.{has_ink, strip-ink, same_text_refl, same_text→eq}
use task_mesh.Model.Json.{Json, string, Fields, get}
use task_mesh.Execution.{retryable_error, check_message, handle_echo, execute_job}

-- The payload has a string under "message", with a character that is no space.
abbrev pub HasMessage : Fields → Type 0
HasMessage payload =
    (message : Text) × (get (codes "message") payload ≡ some (string message))
    × (has_ink message ≡ true)

check_message-eq-none :
    (o : Option Json)
    → check_message o ≡ none
    → (message : Text) × (o ≡ some (string message)) × (has_ink message ≡ true)
check_message-eq-none (some (string message)) h =
    (message, ground arith, ground (arith, strip-ink message))
check_message-eq-none _ h = cc

check_message_ok :
    (message : Text) → has_ink message ≡ true → check_message (some (string message)) ≡ none
check_message_ok message h = ground (arith, strip-ink message)

-- A job runs to its end exactly when its type is "echo" and its payload carries a message.
pub execute_job_iff :
    (task_type : Text) (payload : Fields)
    → (execute_job task_type payload ≡ none) ↔ ((task_type ≡ codes "echo") × HasMessage payload)
unfolding execute_job handle_echo
execute_job_iff task_type payload = (
  λ h. elim (Bool-cases (same_text (codes "echo") task_type)) [
    | inl same ↦ (
      sym (same_text→eq (codes "echo") task_type same),
      check_message-eq-none (get (codes "message") payload) (rw (same, execute_job) at h),
    )
    | inr other ↦ absurd (ground arith)
  ],
  λ (same, (message, found, ink)).
      rw (same, execute_job, same_text_refl (codes "echo"), found) (check_message_ok message ink),
)

check_message-ne-retryable :
    (o : Option Json) (message : Text) → ¬ (check_message o ≡ some (retryable_error message))
check_message-ne-retryable (some (string text)) message h = ground arith
check_message-ne-retryable _ message h = cc

-- No handler asks for a retry.
pub execute_job-ne-retryable :
    (task_type message : Text) (payload : Fields)
    → ¬ (execute_job task_type payload ≡ some (retryable_error message))
unfolding execute_job handle_echo
execute_job-ne-retryable task_type message payload h =
    ground (arith, check_message-ne-retryable (get (codes "message") payload) message)
