-- ===== src/LoadTest/Laws.antt =====
-- The report of a burst: what it counts, against what the server answered.
use task_mesh.Base.{
  ℕ, zero, suc, ◌+◌, ◌≤◌, min, ◌≡◌, refl, arith, List, [], ◌∷◌, length, keep, false, if◌then◌else◌,
  ◌==◌, Bool-cases, inl, inr, none, some, length-take,
}
use task_mesh.Text.{Text}
use task_mesh.Model.{TaskPriority}
use task_mesh.LoadTest.Arithmetic.{Floats}
use task_mesh.LoadTest.CommandLine.{Arguments, range_length}
use task_mesh.LoadTest.{
  SubmissionResult, Reply, status, http_error, submit_one, submit_all, priority_of, errors_of,
  summarize, run,
}

-- One when the answer is 201, and nothing otherwise.
abbrev pub creations : Reply → ℕ
creations (status code id) = if code == 201 then 1 else 0
creations (http_error name) = 0

module _ ⦃floats : Floats⦄ where
  open floats use {Float}

  -- How many of the requests from `number` on are answered 201.
  abbrev pub created : (ℕ → TaskPriority → Reply × Float) → ℕ → ℕ → ℕ
  created server number zero = 0
  created server number (suc left) =
      creations (server number (priority_of number)).0 + created server (suc number) left

  errors_of_named :
      (name : Text) (results : List SubmissionResult) (latency : Float)
      → length (
          errors_of (
            record { success = false; latency = latency; task_id = none; error = some name }
            ∷ results))
        ≤ suc (length (errors_of results))
  errors_of_named [] results latency = omega arith
  errors_of_named (c ∷ s) results latency = omega arith

  module _ (print_code : ℕ → Text) where
    keep-submit_one :
        (reply : Reply) (latency : Float) (results : List SubmissionResult)
        → length (keep (λ r. r.success) (submit_one print_code reply latency ∷ results))
          ≡ creations reply + length (keep (λ r. r.success) results)
    unfolding submit_one
    keep-submit_one (status code id) latency results = ground arith
    keep-submit_one (http_error name) latency results = ground arith

    errors-submit_one :
        (reply : Reply) (latency : Float) (results : List SubmissionResult)
        → length (errors_of (submit_one print_code reply latency ∷ results)) + creations reply
          ≤ suc (length (errors_of results))
    unfolding submit_one
    errors-submit_one (status code id) latency results = elim (Bool-cases (code == 201)) [
      | inl e ↦ rw (e, errors_of) (omega arith)
      | inr e ↦ rw (e, errors_of) (omega arith)
    ]
    errors-submit_one (http_error name) latency results =
        omega (arith, errors_of_named name results latency)

  module _ (print_code : ℕ → Text) (server : ℕ → TaskPriority → Reply × Float) where
    length-submit_all : (number left : ℕ) → length (submit_all print_code server number left) ≡ left
    unfolding submit_all
    length-submit_all number zero = refl
    length-submit_all number (suc left) = omega (arith, length-submit_all (suc number) left)

    created-submit_all :
        (number left : ℕ)
        → length (keep (λ r. r.success) (submit_all print_code server number left))
          ≡ created server number left
    unfolding submit_all
    created-submit_all number zero = refl
    created-submit_all number (suc left) =
        let (reply, latency) = server number (priority_of number) in
        let rest = created-submit_all (suc number) left in
        let first =
          keep-submit_one print_code reply latency
            (submit_all print_code server (suc number) left) in
        omega arith

    errors-submit_all :
        (number left : ℕ)
        → length (errors_of (submit_all print_code server number left)) + created server number left
          ≤ left
    unfolding submit_all
    errors-submit_all number zero = omega arith
    errors-submit_all number (suc left) =
        let (reply, latency) = server number (priority_of number) in
        let rest = errors-submit_all (suc number) left in
        let first =
          errors-submit_one print_code reply latency
            (submit_all print_code server (suc number) left) in
        omega arith

  -- A run reports one result for each task asked for; it counts as successful the requests that the
  -- server answered with 201 and as failed all others, and it lists at most ten errors, never more than
  -- there are failed requests.
  pub run-totals :
      (print_code : ℕ → Text) (server : ℕ → TaskPriority → Reply × Float) (args : Arguments)
      (duration : Float)
      → let (report, configuration) = run print_code server args duration in
        (report.requests_attempted ≡ range_length args.tasks)
        × (report.successful_submissions ≡ created server 0 (range_length args.tasks))
        × (report.successful_submissions + report.failed_submissions ≡ report.requests_attempted)
        × (length report.errors ≤ min 10 report.failed_submissions)
  unfolding run summarize
  run-totals print_code server args duration =
      let tasks = range_length args.tasks in
      let results = submit_all print_code server 0 tasks in
      let attempted = length-submit_all print_code server 0 tasks in
      let successful = created-submit_all print_code server 0 tasks in
      let errors = errors-submit_all print_code server 0 tasks in
      let listed = length-take 10 (errors_of results) in
      (attempted, successful, omega arith, ground arith)
