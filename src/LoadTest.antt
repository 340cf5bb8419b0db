-- ===== src/LoadTest.antt =====
-- scripts/load_test.py: the burst of submissions and its report; LoadTest/CommandLine its command
-- line. Its floats are an interface.
pub mod Arithmetic
pub mod CommandLine
pub mod Target
pub mod Limits
pub mod Laws
use task_mesh.Base.{
  ℕ, zero, suc, ◌+◌, ◌-◌, ◌*◌, ◌/◌, ◌%◌, min, max, Bool, true, false, ◌&&◌, ◌||◌, not, List, [],
  ◌∷◌, ◌++◌, map, Option, none, some, ◌==◌, ltb, leb, if◌then◌else◌, length, take, keep, any, ◌⊎◌,
  inl, inr,
}
use task_mesh.Base.Sorting.{sorted}
use task_mesh.Text.{Text, codes, same_text}
use task_mesh.LoadTest.Arithmetic.{Floats}
use task_mesh.LoadTest.CommandLine.{ℤ, Arguments, range_length}
use task_mesh.Model.{TaskPriority, high, medium, low}

-- What httpx gives for a request: a status code, with the id of the body, or the name of the
-- `HTTPError` that it raises.
pub data Reply : Type 0 where
  status : ℕ → Text → Reply
  http_error : Text → Reply

-- `priorities[number % 3]`.
abbrev pub priority_of : ℕ → TaskPriority
priority_of number = elim (number % 3) [ zero ↦ high | suc zero ↦ medium | _ ↦ low ]

module _ ⦃floats : Floats⦄ where
  open floats use {
    Float, of_int, hundredths, add, subtract, multiply, divide, less, truth, truncate, round, fmean,
  }

  pub record SubmissionResult : Type 0 where
    pub success : Bool
    pub latency : Float
    pub task_id : Option Text
    pub error : Option Text

  -- `ordered[i]`, for an index in range.
  abbrev pub at : Float → List Float → ℕ → Float
  at fallback [] i = fallback
  at fallback (x ∷ xs) zero = x
  at fallback (x ∷ xs) (suc i) = at fallback xs i

  -- Between the two values around an index.
  abbrev pub interpolate : List Float → ℕ → Float → Float
  interpolate ordered last index =
      let lower = truncate index in
      let upper = min (lower + 1) last in
      let weight = subtract index (of_int lower) in
      add (multiply (at (of_int 0) ordered lower) (subtract (of_int 1) weight))
        (multiply (at (of_int 0) ordered upper) weight)

  unfoldable pub percentile : List Float → Float → Float
  percentile [] percent = of_int 0
  percentile (x ∷ xs) percent =
      let last = length xs in
      interpolate (sorted (λ a b. not (less b a)) (x ∷ xs)) last (multiply (of_int last) percent)

  -- `min(values)` and `max(values)`, from the first value on.
  abbrev pub smallest : Float → List Float → Float
  smallest x [] = x
  smallest x (y ∷ ys) = smallest (if less y x then y else x) ys

  abbrev pub largest : Float → List Float → Float
  largest x [] = x
  largest x (y ∷ ys) = largest (if less x y then y else x) ys

  -- `round(f(values), 4) if values else 0.0`.
  abbrev pub rounded : (Float → List Float → Float) → List Float → Float
  rounded f [] = of_int 0
  rounded f (x ∷ xs) = round (f x xs) 4

  pub record LatencySummary : Type 0 where
    pub minimum : Float
    pub mean : Float
    pub p50 : Float
    pub p95 : Float
    pub p99 : Float
    pub maximum : Float

  pub record Report : Type 0 where
    pub requests_attempted : ℕ
    pub successful_submissions : ℕ
    pub failed_submissions : ℕ
    pub submission_duration_seconds : Float
    pub requests_per_second : Float
    pub latency_seconds : LatencySummary
    pub errors : List Text

  -- `[result.error for result in results if result.error]`: an empty text counts as none.
  abbrev pub errors_of : List SubmissionResult → List Text
  errors_of [] = []
  errors_of (r ∷ rest) = elim r.error [
    | none ↦ errors_of rest
    | some [] ↦ errors_of rest
    | some (c ∷ s) ↦ (c ∷ s) ∷ errors_of rest
  ]

  unfoldable pub summarize : List SubmissionResult → Float → Report
  unfolding percentile
  summarize results duration =
      let latencies = map (λ r. r.latency) results in
      let successes = length (keep (λ r. r.success) results) in
      let attempted = length results in
      record {
        requests_attempted = attempted;
        successful_submissions = successes;
        failed_submissions = attempted - successes;
        submission_duration_seconds = round duration 4;
        requests_per_second =
            if truth duration then round (divide (of_int attempted) duration) 2 else of_int 0;
        latency_seconds = record {
          minimum = rounded smallest latencies;
          mean = rounded (λ x xs. fmean (x ∷ xs)) latencies;
          p50 = round (percentile latencies (hundredths 50)) 4;
          p95 = round (percentile latencies (hundredths 95)) 4;
          p99 = round (percentile latencies (hundredths 99)) 4;
          maximum = rounded largest latencies;
        };
        errors = take 10 (errors_of results);
      }

  -- `submit_one`, by what the server answered and how long that took; `print_code` is `str` on the code.
  unfoldable pub submit_one : (ℕ → Text) → Reply → Float → SubmissionResult
  submit_one print_code (status code id) latency =
      if code == 201
      then record { success = true; latency = latency; task_id = some id; error = none }
      else record {
        success = false;
        latency = latency;
        task_id = none;
        error = some (codes "HTTP " ++ print_code code);
      }
  submit_one print_code (http_error name) latency = record {
    success = false;
    latency = latency;
    task_id = none;
    error = some name;
  }

  -- The requests from `number` on, in the order in which `gather` gives their results.
  unfoldable pub submit_all :
      (ℕ → Text) → (ℕ → TaskPriority → Reply × Float) → ℕ → ℕ → List SubmissionResult
  unfolding submit_one
  submit_all print_code server number zero = []
  submit_all print_code server number (suc left) =
      let (reply, latency) = server number (priority_of number) in
      submit_one print_code reply latency ∷ submit_all print_code server (suc number) left

  pub record Configuration : Type 0 where
    pub base_url : Text
    pub tasks : ℤ
    pub concurrency : ℤ
    pub timeout_seconds : Float

  -- `run`, over a server that answers each request and a clock that gives the duration.
  unfoldable pub run :
      (ℕ → Text) → (ℕ → TaskPriority → Reply × Float) → Arguments → Float → Report × Configuration
  unfolding summarize submit_all
  run print_code server args duration =
      let results = submit_all print_code server 0 (range_length args.tasks) in
      (
        summarize results duration,
        record {
          base_url = args.base_url;
          tasks = args.tasks;
          concurrency = args.concurrency;
          timeout_seconds = args.timeout;
        },
      )
