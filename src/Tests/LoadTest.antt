-- ===== src/Tests/LoadTest.antt =====
-- A command line whose timeout is NaN, and a run against a server that refuses every second request.
use task_mesh.Base.{
  ℕ, ◌-◌, ◌/◌, Bool, true, Option, none, ltb, leb, ◌+◌, ◌*◌, ◌%◌, ◌≤◌, ◌≡◌, ◌↔◌, false, min, length,
  [], ◌∷◌, some, inl, if◌then◌else◌, ◌==◌,
}
use task_mesh.Text.{Text, codes}
use task_mesh.Model.{TaskPriority}
use task_mesh.LoadTest.CommandLine.{Url, Arguments, pos, parse_args, strip_slashes}
use task_mesh.LoadTest.{Reply, status, run}
use task_mesh.LoadTest.Arithmetic.{Floats}
use task_mesh.LoadTest.Limits.{IsAllowed, parse_args_iff}
use task_mesh.LoadTest.Laws.{created, run-totals}

-- Whole numbers and NaN, which is at most nothing and less than nothing.
abbrev compare_numbers : (ℕ → ℕ → Bool) → Option ℕ → Option ℕ → Bool
compare_numbers test (some a) (some b) = test a b
compare_numbers test _ _ = false

abbrev both : (ℕ → ℕ → ℕ) → Option ℕ → Option ℕ → Option ℕ
both f (some a) (some b) = some (f a b)
both f _ _ = none

abbrev numbers : Floats
numbers = record {
  Float = Option ℕ;
  of_int = λ n. some n;
  hundredths = λ n. some (n / 100);
  add = both (λ a b. a + b);
  subtract = both (λ a b. a - b);
  multiply = both (λ a b. a * b);
  divide = both (λ a b. a / b);
  less = compare_numbers ltb;
  at_most = compare_numbers leb;
  truth = λ x. true;
  truncate = λ x. 0;
  round = λ x digits. x;
  fmean = λ xs. none;
}

abbrev moody : ℕ → TaskPriority → Reply × Option ℕ
moody number priority =
    (status (if number % 2 == 0 then 201 else 503) (number ∷ []), some (number + 1))

abbrev short : Arguments ⦃floats = numbers⦄
short = record {
  base_url = codes "http://localhost/";
  tasks = pos 3;
  concurrency = pos 2;
  timeout = none;
  allow_remote = false;
}

abbrev digits : ℕ → Text
digits code = code ∷ []

run-totals_example :
    let (report, configuration) = run ⦃floats = numbers⦄ digits moody short (some 12) in
    (report.requests_attempted ≡ 3)
    × (report.successful_submissions ≡ created ⦃floats = numbers⦄ moody 0 3)
    × (report.successful_submissions + report.failed_submissions ≡ report.requests_attempted)
    × (length report.errors ≤ min 10 report.failed_submissions)
run-totals_example = run-totals ⦃floats = numbers⦄ digits moody short (some 12)

abbrev parse_local : Text → Url
parse_local url = record { scheme = codes "http"; hostname = some (codes "localhost") }

parse_args_iff_example :
    (parse_args ⦃floats = numbers⦄ parse_local (λ s. s) short
      ≡ inl (record short { base_url = codes "http://localhost" }))
    ↔ (IsAllowed ⦃floats = numbers⦄ parse_local (λ s. s) short
        × (Path
            (Arguments ⦃floats = numbers⦄)
            (record short { base_url = codes "http://localhost" })
            (record short { base_url = strip_slashes short.base_url })))
parse_args_iff_example =
    parse_args_iff ⦃floats = numbers⦄ parse_local (λ s. s) short
      (record short { base_url = codes "http://localhost" })
