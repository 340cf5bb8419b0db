-- ===== src/LoadTest/Arithmetic.antt =====
-- What scripts/load_test.py uses of Python's floats. Their rounding, infinities and NaN are those of
-- whatever implements it: no law of arithmetic is assumed.
use task_mesh.Base.{ℕ, Bool, List}

pub record Floats : Type 1 where
  pub Float : Type 0
  pub of_int : ℕ → Float
  -- The literal with this many hundredths.
  pub hundredths : ℕ → Float
  pub add : Float → Float → Float
  pub subtract : Float → Float → Float
  pub multiply : Float → Float → Float
  pub divide : Float → Float → Float
  -- `<` and `<=`.
  pub less : Float → Float → Bool
  pub at_most : Float → Float → Bool
  -- `bool(x)`.
  pub truth : Float → Bool
  -- `int(x)` of a float that is not negative.
  pub truncate : Float → ℕ
  -- `round(x, digits)`, and `statistics.fmean`.
  pub round : Float → ℕ → Float
  pub fmean : List Float → Float
