-- ===== src/Lifecycle/Retry/Laws.antt =====
-- Bounds of the retry delay and of the recorded error message.
use native.Mathlib.Nat.{pow-le-pow_right}
use native.Mathlib.Decide.{dec_le}
use task_mesh.Base.{
  ℕ, zero, suc, ◌+◌, min, ◌^◌, ◌≤◌, ◌<◌, ◌≡◌, refl, ◌⊎◌, inl, inr, true, [], ◌∷◌, ◌++◌, arith,
  length, take, length-take,
}
use task_mesh.Text.{Text, is_nonempty, or_else, strip}
use task_mesh.Execution.{JobError, execution_error, retryable_error, other_error}
use task_mesh.Errors.{ok, raise, value_error}
use task_mesh.Lifecycle.Retry.{retry_countdown, message_of, safe_error_message}

pow-le_sixteen : (n : ℕ) → n ≤ 4 → 2 ^ n ≤ 16
pow-le_sixteen n h = pow-le-pow_right {n = 2} (omega arith) h

pow-ge_sixteen : (n : ℕ) → 4 < n → 16 ≤ 2 ^ n
pow-ge_sixteen n h = pow-le-pow_right {n = 2} (omega arith) {i = 4} {j = n} (omega arith)

-- The delay of the retry number `n`: refused at 0, then 2 ^ n seconds up to the fourth retry, and 16
-- seconds from there on.
pub retry_countdown_cases :
    (n : ℕ)
    → ((n ≡ 0) × (retry_countdown n ≡ raise value_error))
      ⊎ ((1 ≤ n) × (n ≤ 4) × (retry_countdown n ≡ ok (2 ^ n)))
      ⊎ ((4 < n) × (retry_countdown n ≡ ok 16))
unfolding retry_countdown
retry_countdown_cases zero = inl (refl, refl)
retry_countdown_cases (suc n) = elim (dec_le (suc n) 4) [
  | yes h ↦ inr (inl (omega arith, h, ground (arith, pow-le_sixteen (suc n) h)))
  | no h ↦ inr (inr (omega arith, ground (arith, pow-ge_sixteen (suc n))))
]

-- With a number of at least 1 there is a delay, of 2 to 16 seconds.
pub retry_countdown_bounds :
    (n : ℕ) → 1 ≤ n → (c : ℕ) × (retry_countdown n ≡ ok c) × (2 ≤ c) × (c ≤ 16)
retry_countdown_bounds n h = elim (retry_countdown_cases n) [
  | inl (z, _) ↦ absurd (omega arith)
  | inr (inl (_, low, e)) ↦
      (2 ^ n, e, pow-le-pow_right {n = 2} (omega arith) {i = 1} h, pow-le_sixteen n low)
  | inr (inr (_, e)) ↦ (16, e, omega arith, omega arith)
]

or_else_nonempty : (s t : Text) → is_nonempty t ≡ true → is_nonempty (or_else s t) ≡ true
unfolding or_else
or_else_nonempty [] t h = h
or_else_nonempty (c ∷ s) t h = refl

append_nonempty : (s t : Text) → is_nonempty t ≡ true → is_nonempty (s ++ t) ≡ true
append_nonempty [] t h = h
append_nonempty (c ∷ s) t h = refl

take_nonempty : (n : ℕ) (s : Text) → is_nonempty s ≡ true → is_nonempty (take (suc n) s) ≡ true
take_nonempty n [] h = h
take_nonempty n (c ∷ s) h = refl

message_of_nonempty : (exc : JobError) → is_nonempty (message_of exc) ≡ true
message_of_nonempty (execution_error m) = or_else_nonempty (strip m) _ refl
message_of_nonempty (retryable_error m) = or_else_nonempty (strip m) _ refl
message_of_nonempty (other_error name) = append_nonempty name _ refl

-- Whatever a handler raises, the recorded message has between 1 and 2000 characters.
pub safe_error_message_bounds :
    (exc : JobError)
    → (is_nonempty (safe_error_message exc) ≡ true) × (length (safe_error_message exc) ≤ 2000)
unfolding safe_error_message
safe_error_message_bounds exc = (
  take_nonempty 1999 (message_of exc) (message_of_nonempty exc),
  omega (arith, length-take 2000 (message_of exc)),
)

pub retry_countdown-suc : (n : ℕ) → retry_countdown (n + 1) ≡ ok (min (2 ^ (n + 1)) 16)
unfolding retry_countdown
retry_countdown-suc n = ground arith
