-- ===== src/Migrations/Environment.antt =====
-- migrations/env.py: where Alembic gets the URL of the database, offline and online. Its configuration
-- is a ConfigParser, which reads "%%" as "%" and "%(name)s" as the value of another option.
use mathlib.Core.Option as optional
use task_mesh.Base.{
  ℕ, ◌≡◌, refl, Bool, Bool-cases, inl, inr, true, false, List, [], ◌∷◌, Option, none, some, ◌==◌,
  any, if◌then◌else◌, ◌&&◌, not, ◌+◌, zero, suc, arith,
}
use task_mesh.Text.{Text}
use task_mesh.Settings.{Settings}
use task_mesh.Schema.{Table}
use task_mesh.Migrations.Models.{task_model, attempt_model}

-- `s.replace("%", "%%")`.
unfoldable pub escape : Text → Text
escape [] = []
escape (c ∷ s) = let rest = escape s in if c == b'%' then c ∷ c ∷ rest else c ∷ rest

-- `s.replace("%%", "")`.
unfoldable pub without_pairs : Text → Text
without_pairs [] = []
without_pairs (c ∷ []) = c ∷ []
without_pairs (c ∷ d ∷ s) =
    let both = without_pairs s in
    let one = without_pairs (d ∷ s) in
    if c == b'%' then (if d == b'%' then both else c ∷ one) else c ∷ one

abbrev pub add_char : ℕ → Option Text → Option Text
add_char c none = none
add_char c (some s) = some (c ∷ s)

-- The value of an option, where `reference` gives what a text that begins with "%(" stands for; a
-- "%" before any other character is an error.
unfoldable pub option_value : (Text → Option Text) → Text → Option Text
option_value reference [] = some []
option_value reference (c ∷ []) = if c == b'%' then none else some (c ∷ [])
option_value reference (c ∷ d ∷ s) =
    let both = add_char c (option_value reference s) in
    let one = add_char c (option_value reference (d ∷ s)) in
    if c == b'%'
    then (if d == b'%' then both else if d == b'(' then reference (c ∷ d ∷ s) else none)
    else one

-- The length of what is left of a reference "%(name)s" from inside of its name on.
unfoldable pub name_end : Text → Option ℕ
name_end [] = none
name_end (c ∷ []) = none
name_end (c ∷ d ∷ s) =
    let later = optional.map suc (name_end (d ∷ s)) in
    if c == b')' then (if d == b's' then some 2 else none) else later

-- The length of a reference after its "%"; its name is not empty.
unfoldable pub reference_length : Text → Option ℕ
unfolding name_end
reference_length (c ∷ d ∷ s) =
    if c == b'(' && not (d == b')') then optional.map (λ n. 2 + n) (name_end s) else none
reference_length _ = none

-- Whether a "%" is left when the references are taken out, the first `skipped` characters apart.
unfoldable pub has_stray : ℕ → Text → Bool
unfolding reference_length
has_stray skipped [] = false
has_stray (suc skipped) (c ∷ s) = has_stray skipped s
has_stray zero (c ∷ s) =
    let rest = has_stray zero s in
    if c == b'%'
    then elim (reference_length s) [ none ↦ true | some length ↦ has_stray length s ]
    else rest

-- `config.set_main_option`, which raises if a "%" is left that neither is one of a pair nor begins a
-- reference, and the value that `get_main_option` and `get_section` give afterwards.
unfoldable pub main_option : (Text → Option Text) → Text → Option Text
unfolding without_pairs has_stray option_value
main_option reference value =
    if has_stray 0 (without_pairs value) then none else option_value reference value

-- What `context.configure` is given: a URL offline, a connection to it online.
pub data Target : Type 0 where
  url connection : Text → Target

pub record MigrationContext : Type 0 where
  pub target : Target
  pub target_metadata : List Table
  pub literal_binds : Bool
  pub compare_type : Bool

abbrev pub at_url : Bool → Text → MigrationContext
at_url offline database_url = record {
  target = if offline then url database_url else connection database_url;
  target_metadata = task_model ∷ attempt_model ∷ [];
  literal_binds = offline;
  compare_type = true;
}

abbrev pub configure_at : Bool → Option Text → Option MigrationContext
configure_at offline none = none
configure_at offline (some database_url) = some (at_url offline database_url)

-- `run_migrations_offline` and `run_migrations_online`, up to the transaction of the migrations.
unfoldable pub run_environment : (Text → Option Text) → Settings → Bool → Option MigrationContext
unfolding main_option escape
run_environment reference settings offline =
    configure_at offline (main_option reference (escape settings.database_url))

has_stray_none : (s : Text) → any (λ c. c == b'%') s ≡ false → has_stray 0 s ≡ false
unfolding has_stray
has_stray_none [] clean = refl
has_stray_none (c ∷ s) clean = let rest = has_stray_none s in ground (arith, clean, rest)

without_pairs-empty : without_pairs [] ≡ []
unfolding without_pairs
without_pairs-empty = refl

option_value-empty : (reference : Text → Option Text) → option_value reference [] ≡ some []
unfolding option_value
option_value-empty reference = refl

without_pairs-other :
    (c : ℕ) (t : Text) → (c == b'%') ≡ false → without_pairs (c ∷ t) ≡ c ∷ without_pairs t
unfolding without_pairs
without_pairs-other c [] other = refl
without_pairs-other c (d ∷ t) other = rw other refl

option_value-other :
    (reference : Text → Option Text) (c : ℕ) (t : Text)
    → (c == b'%') ≡ false
    → option_value reference (c ∷ t) ≡ add_char c (option_value reference t)
unfolding option_value
option_value-other reference c [] other = rw other refl
option_value-other reference c (d ∷ t) other = rw other refl

without_pairs-percent :
    (c : ℕ) (t : Text) → (c == b'%') ≡ true → without_pairs (c ∷ c ∷ t) ≡ without_pairs t
unfolding without_pairs
without_pairs-percent c t percent = rw percent refl

option_value-percent :
    (reference : Text → Option Text) (c : ℕ) (t : Text)
    → (c == b'%') ≡ true
    → option_value reference (c ∷ c ∷ t) ≡ add_char c (option_value reference t)
unfolding option_value
option_value-percent reference c t percent = rw percent refl

without_pairs-escape : (s : Text) → any (λ c. c == b'%') (without_pairs (escape s)) ≡ false
unfolding escape
without_pairs-escape [] = rw without_pairs-empty refl
without_pairs-escape (c ∷ s) = elim (Bool-cases (c == b'%')) [
  | inl percent ↦
      rw percent (rw (without_pairs-percent c (escape s) percent) (without_pairs-escape s))
  | inr other ↦
      rw other (rw (without_pairs-other c (escape s) other, other) (without_pairs-escape s))
]

option_value-escape :
    (reference : Text → Option Text) (s : Text) → option_value reference (escape s) ≡ some s
unfolding escape
option_value-escape reference [] = option_value-empty reference
option_value-escape reference (c ∷ s) =
    let ih = option_value-escape reference s in
    elim (Bool-cases (c == b'%')) [
      | inl percent ↦ rw percent (rw (option_value-percent reference c (escape s) percent, ih) refl)
      | inr other ↦ rw other (rw (option_value-other reference c (escape s) other, ih) refl)
    ]

-- Whatever the URL of the settings contains, Alembic runs with that URL, offline on the text and online
-- on a connection: each "%" survives the configuration file, and none is read as a reference.
pub run_environment-url :
    (reference : Text → Option Text) (settings : Settings) (offline : Bool)
    → run_environment reference settings offline ≡ some (at_url offline settings.database_url)
unfolding run_environment main_option
run_environment-url reference settings offline =
    rw
      (
        has_stray_none (without_pairs (escape settings.database_url))
            (without_pairs-escape settings.database_url),
        option_value-escape reference settings.database_url,
      )
      refl
