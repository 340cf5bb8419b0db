-- ===== src/LoadTest/CommandLine.antt =====
-- scripts/load_test.py: the command line, `validate_base_url` and `parse_args`.
use task_mesh.Base.{
  ℕ, Bool, false, ◌&&◌, ◌||◌, not, List, [], ◌∷◌, Option, none, some, ◌==◌, leb, if◌then◌else◌, any,
  ◌⊎◌, inl, inr,
}
use task_mesh.LoadTest.Arithmetic.{Floats}
use task_mesh.Text.{Text, codes, same_text}

-- The parts of a URL that `urlparse` gives.
pub record Url : Type 0 where
  pub scheme : Text
  pub hostname : Option Text

abbrev pub loopback_hosts : List Text
loopback_hosts = codes "127.0.0.1" ∷ codes "::1" ∷ codes "localhost" ∷ []

-- `base_url.rstrip("/")`.
unfoldable pub strip_slashes : Text → Text
strip_slashes [] = []
strip_slashes (c ∷ s) = elim (strip_slashes s) [
  | [] ↦ if c == b'/' then [] else c ∷ []
  | d ∷ rest ↦ c ∷ d ∷ rest
]

pub data UrlError : Type 0 where
  not_absolute remote_disabled : UrlError

abbrev pub nonempty_host : Option Text → Option Text
nonempty_host none = none
nonempty_host (some []) = none
nonempty_host (some (c ∷ s)) = some (c ∷ s)

-- `validate_base_url` on a URL with this host.
unfoldable pub check_host : (Text → Text) → Text → Bool → Text → Text → Text ⊎ UrlError
unfolding strip_slashes
check_host lower base_url allow_remote scheme hostname =
    if not (same_text (codes "http") scheme || same_text (codes "https") scheme)
    then inr not_absolute
    else if not allow_remote && not (any (same_text (lower hostname)) loopback_hosts)
    then inr remote_disabled
    else inl (strip_slashes base_url)

-- `validate_base_url`; `urlparse` and `lower` are the standard library's.
unfoldable pub validate_base_url : (Text → Url) → (Text → Text) → Text → Bool → Text ⊎ UrlError
unfolding check_host
validate_base_url urlparse lower base_url allow_remote =
    let parsed = urlparse base_url in
    elim (nonempty_host parsed.hostname) [
      | none ↦ inr not_absolute
      | some hostname ↦ check_host lower base_url allow_remote parsed.scheme hostname
    ]

pub data ℤ : Type 0 where
  pos negsuc : ℕ → ℤ

-- The namespace of `argparse`.
module _ ⦃floats : Floats⦄ where
  open floats use {Float}

  pub record Arguments : Type 0 where
    pub base_url : Text
    pub tasks : ℤ
    pub concurrency : ℤ
    pub timeout : Float
    pub allow_remote : Bool

pub data ArgumentError : Type 0 where
  tasks_out_of_range concurrency_out_of_range timeout_not_positive : ArgumentError
  bad_url : UrlError → ArgumentError

-- `least <= n <= most`.
abbrev pub in_range : ℕ → ℕ → ℤ → Bool
in_range least most (pos n) = leb least n && leb n most
in_range least most (negsuc n) = false

module _ ⦃floats : Floats⦄ where
  open floats use {Float, of_int, at_most}

  -- `timeout <= 0`, which no comparison with NaN is.
  abbrev pub is_refused : Float → Bool
  is_refused timeout = at_most timeout (of_int 0)

  -- `parse_args`, from the namespace on; `parser.error` ends the program.
  unfoldable pub parse_args : (Text → Url) → (Text → Text) → Arguments → Arguments ⊎ ArgumentError
  parse_args urlparse lower args =
      if not (in_range 1 10000 args.tasks)
      then inr tasks_out_of_range
      else if not (in_range 1 500 args.concurrency)
      then inr concurrency_out_of_range
      else if is_refused args.timeout
      then inr timeout_not_positive
      else elim (validate_base_url urlparse lower args.base_url args.allow_remote) [
        | inl base_url ↦ inl (record args { base_url = base_url })
        | inr e ↦ inr (bad_url e)
      ]

-- The length of `range(n)`.
abbrev pub range_length : ℤ → ℕ
range_length (pos n) = n
range_length (negsuc n) = 0
