-- ===== src/LoadTest/Limits.antt =====
-- Which command lines `parse_args` accepts.
use task_mesh.Base.{
  ℕ, ◌≤◌, ◌≡◌, ◌↔◌, ◌⊎◌, inl, inr, refl, sym, ap, ◌∙◌, true, arith, Bool-cases, false,
}
use task_mesh.Text.{Text}
use task_mesh.LoadTest.Arithmetic.{Floats}
use task_mesh.LoadTest.Target.{IsTarget, url_of, target_ok}
use task_mesh.LoadTest.CommandLine.{
  Url, UrlError, strip_slashes, validate_base_url, ℤ, pos, negsuc, Arguments, ArgumentError,
  in_range, is_refused, parse_args,
}

abbrev pub IsInRange : ℕ → ℕ → ℤ → Type 0
IsInRange least most z = (n : ℕ) × (z ≡ pos n) × (least ≤ n) × (n ≤ most)

in_range→IsInRange :
    (least most : ℕ) (z : ℤ) → in_range least most z ≡ true → IsInRange least most z
in_range→IsInRange least most (pos n) h = (n, refl, ground arith, ground arith)
in_range→IsInRange least most (negsuc n) h = cc

IsInRange→in_range :
    (least most : ℕ) (z : ℤ) → IsInRange least most z → in_range least most z ≡ true
IsInRange→in_range least most z (n, e, low, high) = rw e (ground arith)

result_cases : (v : Text ⊎ UrlError) → ((r : Text) × (v ≡ inl r)) ⊎ ((e : UrlError) × (v ≡ inr e))
result_cases (inl r) = inl (r, refl)
result_cases (inr e) = inr (e, refl)

module _ ⦃floats : Floats⦄ where
  open floats use {Float}

  -- What the command checks of its arguments: no timeout that is 0 or less, so NaN passes.
  abbrev pub IsAllowed : (Text → Url) → (Text → Text) → Arguments → Type 0
  IsAllowed urlparse lower args =
      IsInRange 1 10000 args.tasks
      × IsInRange 1 500 args.concurrency
      × (is_refused args.timeout ≡ false)
      × IsTarget lower args.allow_remote (urlparse args.base_url)

  inl_inj : {a b : Arguments} → (Path (Arguments ⊎ ArgumentError) (inl a) (inl b)) → a ≡ b
  inl_inj h = cc

  module _ (urlparse : Text → Url) (lower : Text → Text) (args accepted : Arguments) where
    accepted_of :
        parse_args urlparse lower args ≡ inl accepted
        → IsAllowed urlparse lower args
          × (accepted ≡ record args { base_url = strip_slashes args.base_url })
    unfolding parse_args
    accepted_of h = elim (Bool-cases (in_range 1 10000 args.tasks)) [
      | inr e ↦ absurd (ground arith)
      | inl tasks ↦ elim (Bool-cases (in_range 1 500 args.concurrency)) [
        | inr e ↦ absurd (ground arith)
        | inl concurrency ↦ elim (Bool-cases (is_refused args.timeout)) [
          | inl e ↦ absurd (ground arith)
          | inr timeout ↦
              elim (result_cases
                (validate_base_url urlparse lower args.base_url args.allow_remote)) [
                  | inr (error, e) ↦ absurd (ground arith)
                  | inl (r, e) ↦
                      let (target, same) =
                        url_of urlparse lower args.base_url args.allow_remote r e in
                      (
                        (
                          in_range→IsInRange 1 10000 args.tasks tasks,
                          in_range→IsInRange 1 500 args.concurrency concurrency,
                          timeout,
                          target,
                        ),
                        inl_inj (
                            sym h
                            ∙ rw (tasks, concurrency, timeout, e, parse_args)
                                (ap (λ u. inl (record args { base_url = u })) same)),
                      )
                ]
        ]
      ]
    ]

    accepted_ok :
        IsAllowed urlparse lower args
        → parse_args urlparse lower args
          ≡ inl (record args { base_url = strip_slashes args.base_url })
    unfolding parse_args
    accepted_ok (tasks, concurrency, timeout, target) =
        rw
          (
            IsInRange→in_range 1 10000 args.tasks tasks,
            IsInRange→in_range 1 500 args.concurrency concurrency,
            timeout,
            target_ok urlparse lower args.base_url args.allow_remote target,
            parse_args,
          )
          refl

  -- `parse_args` accepts a command line exactly when it asks for 1 to 10000 tasks, 1 to 500 at a time,
  -- with a timeout that is not 0 or less, on an HTTP URL with a host, which is a loopback host unless
  -- remote ones are allowed; it changes nothing then but the slashes at the end of the URL.
  pub parse_args_iff :
      (urlparse : Text → Url) (lower : Text → Text) (args accepted : Arguments)
      → (parse_args urlparse lower args ≡ inl accepted) ↔ (
          IsAllowed urlparse lower args
          × (accepted ≡ record args { base_url = strip_slashes args.base_url }))
  parse_args_iff urlparse lower args accepted = (
    accepted_of urlparse lower args accepted,
    λ (allowed, same). accepted_ok urlparse lower args accepted allowed ∙ ap inl (sym same),
  )
