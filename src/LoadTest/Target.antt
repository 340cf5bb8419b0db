-- ===== src/LoadTest/Target.antt =====
-- Which URLs `validate_base_url` accepts.
use task_mesh.Base.{
  ◌≡◌, ◌≢◌, ◌⊎◌, inl, inr, refl, sym, Bool, true, false, not, ◌&&◌, ◌||◌, Option, none, some, [],
  ◌∷◌, any, arith, Bool-cases,
}
use task_mesh.Text.{Text, codes, same_text}
use task_mesh.Text.Laws.{same_text→eq}
use task_mesh.LoadTest.CommandLine.{
  Url, loopback_hosts, strip_slashes, nonempty_host, check_host, validate_base_url,
}

abbrev pub IsHttp : Text → Type 0
IsHttp scheme = (scheme ≡ codes "http") ⊎ (scheme ≡ codes "https")

abbrev pub IsLoopback : Text → Type 0
IsLoopback host = (host ≡ codes "127.0.0.1") ⊎ (host ≡ codes "::1") ⊎ (host ≡ codes "localhost")

-- An HTTP URL with a host, one of this machine unless remote hosts are allowed.
abbrev pub IsTarget : (Text → Text) → Bool → Url → Type 0
IsTarget lower allow_remote url =
    (host : Text) × (url.hostname ≡ some host)
    × (host ≢ [])
    × IsHttp url.scheme
    × ((allow_remote ≡ true) ⊎ IsLoopback (lower host))

or_cases : (a b : Bool) → (a || b) ≡ true → (a ≡ true) ⊎ (b ≡ true)
or_cases true b h = inl refl
or_cases false b h = inr h

loopback→IsLoopback : (host : Text) → any (same_text host) loopback_hosts ≡ true → IsLoopback host
loopback→IsLoopback host h = elim (or_cases (same_text host (codes "127.0.0.1")) _ h) [
  | inl e ↦ inl (same_text→eq host (codes "127.0.0.1") e)
  | inr rest ↦ elim (or_cases (same_text host (codes "::1")) _ rest) [
    | inl e ↦ inr (inl (same_text→eq host (codes "::1") e))
    | inr last ↦ elim (or_cases (same_text host (codes "localhost")) _ last) [
      | inl e ↦ inr (inr (same_text→eq host (codes "localhost") e))
      | inr nowhere ↦ cc
    ]
  ]
]

IsLoopback→loopback : (host : Text) → IsLoopback host → any (same_text host) loopback_hosts ≡ true
unfolding same_text
IsLoopback→loopback host (inl e) = rw e refl
IsLoopback→loopback host (inr (inl e)) = rw e refl
IsLoopback→loopback host (inr (inr e)) = rw e refl

abbrev is_http : Text → Bool
is_http scheme = same_text (codes "http") scheme || same_text (codes "https") scheme

is_http→IsHttp : (scheme : Text) → is_http scheme ≡ true → IsHttp scheme
is_http→IsHttp scheme h = elim (or_cases (same_text (codes "http") scheme) _ h) [
  | inl e ↦ inl (sym (same_text→eq (codes "http") scheme e))
  | inr e ↦ inr (sym (same_text→eq (codes "https") scheme e))
]

IsHttp→is_http : (scheme : Text) → IsHttp scheme → is_http scheme ≡ true
unfolding same_text
IsHttp→is_http scheme (inl e) = rw e refl
IsHttp→is_http scheme (inr e) = rw e refl

host_cases :
    (o : Option Text)
    → (nonempty_host o ≡ none)
      ⊎ ((host : Text) × (o ≡ some host) × (host ≢ []) × (nonempty_host o ≡ some host))
host_cases none = inl refl
host_cases (some []) = inl refl
host_cases (some (c ∷ s)) = inr (c ∷ s, refl, (λ h. cc), refl)

nonempty_host_ok : (host : Text) → host ≢ [] → nonempty_host (some host) ≡ some host
nonempty_host_ok [] h = absurd (h refl)
nonempty_host_ok (c ∷ s) h = refl

remote_cases :
    (lower : Text → Text) (allow_remote : Bool) (host : Text)
    → (not allow_remote && not (any (same_text (lower host)) loopback_hosts)) ≡ false
    → (allow_remote ≡ true) ⊎ IsLoopback (lower host)
remote_cases lower true host h = inl refl
remote_cases lower false host h = inr (loopback→IsLoopback (lower host) (ground arith))

remote_ok :
    (lower : Text → Text) (allow_remote : Bool) (host : Text)
    → (allow_remote ≡ true) ⊎ IsLoopback (lower host)
    → (not allow_remote && not (any (same_text (lower host)) loopback_hosts)) ≡ false
remote_ok lower allow_remote host (inl e) = rw e refl
remote_ok lower allow_remote host (inr h) = ground (arith, IsLoopback→loopback (lower host) h)

module _ (urlparse : Text → Url) (lower : Text → Text) (base_url : Text) (allow_remote : Bool) where
  check_host_cases :
      (scheme host r : Text)
      → check_host lower base_url allow_remote scheme host ≡ inl r
      → IsHttp scheme
        × ((allow_remote ≡ true) ⊎ IsLoopback (lower host))
        × (r ≡ strip_slashes base_url)
  unfolding check_host
  check_host_cases scheme host r h = elim (Bool-cases (is_http scheme)) [
    | inl http ↦
        elim (Bool-cases (not allow_remote && not (any (same_text (lower host)) loopback_hosts))) [
          | inl remote ↦ absurd (ground arith)
          | inr near ↦
              (is_http→IsHttp scheme http, remote_cases lower allow_remote host near, ground arith)
        ]
    | inr other ↦ absurd (ground arith)
  ]

  check_host_ok :
      (scheme host : Text)
      → IsHttp scheme
      → (allow_remote ≡ true) ⊎ IsLoopback (lower host)
      → check_host lower base_url allow_remote scheme host ≡ inl (strip_slashes base_url)
  unfolding check_host
  check_host_ok scheme host http allowed =
      rw (IsHttp→is_http scheme http, remote_ok lower allow_remote host allowed) refl

  pub url_of :
      (r : Text)
      → validate_base_url urlparse lower base_url allow_remote ≡ inl r
      → IsTarget lower allow_remote (urlparse base_url) × (r ≡ strip_slashes base_url)
  unfolding validate_base_url
  url_of r h = elim (host_cases (urlparse base_url).hostname) [
    | inl e ↦ absurd (ground arith)
    | inr (host, found, full, e) ↦
        let (http, allowed, same) =
          check_host_cases (urlparse base_url).scheme host r (rw (e, validate_base_url) at h) in
        ((host, found, full, http, allowed), same)
  ]

  pub target_ok :
      IsTarget lower allow_remote (urlparse base_url)
      → validate_base_url urlparse lower base_url allow_remote ≡ inl (strip_slashes base_url)
  unfolding validate_base_url
  target_ok (host, found, full, http, allowed) =
      rw (found, nonempty_host_ok host full, validate_base_url)
        (check_host_ok (urlparse base_url).scheme host http allowed)
