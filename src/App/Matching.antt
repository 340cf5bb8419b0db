-- ===== src/App/Matching.antt =====
-- A router that meets the interface: it splits the path at its slashes and takes the first route that
-- fits.
use task_mesh.Base.{
  ℕ, ◌≡◌, refl, ap, Bool, Bool-cases, inl, inr, true, false, List, [], ◌∷◌, ◌++◌, Option,
  Option-cases, none, some, ◌==◌, if◌then◌else◌, arith,
}
use task_mesh.Text.{Text, same_text}
use task_mesh.App.Routes.{Method, get, post, Segment, literal, param, Endpoint, Route, Router}

abbrev prepend : ℕ → List Text → List Text
prepend c [] = (c ∷ []) ∷ []
prepend c (part ∷ parts) = (c ∷ part) ∷ parts

-- The segments between slashes.
unfoldable pub split_path : Text → List Text
split_path [] = [] ∷ []
split_path (c ∷ s) = let rest = split_path s in if c == b'/' then [] ∷ rest else prepend c rest

-- The segments of a path, which begins with a slash.
abbrev pub segments : Text → List Text
segments [] = []
segments (c ∷ s) = if c == b'/' then split_path s else []

abbrev same_method : Method → Method → Bool
same_method get get = true
same_method post post = true
same_method _ _ = false

abbrev capture : Text → Option (List Text) → Option (List Text)
capture value none = none
capture value (some values) = some (value ∷ values)

-- The values of the parameters, if the path fits.
unfoldable pub match_path : List Segment → List Text → Option (List Text)
match_path [] [] = some []
match_path [] (part ∷ parts) = none
match_path (segment ∷ path) [] = none
match_path (literal text ∷ path) (part ∷ parts) =
    let rest = match_path path parts in if same_text text part then rest else none
match_path (param ∷ path) ([] ∷ parts) = none
match_path (param ∷ path) ((c ∷ s) ∷ parts) = capture (c ∷ s) (match_path path parts)

-- The first route that fits, with its parameters.
unfoldable pub first_route : Method → List Text → List Route → Option (Endpoint × List Text)
first_route method parts [] = none
first_route method parts (r ∷ rest) =
    let later = first_route method parts rest in
    if same_method r.method method
    then elim (match_path r.path parts) [ some values ↦ some (r.endpoint, values) | none ↦ later ]
    else later

same_method→eq : (m n : Method) → same_method m n ≡ true → m ≡ n
same_method→eq get get h = refl
same_method→eq post post h = refl
same_method→eq _ _ h = cc

-- `r` is one of the routes, with the method and the endpoint.
abbrev pub Found : Method → List Route → Endpoint → Type 0
Found method rs e =
    (before : List Route) × (r : Route) × (after : List Route) × (rs ≡ before ++ r ∷ after)
    × (r.method ≡ method)
    × (r.endpoint ≡ e)

pub first_route-Found :
    (method : Method) (parts : List Text) (rs : List Route) (e : Endpoint) (values : List Text)
    → first_route method parts rs ≡ some (e, values)
    → Found method rs e
unfolding first_route
first_route-Found method parts [] e values found = cc
first_route-Found method parts (r ∷ rest) e values found =
    let later : first_route method parts rest ≡ some (e, values) → Found method (r ∷ rest) e = λ h.
      let (before, q, after, there, m, same) = first_route-Found method parts rest e values h in
      (r ∷ before, q, after, ap (λ k. r ∷ k) there, m, same) in
    elim (Bool-cases (same_method r.method method)) [
      | inr other ↦ later (rw other at found)
      | inl same ↦ elim (Option-cases (match_path r.path parts)) [
        | inl apart ↦ later (rw (same, apart) at found)
        | inr (vs, fits) ↦
            let mine : r.endpoint ≡ e = ground (arith, same, fits, found) in
            ([], r, rest, refl, same_method→eq r.method method same, mine)
      ]
    ]

abbrev pub local_router : Router
local_router = record {
  find_route = λ method path rs. first_route method (segments path) rs;
  find_route-found = λ method path rs. first_route-Found method (segments path) rs;
}
