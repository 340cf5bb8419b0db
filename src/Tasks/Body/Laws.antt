-- ===== src/Tasks/Body/Laws.antt =====
-- Which bodies a submission may have.
use task_mesh.Base.{
  ◌≡◌, ◌≤◌, ◌↔◌, ◌⊎◌, inl, inr, refl, sym, ap, ◌∙◌, Bool, true, Bool-cases, Option, none, some,
  arith, length,
}
use task_mesh.Text.{Text, codes, same_text}
use task_mesh.Text.Laws.{same_text→eq}
use task_mesh.Model.{TaskPriority, high, medium, low}
use task_mesh.Model.Json.{Json, string, object, Fields, get}
use task_mesh.Tasks.{TaskCreate}
use task_mesh.Tasks.Body.{
  priority_value, priority_of_value, valid_priority, fitting, valid_task_type, valid_payload,
  only_fields, all_valid, validate_task_create,
}

abbrev pub HasType : (Text → Text) → Option Json → Text → Type 0
HasType strip o t =
    (s : Text) × (o ≡ some (string s)) × (t ≡ strip s) × (1 ≤ length t) × (length t ≤ 100)

abbrev pub HasPriority : Option Json → TaskPriority → Type 0
HasPriority o p = ((o ≡ none) × (p ≡ medium)) ⊎ (o ≡ some (string (priority_value p)))

-- An object with the three fields of a submission at most: a type of 1 to 100 characters once it is
-- stripped, a payload that is an object, and a priority or else MEDIUM.
abbrev pub IsBody : (Text → Text) → Json → TaskCreate → Type 0
IsBody strip json task_data =
    (body : Fields) × (json ≡ object body)
    × (only_fields body ≡ true)
    × HasType strip (get (codes "task_type") body) task_data.task_type
    × (get (codes "payload") body ≡ some (object task_data.payload))
    × HasPriority (get (codes "priority") body) task_data.priority

fitting_cases : (s t : Text) → fitting s ≡ some t → (t ≡ s) × (1 ≤ length t) × (length t ≤ 100)
fitting_cases s t h = ground arith

fitting_ok : (s : Text) → 1 ≤ length s → length s ≤ 100 → fitting s ≡ some s
fitting_ok s h k = ground arith

valid_task_type→HasType :
    (strip : Text → Text) (o : Option Json) (t : Text)
    → valid_task_type strip o ≡ some t
    → HasType strip o t
valid_task_type→HasType strip (some (string s)) t h =
    let (same, least, most) = fitting_cases (strip s) t h in (s, refl, same, least, most)
valid_task_type→HasType strip _ t h = cc

HasType→valid_task_type :
    (strip : Text → Text) (o : Option Json) (t : Text)
    → HasType strip o t
    → valid_task_type strip o ≡ some t
HasType→valid_task_type strip o t (s, e, same, least, most) =
    rw (e, sym same) (fitting_ok t least most)

priority_of_value→eq :
    (s : Text) (p : TaskPriority) → priority_of_value s ≡ some p → s ≡ priority_value p
priority_of_value→eq s p h = elim (Bool-cases (same_text s (codes "HIGH"))) [
  | inl e ↦
      let same : high ≡ p = ground (arith, h, e) in
      same_text→eq s (codes "HIGH") e ∙ ap priority_value same
  | inr not_high ↦ elim (Bool-cases (same_text s (codes "MEDIUM"))) [
    | inl e ↦
        let same : medium ≡ p = ground (arith, h, e) in
        same_text→eq s (codes "MEDIUM") e ∙ ap priority_value same
    | inr not_medium ↦ elim (Bool-cases (same_text s (codes "LOW"))) [
      | inl e ↦
          let same : low ≡ p = ground (arith, h, e) in
          same_text→eq s (codes "LOW") e ∙ ap priority_value same
      | inr not_low ↦ absurd (ground (arith, h))
    ]
  ]
]

valid_priority→HasPriority :
    (o : Option Json) (p : TaskPriority) → valid_priority o ≡ some p → HasPriority o p
valid_priority→HasPriority none p h = inl (refl, ground arith)
valid_priority→HasPriority (some (string s)) p h =
    inr (ap (λ v. some (string v)) (priority_of_value→eq s p h))
valid_priority→HasPriority _ p h = cc

HasPriority→valid_priority :
    (o : Option Json) (p : TaskPriority) → HasPriority o p → valid_priority o ≡ some p
unfolding same_text
HasPriority→valid_priority o p (inl (absent, default)) = rw (absent, default) refl
HasPriority→valid_priority o high (inr e) = rw e refl
HasPriority→valid_priority o medium (inr e) = rw e refl
HasPriority→valid_priority o low (inr e) = rw e refl

all_valid_cases :
    (t : Option Text) (f : Option Fields) (p : Option TaskPriority) (only : Bool)
    (task_data : TaskCreate)
    → all_valid t f p only ≡ some task_data
    → (t ≡ some task_data.task_type)
      × (f ≡ some task_data.payload)
      × (p ≡ some task_data.priority)
      × (only ≡ true)
all_valid_cases (some t) (some f) (some p) true task_data h = ground arith
all_valid_cases _ _ _ _ task_data h = cc

valid_payload→eq : (o : Option Json) (f : Fields) → valid_payload o ≡ some f → o ≡ some (object f)
valid_payload→eq (some (object g)) f h = ground arith
valid_payload→eq _ f h = cc

-- A body is accepted, as what it says, exactly when it meets the declaration of `TaskCreate`.
pub validate_task_create_iff :
    (strip : Text → Text) (json : Json) (task_data : TaskCreate)
    → (validate_task_create strip json ≡ some task_data) ↔ IsBody strip json task_data
unfolding validate_task_create
validate_task_create_iff strip json task_data = (
  valid json,
  λ (body, e, only, task_type, payload, priority).
      rw
        (
          e,
          validate_task_create,
          HasType→valid_task_type strip _ _ task_type,
          payload,
          HasPriority→valid_priority _ _ priority,
          only,
        )
        refl,
)
  where
    valid :
        (json : Json)
        → validate_task_create strip json ≡ some task_data
        → IsBody strip json task_data
    valid (object body) h =
        let (t, f, p, only) =
          all_valid_cases (valid_task_type strip (get (codes "task_type") body))
            (valid_payload (get (codes "payload") body))
            (valid_priority (get (codes "priority") body)) (only_fields body) task_data h in
        (
          body,
          refl,
          only,
          valid_task_type→HasType strip _ _ t,
          valid_payload→eq _ _ f,
          valid_priority→HasPriority _ _ p,
        )
    valid _ h = cc
