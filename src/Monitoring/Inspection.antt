-- ===== src/Monitoring/Inspection.antt =====
-- app/services/monitoring.py: CeleryWorkerMonitor.inspect, by what Celery's inspector replies.
use mathlib.Core.List.{Perm}
use task_mesh.Base.{
  suc, ◌≡◌, refl, ap, ◌∙◌, Bool, true, false, ◌&&◌, ◌||◌, List, [], ◌∷◌, map, Option, none, some,
  ◌⊎◌, inl, inr, ◌==◌, ltb, if◌then◌else◌, length, arith, Option-cases,
}
use task_mesh.Base.Sorting.{sorted, is_sorted, sorted-Perm, sorted_in_order, length-sorted}
use task_mesh.Text.{Text, codes, same_text}
use task_mesh.Model.Json.{Json}
use task_mesh.Monitoring.{WorkerItem, WorkerStatus}

-- What a request to the workers gives: nothing if it raises, else None or a dict by worker.
abbrev pub Replies : Type 0 → Type 0
Replies A = Option (Option (List (Text × A)))

-- `celery_app.control.inspect(timeout=1.0)`.
pub record Inspector : Type 0 where
  pub ping : Replies Json
  pub active : Replies (List Json)
  pub reserved : Replies (List Json)

-- `... or {}`.
abbrev pub or_empty : {A : Type 0} → Option (List (Text × A)) → List (Text × A)
or_empty none = []
or_empty (some entries) = entries

-- `jobs.get(identifier, [])`.
abbrev pub jobs_of : Text → List (Text × List Json) → List Json
jobs_of identifier [] = []
jobs_of identifier ((key, jobs) ∷ rest) =
    if same_text key identifier then jobs else jobs_of identifier rest

-- The order of `str`.
abbrev pub text_leb : Text → Text → Bool
text_leb [] t = true
text_leb (c ∷ s) [] = false
text_leb (c ∷ s) (d ∷ t) = let rest = text_leb s t in ltb c d || (c == d && rest)

abbrev pub keys : {A : Type 0} → List (Text × A) → List Text
keys entries = map (λ e. e.0) entries

abbrev pub unknown_workers : WorkerStatus
unknown_workers = record {
  available = false;
  count = 0;
  items = [];
  error = some (codes "Worker monitoring unavailable");
}

abbrev pub item_of : List (Text × List Json) → List (Text × List Json) → Text → WorkerItem
item_of active reserved identifier = record {
  identifier = identifier;
  active_tasks = length (jobs_of identifier active);
  reserved_tasks = length (jobs_of identifier reserved);
}

abbrev pub status_of :
    List (Text × Json) → List (Text × List Json) → List (Text × List Json) → WorkerStatus
status_of ping active reserved =
    let items = map (item_of active reserved) (sorted text_leb (keys ping)) in
    record { available = true; count = length items; items = items; error = none }

unfoldable pub inspect_workers : Inspector → WorkerStatus
inspect_workers inspector = elim inspector.ping [
  | none ↦ unknown_workers
  | some ping ↦ elim inspector.active [
    | none ↦ unknown_workers
    | some active ↦ elim inspector.reserved [
      | none ↦ unknown_workers
      | some reserved ↦ status_of (or_empty ping) (or_empty active) (or_empty reserved)
    ]
  ]
]

text_leb_total : (s t : Text) → text_leb s t ≡ false → text_leb t s ≡ true
text_leb_total [] t h = cc
text_leb_total (c ∷ s) [] h = refl
text_leb_total (c ∷ s) (d ∷ t) h = ground (arith, text_leb_total s t)

text_leb_trans : (s t u : Text) → text_leb s t ≡ true → text_leb t u ≡ true → text_leb s u ≡ true
text_leb_trans [] t u h k = refl
text_leb_trans (c ∷ s) [] u h k = cc
text_leb_trans (c ∷ s) (d ∷ t) [] h k = cc
text_leb_trans (c ∷ s) (d ∷ t) (e ∷ u) h k = ground (arith, text_leb_trans s t u)

abbrev pub identifiers : List WorkerItem → List Text
identifiers items = map (λ w. w.identifier) items

module _ (active reserved : List (Text × List Json)) where
  identifiers-items : (xs : List Text) → identifiers (map (item_of active reserved) xs) ≡ xs
  identifiers-items [] = refl
  identifiers-items (x ∷ xs) = ap (λ ys. x ∷ ys) (identifiers-items xs)

  length-items : (xs : List Text) → length (map (item_of active reserved) xs) ≡ length xs
  length-items [] = refl
  length-items (x ∷ xs) = omega (arith, length-items xs)

  -- Each item counts what the dicts hold for its worker.
  abbrev pub Counts : List WorkerItem → Type 0
  Counts [] = Unit
  Counts (w ∷ ws) =
      (w.active_tasks ≡ length (jobs_of w.identifier active))
      × (w.reserved_tasks ≡ length (jobs_of w.identifier reserved))
      × Counts ws

  items-Counts : (xs : List Text) → Counts (map (item_of active reserved) xs)
  items-Counts [] = tt
  items-Counts (x ∷ xs) = (refl, refl, items-Counts xs)

length-keys : {A : Type 0} (entries : List (Text × A)) → length (keys entries) ≡ length entries
length-keys [] = refl
length-keys (e ∷ entries) = ap suc (length-keys entries)

-- What the monitor shows of these replies.
abbrev pub Lists :
    List (Text × Json) → List (Text × List Json) → List (Text × List Json) → WorkerStatus → Type 0
Lists ping active reserved status =
    (status.available ≡ true)
    × (status.count ≡ length ping)
    × Perm (identifiers status.items) (keys ping)
    × (is_sorted text_leb (identifiers status.items) ≡ true)
    × Counts active reserved status.items

status_of-Lists :
    (ping : List (Text × Json)) (active reserved : List (Text × List Json))
    → Lists ping active reserved (status_of ping active reserved)
status_of-Lists ping active reserved =
    let names = sorted text_leb (keys ping) in
    let same = identifiers-items active reserved names in
    (
      refl,
      length-items active reserved names ∙ length-sorted text_leb (keys ping) ∙ length-keys ping,
      rw same (sorted-Perm text_leb (keys ping)),
      rw same (sorted_in_order text_leb text_leb_total text_leb_trans (keys ping)),
      items-Counts active reserved names,
    )

-- If the three requests to the workers come back, the worker monitor lists each worker that answered
-- the ping, once for each answer and in the order of their names, with the numbers of its active and
-- reserved jobs; if one of them raises, it shows no worker and an error.
pub inspect_workers_cases :
    (inspector : Inspector)
    → ((ping : Option (List (Text × Json))) × (active reserved : Option (List (Text × List Json)))
        × (inspector.ping ≡ some ping)
        × (inspector.active ≡ some active)
        × (inspector.reserved ≡ some reserved)
        × Lists (or_empty ping) (or_empty active) (or_empty reserved) (inspect_workers inspector))
      ⊎ (inspect_workers inspector ≡ unknown_workers)
        × ((inspector.ping ≡ none) ⊎ (inspector.active ≡ none) ⊎ (inspector.reserved ≡ none))
unfolding inspect_workers
inspect_workers_cases inspector = elim (Option-cases inspector.ping) [
  | inl down ↦ inr (rw (down, inspect_workers) refl, inl down)
  | inr (ping, pinged) ↦ elim (Option-cases inspector.active) [
    | inl down ↦ inr (rw (pinged, down, inspect_workers) refl, inr (inl down))
    | inr (active, told) ↦ elim (Option-cases inspector.reserved) [
      | inl down ↦ inr (rw (pinged, told, down, inspect_workers) refl, inr (inr down))
      | inr (reserved, kept) ↦ inl (
        ping,
        active,
        reserved,
        pinged,
        told,
        kept,
        rw (pinged, told, kept, inspect_workers)
            (status_of-Lists (or_empty ping) (or_empty active) (or_empty reserved)),
      )
    ]
  ]
]
