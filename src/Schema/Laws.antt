-- ===== src/Schema/Laws.antt =====
-- How a list of operations runs, and which entries of a schema undo each other.
use mathlib.Core.Path.{fun_ext}
use task_mesh.Base.{
  ◌≡◌, refl, sym, ap, ◌∙◌, Bool, Bool-cases, inl, inr, true, false, List, [], ◌∷◌, ◌++◌, Option,
  none, some, arith,
}
use task_mesh.Text.{Text, same_text}
use task_mesh.Text.Laws.{same_text→eq, same_text_refl}
use task_mesh.Schema.{Index, Operation, View}
use task_mesh.Schema.Alembic.{
  Alembic, put, erase, off, purge, refer, forget, effect, run_all, effects, accepts_all,
}

module _ ⦃alembic : Alembic⦄ where
  open alembic use {Schema, view, run, run-accepted}

  -- If the database accepts every operation, they all succeed, with their effects.
  pub run_all-accepted :
      (ops : List Operation) (s : Schema)
      → accepts_all ops (view s) ≡ true
      → (s' : Schema) × (run_all ops s ≡ some s') × (view s' ≡ effects ops (view s))
  unfolding run_all
  run_all-accepted [] s h = (s, refl, refl)
  run_all-accepted (op ∷ ops) s h =
      let (mid, r, v) = run-accepted op s (ground (arith, h)) in
      let (s', rs, vs) = run_all-accepted ops mid (rw v (ground (arith, h))) in
      (s', rw (r, run_all) rs, vs ∙ ap (effects ops) v)

pub erase-put {ℓ} :
    {A : Type ℓ} (name : Text) (a : A) (f : Text → Option A)
    → f name ≡ none
    → erase name (put name a f) ≡ f
erase-put name a f fresh = fun_ext (λ k. elim (Bool-cases (same_text name k)) [
  | inl same ↦ rw same (sym fresh ∙ ap f (same_text→eq name k same))
  | inr other ↦ rw other refl
])

pub put-put {ℓ} :
    {A : Type ℓ} (name : Text) (a b : A) (f : Text → Option A)
    → put name b (put name a f) ≡ put name b f
put-put name a b f = fun_ext (λ k. ground arith)

pub put_self {ℓ} :
    {A : Type ℓ} (name : Text) (a : A) (f : Text → Option A) → f name ≡ some a → put name a f ≡ f
put_self name a f known = fun_ext (λ k. elim (Bool-cases (same_text name k)) [
  | inl same ↦ rw same (sym known ∙ ap f (same_text→eq name k same))
  | inr other ↦ rw other refl
])

-- Dropping some indexes leaves another one.
pub purge-put :
    (p : Index → Bool) (k : Text) (ix : Index) (f : Text → Option Index)
    → p ix ≡ false
    → purge p (put k ix f) ≡ put k ix (purge p f)
purge-put p k ix f other = fun_ext (λ j. elim (Bool-cases (same_text k j)) [
  | inl same ↦ rw same (rw other refl)
  | inr apart ↦ rw apart refl
])

-- If there is no index on a table, there is none on its columns.
off_fewer :
    (p q : Index → Bool) (o : Option Index)
    → ((ix : Index) → q ix ≡ true → p ix ≡ true)
    → off p o ≡ o
    → off q o ≡ o
off_fewer p q none fewer h = refl
off_fewer p q (some ix) fewer h = elim (Bool-cases (q ix)) [
  | inl e ↦ absurd (ground (arith, h, fewer ix e))
  | inr e ↦ rw e refl
]

pub purge_fewer :
    (p q : Index → Bool) (f : Text → Option Index)
    → ((ix : Index) → q ix ≡ true → p ix ≡ true)
    → purge p f ≡ f
    → purge q f ≡ f
purge_fewer p q f fewer h = fun_ext (λ k. off_fewer p q (f k) fewer (ap (λ g. g k) h))

-- Dropping a table takes back what creating it put down of its one foreign key.
pub forget-refer :
    (name target : Text) (f : Text → List Text)
    → forget name (refer name (target ∷ []) f) ≡ forget name f
forget-refer name target f = fun_ext (λ k. ground (arith, same_text_refl name))

pub View-ext :
    (v w : View) → v.tables ≡ w.tables → v.indexes ≡ w.indexes → v.referrers ≡ w.referrers → v ≡ w
View-ext v w t x r = λ i. record { tables = t i; indexes = x i; referrers = r i }

pub accepts_all-append :
    (xs ys : List Operation) (v : View)
    → accepts_all xs v ≡ true
    → accepts_all ys (effects xs v) ≡ true
    → accepts_all (xs ++ ys) v ≡ true
accepts_all-append [] ys v h k = k
accepts_all-append (x ∷ xs) ys v h k =
    ground (arith, h, accepts_all-append xs ys (effect x v) (ground (arith, h)) k)
