-- ===== src/Text/Laws.antt =====
-- Which texts `strip` empties, and when two texts are the same.
use task_mesh.Base.{◌≡◌, refl, Bool, true, false, [], ◌∷◌, ◌||◌, not, arith, ◌∙◌}
use task_mesh.Text.{Text, is_space, strip_left, strip_right, strip, is_nonempty, same_text}

-- Some character of the text is no space.
abbrev pub has_ink : Text → Bool
has_ink [] = false
has_ink (c ∷ s) = not (is_space c) || has_ink s

strip_right-ink : (s : Text) → is_nonempty (strip_right s) ≡ has_ink s
unfolding strip_right
strip_right-ink [] = refl
strip_right-ink (c ∷ s) = ground (arith, strip_right-ink s)

has_ink-strip_left : (s : Text) → has_ink (strip_left s) ≡ has_ink s
unfolding strip_left
has_ink-strip_left [] = refl
has_ink-strip_left (c ∷ s) = ground (arith, has_ink-strip_left s)

-- What is left after stripping is empty exactly when the text is blank.
pub strip-ink : (s : Text) → is_nonempty (strip s) ≡ has_ink s
unfolding strip
strip-ink s = strip_right-ink (strip_left s) ∙ has_ink-strip_left s

pub same_text_refl : (s : Text) → same_text s s ≡ true
unfolding same_text
same_text_refl [] = refl
same_text_refl (c ∷ s) = ground (arith, same_text_refl s)

pub same_text→eq : (s t : Text) → same_text s t ≡ true → s ≡ t
unfolding same_text
same_text→eq [] [] h = refl
same_text→eq [] (d ∷ t) h = cc
same_text→eq (c ∷ s) [] h = cc
same_text→eq (c ∷ s) (d ∷ t) h = ground (arith, same_text→eq s t)
