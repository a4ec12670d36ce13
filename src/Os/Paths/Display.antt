-- ===== src/Os/Paths/Display.antt =====
-- A path is read back from its text.
use fastenv.Base.{
  ℕ, Text, split, has_char, true, false, List, [], ◌∷◌, ◌++◌, ◌==◌, nat_Eq, list_Eq, filter, ◌≡◌,
  refl, ap, arith, All, Bool-cases, inl, inr, push_first, All-append, split-no_char,
}
use mathlib.Core.List.{append-nil}
use fastenv.Os.Paths.{FilePath, is_component, is_absolute, components, join, display}

-- A text that is one component.
pub record Component (s : Text) : Type 0 where
  pub counted : is_component s ≡ true
  pub no_slash : has_char b'/' s ≡ false

split-append :
    (s t : Text) → has_char b'/' s ≡ false → split b'/' (s ++ b'/' ∷ t) ≡ s ∷ split b'/' t
unfolding split has_char
split-append [] t h = refl
split-append (x ∷ s) t h = ground (arith, split-append s t)

push_first-no_slash :
    (x : ℕ) (ps : List Text)
    → (x == b'/') ≡ false
    → All (λ p. has_char b'/' p ≡ false) ps
    → All (λ p. has_char b'/' p ≡ false) (push_first x ps)
unfolding has_char
push_first-no_slash x [] h a = (rw h refl, tt)
push_first-no_slash x (p ∷ ps) h a = (rw h a.0, a.1)

-- Each piece of a split lacks the separator.
split-no_slash : (s : Text) → All (λ p. has_char b'/' p ≡ false) (split b'/' s)
unfolding split has_char
split-no_slash [] = (refl, tt)
split-no_slash (x ∷ s) = elim (Bool-cases (x == b'/')) [
  | inl t ↦ rw t (refl, split-no_slash s)
  | inr f ↦ rw f (push_first-no_slash x (split b'/' s) f (split-no_slash s))
]

filter-Component :
    (ps : List Text)
    → All (λ p. has_char b'/' p ≡ false) ps
    → All Component (filter is_component ps)
filter-Component [] h = tt
filter-Component (p ∷ ps) h = elim (Bool-cases (is_component p)) [
  | inl t ↦ rw t (record { counted = t; no_slash = h.0 }, filter-Component ps h.1)
  | inr f ↦ rw f (filter-Component ps h.1)
]

pub components-Component : (s : Text) → All Component (components s)
unfolding components
components-Component s = filter-Component (split b'/' s) (split-no_slash s)

pub join-Component : (p : FilePath) (s : Text) → All Component p → All Component (join p s)
unfolding join
join-Component p s h = elim (Bool-cases (is_absolute s)) [
  | inl t ↦ rw t (components-Component s)
  | inr f ↦ rw f (All-append Component p (components s) h (components-Component s))
]

pub components-display : (p : FilePath) → All Component p → components (display p) ≡ p
unfolding components
components-display [] h = refl
components-display (s ∷ []) h =
    rw (append-nil s, split-no_char b'/' s h.0.no_slash, h.0.counted) refl
components-display (s ∷ t ∷ p) h =
    rw (split-append s (t ++ display p) h.0.no_slash, h.0.counted)
      (ap (λ q. s ∷ q) (components-display (t ∷ p) h.1))
