-- ===== src/HostEbpf/Ring/Slices.antt =====
-- Parts of a list given by their elements, and what lies at a position of a ring.
use fastenv.Base.{
  ℕ, zero, suc, ◌+◌, ◌%◌, ◌≤◌, ◌<◌, length, take, drop, get_elem?, List, [], ◌∷◌, ◌++◌, some, ◌≡◌,
  refl, ap, ◌∙◌, sym, arith, some-injective, Bytes, length-append,
}
use native.Mathlib.Nat.{mod-add-mod, mod-eq_of_lt, zero-add}

module _ {ℓ} {A : Type ℓ} where
  drop_next :
      (off : ℕ) (xs : List A) (y : A)
      → get_elem? xs off ≡ some y
      → drop off xs ≡ y ∷ drop (suc off) xs
  drop_next off [] y h = cc
  drop_next zero (x ∷ xs) y h = ap (λ z. z ∷ xs) (some-injective h)
  drop_next (suc off) (x ∷ xs) y h = drop_next off xs y h

  -- The part of a list that has these elements.
  pub take-drop_elems :
      (off : ℕ) (xs ys : List A)
      → ((i : ℕ) → i < length ys → get_elem? xs (off + i) ≡ get_elem? ys i)
      → take (length ys) (drop off xs) ≡ ys
  take-drop_elems off xs [] h = refl
  take-drop_elems off xs (y ∷ ys) h =
      ap (take (suc (length ys))) (drop_next off xs y (shift (omega arith) ∙ h 0 (omega arith)))
      ∙ ap (λ zs. y ∷ zs)
          (take-drop_elems (suc off) xs ys (λ i lt. shift (omega arith) ∙ h (suc i) (omega arith)))
    where
      shift : {i j : ℕ} → i ≡ j → get_elem? xs i ≡ get_elem? xs j
      shift e = ap (get_elem? xs) e

  pub get_elem?-append_left :
      (xs ys : List A) (i : ℕ) → i < length xs → get_elem? (xs ++ ys) i ≡ get_elem? xs i
  get_elem?-append_left [] ys i h = absurd (omega arith)
  get_elem?-append_left (x ∷ xs) ys zero h = refl
  get_elem?-append_left (x ∷ xs) ys (suc i) h = get_elem?-append_left xs ys i (omega arith)

  pub get_elem?-append_right :
      (xs ys : List A) (i : ℕ) → get_elem? (xs ++ ys) (length xs + i) ≡ get_elem? ys i
  get_elem?-append_right [] ys i = ap (get_elem? ys) (zero-add i)
  get_elem?-append_right (x ∷ xs) ys i = shift (omega arith) ∙ get_elem?-append_right xs ys i
    where
      shift : {j k : ℕ} → j ≡ suc k → get_elem? (x ∷ xs ++ ys) j ≡ get_elem? (xs ++ ys) k
      shift e = ap (get_elem? (x ∷ xs ++ ys)) e

  pub take-append-drop : (n : ℕ) (xs : List A) → take n xs ++ drop n xs ≡ xs
  take-append-drop zero xs = refl
  take-append-drop (suc n) [] = refl
  take-append-drop (suc n) (x ∷ xs) = ap (λ zs. x ∷ zs) (take-append-drop n xs)

-- A position after another in the ring, where it does not wrap.
pub mod_add_lt : (a i m : ℕ) → a % m + i < m → (a + i) % m ≡ a % m + i
mod_add_lt a i m h = sym (mod-add-mod a m i) ∙ mod-eq_of_lt h

-- The bytes that lie in a ring from a position on, with the ring's end followed by its start.
abbrev pub Holds : Bytes → ℕ → Bytes → Type 0
Holds ring pos bytes =
    (i : ℕ) → i < length bytes → get_elem? ring ((pos + i) % length ring) ≡ get_elem? bytes i

module _ (ring : Bytes) (pos : ℕ) where
  pub Holds-left : (xs ys : Bytes) → Holds ring pos (xs ++ ys) → Holds ring pos xs
  Holds-left xs ys h i lt =
      h i (omega (arith, length-append xs ys)) ∙ get_elem?-append_left xs ys i lt

  pub Holds-right : (xs ys : Bytes) → Holds ring pos (xs ++ ys) → Holds ring (pos + length xs) ys
  Holds-right xs ys h i lt =
      ap (λ p. get_elem? ring (p % length ring)) (omega arith)
      ∙ (h (length xs + i) (omega (arith, length-append xs ys)) ∙ get_elem?-append_right xs ys i)

  -- What lies before the end of the ring is one slice.
  pub slice-Holds :
      (xs : Bytes)
      → Holds ring pos xs
      → pos % length ring + length xs ≤ length ring
      → take (length xs) (drop (pos % length ring) ring) ≡ xs
  slice-Holds xs h fits =
      take-drop_elems (pos % length ring) ring xs
        (λ i lt. ap (get_elem? ring) (sym (mod_add_lt pos i (length ring) (omega arith))) ∙ h i lt)
