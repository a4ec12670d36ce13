-- ===== src/Guest/Gc/Order.antt =====
-- The sort of src/gc.rs, and the initial parts of a sorted list of forks.
use Prim.Native.Nat.{max}
use fastenv.Base.{
  ℕ, zero, suc, ◌+◌, ◌≤◌, Text, Bool, false, List, [], ◌∷◌, filter, length, take, contains, All,
  leb, ◌==◌, eq_iff, eq_refl, nat_Eq, list_Eq, ◌||◌, ◌≡◌, refl, ap, ◌∙◌, arith, Bool-cases, inl,
  inr,
}
use fastenv.Guest.Gc.{Timed, insert_timed, sort_timed, keys, is_expired}

-- No fork is older than one before it.
abbrev pub IsOldestFirst : List Timed → Type 0
IsOldestFirst [] = Unit
IsOldestFirst (e ∷ xs) = All (λ x. e.1 ≤ x.1) xs × IsOldestFirst xs

-- No key twice.
abbrev pub IsUnique : List Text → Type 0
IsUnique [] = Unit
IsUnique (k ∷ ks) = (contains ks k ≡ false) × IsUnique ks

All-insert :
    (a : ℕ) (e : Timed) (xs : List Timed)
    → a ≤ e.1
    → All (λ x. a ≤ x.1) xs
    → All (λ x. a ≤ x.1) (insert_timed e xs)
unfolding insert_timed
All-insert a e [] h k = (h, tt)
All-insert a e (x ∷ xs) h k = ground (arith, All-insert a e xs h k.1)

All-older : (a b : ℕ) (xs : List Timed) → a ≤ b → All (λ x. b ≤ x.1) xs → All (λ x. a ≤ x.1) xs
All-older a b [] h k = tt
All-older a b (x ∷ xs) h k = (omega (arith, k.0), All-older a b xs h k.1)

insert_timed-IsOldestFirst :
    (e : Timed) (xs : List Timed) → IsOldestFirst xs → IsOldestFirst (insert_timed e xs)
unfolding insert_timed
insert_timed-IsOldestFirst e [] h = (tt, tt)
insert_timed-IsOldestFirst e (x ∷ xs) h = elim (Bool-cases (leb e.1 x.1)) [
  | inl before ↦ rw before ((ground arith, All-older e.1 x.1 xs (ground arith) h.0), h)
  | inr after ↦
      rw after (All-insert x.1 e xs (ground arith) h.0, insert_timed-IsOldestFirst e xs h.1)
]

pub sort_timed-IsOldestFirst : (xs : List Timed) → IsOldestFirst (sort_timed xs)
unfolding sort_timed
sort_timed-IsOldestFirst [] = tt
sort_timed-IsOldestFirst (e ∷ xs) =
    insert_timed-IsOldestFirst e (sort_timed xs) (sort_timed-IsOldestFirst xs)

contains-insert :
    (e : Timed) (xs : List Timed) (k : Text)
    → contains (keys (insert_timed e xs)) k ≡ (e.0 == k || contains (keys xs) k)
unfolding insert_timed
contains-insert e [] k = refl
contains-insert e (x ∷ xs) k = ground (arith, contains-insert e xs k)

-- The sort keeps the keys.
pub contains-sort :
    (xs : List Timed) (k : Text) → contains (keys (sort_timed xs)) k ≡ contains (keys xs) k
unfolding sort_timed
contains-sort [] k = refl
contains-sort (e ∷ xs) k = ground (arith, contains-insert e (sort_timed xs) k, contains-sort xs k)

insert-IsUnique :
    (e : Timed) (xs : List Timed)
    → contains (keys xs) e.0 ≡ false
    → IsUnique (keys xs)
    → IsUnique (keys (insert_timed e xs))
unfolding insert_timed
insert-IsUnique e [] h u = (refl, tt)
insert-IsUnique e (x ∷ xs) h u =
    ground (arith, insert-IsUnique e xs, contains-insert e xs x.0, eq_iff x.0 e.0, eq_iff e.0 x.0)

pub sort-IsUnique : (xs : List Timed) → IsUnique (keys xs) → IsUnique (keys (sort_timed xs))
unfolding sort_timed
sort-IsUnique [] u = tt
sort-IsUnique (e ∷ xs) u =
    insert-IsUnique e (sort_timed xs) (contains-sort xs e.0 ∙ u.0) (sort-IsUnique xs u.1)

length-insert : (e : Timed) (xs : List Timed) → length (insert_timed e xs) ≡ suc (length xs)
unfolding insert_timed
length-insert e [] = refl
length-insert e (x ∷ xs) = ground (arith, length-insert e xs)

pub length-sort : (xs : List Timed) → length (sort_timed xs) ≡ length xs
unfolding sort_timed
length-sort [] = refl
length-sort (e ∷ xs) = length-insert e (sort_timed xs) ∙ ap suc (length-sort xs)

none_expired :
    (now age : ℕ) (a : ℕ) (xs : List Timed)
    → leb (a + age) now ≡ false
    → All (λ x. a ≤ x.1) xs
    → filter (is_expired now age) xs ≡ []
none_expired now age a [] h k = refl
none_expired now age a (x ∷ xs) h k = ground (arith, none_expired now age a xs h k.1)

-- The expired forks of a sorted list are its first ones.
pub expired-take :
    (now age : ℕ) (xs : List Timed)
    → IsOldestFirst xs
    → filter (is_expired now age) xs ≡ take (length (filter (is_expired now age) xs)) xs
expired-take now age [] h = refl
expired-take now age (e ∷ xs) h = elim (Bool-cases (is_expired now age e)) [
  | inl old ↦ rw old (ap (◌∷◌ e) (expired-take now age xs h.1))
  | inr young ↦ rw (young, none_expired now age e.1 xs young h.0) refl
]

max_zero_left : (b : ℕ) → max 0 b ≡ b
max_zero_left b = omega arith

max_zero_right : (a : ℕ) → max a 0 ≡ a
max_zero_right a = omega arith

max-suc : (a b : ℕ) → max (suc a) (suc b) ≡ suc (max a b)
max-suc a b = omega arith

-- What is in one of two initial parts is in the longer.
pub contains-takes :
    (a b : ℕ) (xs : List Timed) (k : Text)
    → (contains (keys (take a xs)) k || contains (keys (take b xs)) k)
      ≡ contains (keys (take (max a b) xs)) k
contains-takes zero b xs k = rw (max_zero_left b) refl
contains-takes (suc a) zero xs k = rw (max_zero_right (suc a)) (ground arith)
contains-takes (suc a) (suc b) [] k = rw (max-suc a b) refl
contains-takes (suc a) (suc b) (x ∷ xs) k =
    rw (max-suc a b) (ground (arith, contains-takes a b xs k))

filter-congr :
    (p q : Timed → Bool) (xs : List Timed) → All (λ x. p x ≡ q x) xs → filter p xs ≡ filter q xs
filter-congr p q [] h = refl
filter-congr p q (x ∷ xs) h = ground (arith, filter-congr p q xs h.1)

absent-All :
    (k : Text) (ks : List Text) (xs : List Timed)
    → contains (keys xs) k ≡ false
    → All (λ x. (k == x.0 || contains ks x.0) ≡ contains ks x.0) xs
absent-All k ks [] h = tt
absent-All k ks (x ∷ xs) h =
    (ground (arith, eq_iff k x.0, eq_iff x.0 k), absent-All k ks xs (ground arith))

filter_none : (xs : List Timed) → filter (λ x. false) xs ≡ []
filter_none [] = refl
filter_none (x ∷ xs) = filter_none xs

-- The forks whose keys are those of an initial part are that part.
pub filter-take :
    (n : ℕ) (xs : List Timed)
    → IsUnique (keys xs)
    → filter (λ e. contains (keys (take n xs)) e.0) xs ≡ take n xs
filter-take zero xs u = filter_none xs
filter-take (suc n) [] u = refl
filter-take (suc n) (x ∷ xs) u = rw (eq_refl x.0) (
    ap (◌∷◌ x)
      (filter-congr _ _ xs (absent-All x.0 (keys (take n xs)) xs u.0) ∙ filter-take n xs u.1))
