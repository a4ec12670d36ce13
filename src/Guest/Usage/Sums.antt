-- ===== src/Guest/Usage/Sums.antt =====
-- The walk and the overage of src/du.rs, against the sizes of the files.
use fastenv.Base.{
  ℕ, ◌+◌, ◌%◌, ◌^◌, ◌<◌, Option, none, some, ◌≡◌, refl, ap, ◌∙◌, arith, Option-cases, inl, inr,
}
use fastenv.Guest.Usage.{
  Node, Entries, file, directory, unreadable, unknown, other, end, broken, entry, walk_dir,
  walk_node, and_then, walk_upper_bytes,
}

-- The sum of two sizes, if both are known.
abbrev pub plus : Option ℕ → Option ℕ → Option ℕ
plus none b = none
plus (some a) none = none
plus (some a) (some b) = some (a + b)

mutual
  -- The size of all regular files below, as a number without bound.
  pub sizes : Entries → Option ℕ
  sizes end = some 0
  sizes broken = none
  sizes (entry name node rest) = plus (size node) (sizes rest)

  pub size : Node → Option ℕ
  size (file len) = len
  size (directory entries) = sizes entries
  size unreadable = none
  size unknown = none
  size other = some 0

-- A size added to a total, on 64 bits.
abbrev pub wrapped : ℕ → Option ℕ → Option ℕ
wrapped total none = none
wrapped total (some s) = some ((total + s) % 2 ^ 64)

wrapped_twice :
    (total a : ℕ) (s : Option ℕ)
    → wrapped ((total + a) % 2 ^ 64) s ≡ wrapped total (plus (some a) s)
wrapped_twice total a none = refl
wrapped_twice total a (some b) = ground arith

mutual
  unfolding walk_dir sizes

  walk_dir-sizes :
      (es : Entries) (total : ℕ) → total < 2 ^ 64 → walk_dir es total ≡ wrapped total (sizes es)
  walk_dir-sizes end total h = ground arith
  walk_dir-sizes broken total h = refl
  walk_dir-sizes (entry name node rest) total h =
      ap (λ t. and_then t (λ u. walk_dir rest u)) (walk_node-size node total h)
      ∙ elim (Option-cases (size node)) [
        | inl failed ↦ rw failed refl
        | inr (a, known) ↦ rw known (
            walk_dir-sizes rest ((total + a) % 2 ^ 64) (omega arith)
            ∙ wrapped_twice total a (sizes rest))
      ]

  walk_node-size :
      (n : Node) (total : ℕ) → total < 2 ^ 64 → walk_node n total ≡ wrapped total (size n)
  walk_node-size (file none) total h = refl
  walk_node-size (file (some len)) total h = refl
  walk_node-size (directory entries) total h = walk_dir-sizes entries total h
  walk_node-size unreadable total h = refl
  walk_node-size unknown total h = refl
  walk_node-size other total h = ground arith

-- What walk_upper_bytes measures of a directory is the sum of the sizes of the regular files at any
-- depth, modulo 2^64, and it fails exactly if something below cannot be read.
pub walk_upper_bytes-sizes :
    (es : Entries) → walk_upper_bytes (some (directory es)) ≡ wrapped 0 (sizes es)
unfolding walk_upper_bytes
walk_upper_bytes-sizes es = walk_dir-sizes es 0 (omega arith)
