-- ===== src/Guest/Diff/Kinds.antt =====
-- What the lines of src/diff.rs say of upper/.
use fastenv.Base.{
  Text, text, Bool, true, false, List, [], ◌∷◌, ◌++◌, All, All-append, if◌then◌else◌, Option, none,
  some, ◌≡◌, ◌⊎◌, refl, is_prefix, eq_iff, ◌==◌, nat_Eq, list_Eq, arith, Bool-cases, inl, inr, ◌||◌,
}
use fastenv.Os.Paths.{FilePath}
use fastenv.Guest.Diff.{
  added, modified, deleted, ChangeType, is_char_whiteout, DiffEntry, Node, Entries, directory,
  char_device, symlink, regular, unreadable, unknown, end, broken, entry, Printed, then_print,
  printed_none, Block, name_before, insert_block, print_blocks, is_wh_name, change_type_of,
  print_entry, add_block, of_blocks, blocks_of, print_below, walk_upper,
}

-- The entry of this path, name and kind stands in upper/ below the directory, and not within one
-- whose name marks a whiteout.
unfoldable mutual
  pub Holds : FilePath → Entries → FilePath → Text → Node → Type 0
  Holds dir end p n x = ⊥
  Holds dir broken p n x = ⊥
  Holds dir (entry name node rest) p n x =
      ((p ≡ dir ++ name ∷ []) × (n ≡ name) × (x ≡ node))
      ⊎ (Below (dir ++ name ∷ []) name node p n x ⊎ Holds dir rest p n x)

  pub Below : FilePath → Text → Node → FilePath → Text → Node → Type 0
  Below rel name (directory entries) p n x =
      (is_prefix (text ".wh.") name ≡ false) × Holds rel entries p n x
  Below rel name (char_device rdev) p n x = ⊥
  Below rel name (symlink to_whiteout) p n x = ⊥
  Below rel name regular p n x = ⊥
  Below rel name unreadable p n x = ⊥
  Below rel name unknown p n x = ⊥

-- A whiteout of overlayfs: a device 0:0, a link to one, or a name that marks it.
abbrev pub IsDevice : Node → Type 0
IsDevice (char_device rdev) = rdev ≡ 0
IsDevice (symlink to_whiteout) = to_whiteout ≡ true
IsDevice (directory entries) = ⊥
IsDevice regular = ⊥
IsDevice unreadable = ⊥
IsDevice unknown = ⊥

abbrev pub IsWhiteout : Text → Node → Type 0
IsWhiteout name node = (is_prefix (text ".wh.") name ≡ true) ⊎ IsDevice node

module _ (lower_exists : FilePath → Bool) where
  -- A whiteout is a deletion; anything else is a change of what the base has, or new.
  abbrev pub IsKind : FilePath → Text → Node → ChangeType → Type 0
  IsKind p name node kind =
      (IsWhiteout name node → kind ≡ deleted)
      × (¬ IsWhiteout name node → lower_exists p ≡ true → kind ≡ modified)
      × (¬ IsWhiteout name node → lower_exists p ≡ false → kind ≡ added)

  abbrev pub line : FilePath → Text → Node → DiffEntry
  line p name node = record { path = p; change_type = change_type_of lower_exists p name node }

  IsDevice-test :
      (node : Node)
      → ((is_char_whiteout node ≡ true) × IsDevice node)
        ⊎ ((is_char_whiteout node ≡ false) × ¬ IsDevice node)
  unfolding is_char_whiteout
  IsDevice-test (char_device rdev) = elim (Bool-cases (rdev == 0)) [
    | inl t ↦ inl (t, (eq_iff rdev 0).0 t)
    | inr f ↦ inr (f, λ e. cc (f, (eq_iff rdev 0).1 e))
  ]
  IsDevice-test (symlink true) = inl (refl, refl)
  IsDevice-test (symlink false) = inr (refl, λ e. cc)
  IsDevice-test (directory entries) = inr (refl, λ e. e)
  IsDevice-test regular = inr (refl, λ e. e)
  IsDevice-test unreadable = inr (refl, λ e. e)
  IsDevice-test unknown = inr (refl, λ e. e)

  -- What a test says of a whiteout, and the kind that the code chooses by it.
  by_test :
      (t l : Bool) (W : Type 0)
      → (W → t ≡ true)
      → (¬ W → t ≡ false)
      → (W → (if t then deleted else if l then modified else added) ≡ deleted)
        × (¬ W → l ≡ true → (if t then deleted else if l then modified else added) ≡ modified)
        × (¬ W → l ≡ false → (if t then deleted else if l then modified else added) ≡ added)
  by_test true l W y n = ((λ w. refl), (λ f e. cc (n f)), (λ f e. cc (n f)))
  by_test false true W y n = ((λ w. cc (y w)), (λ f e. refl), (λ f e. cc e))
  by_test false false W y n = ((λ w. cc (y w)), (λ f e. cc e), (λ f e. refl))

  tested :
      (name : Text) (node : Node)
      → IsWhiteout name node
      → (is_char_whiteout node || is_wh_name name) ≡ true
  tested name node (inl t) = ground arith
  tested name node (inr d) = elim (IsDevice-test node) [
    | inl k ↦ rw k.0 refl
    | inr k ↦ absurd (k.1 d)
  ]

  untested :
      (name : Text) (node : Node)
      → ¬ IsWhiteout name node
      → (is_char_whiteout node || is_wh_name name) ≡ false
  untested name node f = elim (IsDevice-test node) [
    | inl k ↦ absurd (f (inr k.1))
    | inr k ↦ elim (Bool-cases (is_wh_name name)) [
      | inl t ↦ absurd (f (inl t))
      | inr g ↦ rw (k.0, g) refl
    ]
  ]

  pub change_type_of-IsKind :
      (p : FilePath) (name : Text) (node : Node)
      → IsKind p name node (change_type_of lower_exists p name node)
  unfolding change_type_of
  change_type_of-IsKind p name node =
      by_test (is_char_whiteout node || is_wh_name name) (lower_exists p) (IsWhiteout name node)
        (tested name node) (untested name node)

-- A property of all lines that are printed, from that of the lines of the entries.
module _ (lower_exists : FilePath → Bool) (P : DiffEntry → Type 0) where
  abbrev AllLines : Printed → Type 0
  AllLines p = All P p.lines

  abbrev AllBlocks : List Block → Type 0
  AllBlocks bs = All (λ b. AllLines b.1) bs

  then_print-AllLines : (p q : Printed) → AllLines p → AllLines q → AllLines (then_print p q)
  then_print-AllLines p q hp hq = elim (Bool-cases p.failed) [
    | inl failed ↦ rw failed hp
    | inr fine ↦ rw fine (All-append P p.lines q.lines hp hq)
  ]

  insert-AllBlocks :
      (b : Block) (bs : List Block) → AllLines b.1 → AllBlocks bs → AllBlocks (insert_block b bs)
  unfolding insert_block
  insert-AllBlocks b [] h k = (h, tt)
  insert-AllBlocks b (c ∷ bs) h k = elim (Bool-cases (name_before b.0 c.0)) [
    | inl before ↦ rw before (h, k)
    | inr after ↦ rw after (k.0, insert-AllBlocks b bs h k.1)
  ]

  print_blocks-AllLines : (bs : List Block) → AllBlocks bs → AllLines (print_blocks bs)
  unfolding print_blocks
  print_blocks-AllLines [] k = tt
  print_blocks-AllLines (b ∷ bs) k =
      then_print-AllLines b.1 (print_blocks bs) k.0 (print_blocks-AllLines bs k.1)

  abbrev AllOption : Option (List Block) → Type 0
  AllOption none = Unit
  AllOption (some bs) = AllBlocks bs

  add-AllOption :
      (b : Block) (o : Option (List Block))
      → AllLines b.1
      → AllOption o
      → AllOption (add_block lower_exists b o)
  add-AllOption b none h k = tt
  add-AllOption b (some bs) h k = insert-AllBlocks b bs h k

  of_blocks-AllLines : (o : Option (List Block)) → AllOption o → AllLines (of_blocks lower_exists o)
  of_blocks-AllLines none k = tt
  of_blocks-AllLines (some bs) k = print_blocks-AllLines bs k

  print_entry-AllLines :
      (rel : FilePath) (name : Text) (node : Node) (below : Printed)
      → P (line lower_exists rel name node)
      → AllLines below
      → AllLines (print_entry lower_exists rel name node below)
  print_entry-AllLines rel name node below one h =
      then_print-AllLines (record { lines = line lower_exists rel name node ∷ []; failed = false })
        below (one, tt) h

  unless_wh :
      (b : Bool) (p : Printed) → (b ≡ false → AllLines p) → AllLines (if b then printed_none else p)
  unless_wh true p h = tt
  unless_wh false p h = h refl

  mutual
    unfolding blocks_of Holds

    pub blocks_of-AllOption :
        (dir : FilePath) (es : Entries)
        → ((p : FilePath) (n : Text) (x : Node) → Holds dir es p n x → P (line lower_exists p n x))
        → AllOption (blocks_of lower_exists dir es)
    blocks_of-AllOption dir end h = tt
    blocks_of-AllOption dir broken h = tt
    blocks_of-AllOption dir (entry name node rest) h =
        add-AllOption _ (blocks_of lower_exists dir rest)
          (print_entry-AllLines (dir ++ name ∷ []) name node
            (print_below lower_exists (dir ++ name ∷ []) name node)
            (h (dir ++ name ∷ []) name node (inl (refl, refl, refl)))
            (print_below-AllLines (dir ++ name ∷ []) name node (λ p n x k. h p n x (inr (inl k)))))
          (blocks_of-AllOption dir rest (λ p n x k. h p n x (inr (inr k))))

    print_below-AllLines :
        (rel : FilePath) (name : Text) (node : Node)
        → ((p : FilePath) (n : Text) (x : Node)
            → Below rel name node p n x
            → P (line lower_exists p n x))
        → AllLines (print_below lower_exists rel name node)
    print_below-AllLines rel name (directory es) h = unless_wh (is_wh_name name) _ (λ named.
        of_blocks-AllLines (blocks_of lower_exists rel es)
          (blocks_of-AllOption rel es (λ p n x k. h p n x (named, k))))
    print_below-AllLines rel name unreadable h = unless_wh (is_wh_name name) _ (λ _. tt)
    print_below-AllLines rel name unknown h = tt
    print_below-AllLines rel name (char_device rdev) h = tt
    print_below-AllLines rel name (symlink to_whiteout) h = tt
    print_below-AllLines rel name regular h = tt

  pub walk_upper-All :
      (dir : FilePath) (es : Entries)
      → ((p : FilePath) (n : Text) (x : Node) → Holds dir es p n x → P (line lower_exists p n x))
      → All P (walk_upper lower_exists dir es).lines
  unfolding walk_upper
  walk_upper-All dir es h =
      of_blocks-AllLines (blocks_of lower_exists dir es) (blocks_of-AllOption dir es h)

-- An entry that a line is about.
abbrev pub IsAbout : (FilePath → Bool) → FilePath → Entries → DiffEntry → Type 0
IsAbout lower_exists dir es e =
    (name : Text) × (node : Node) × Holds dir es e.path name node
    × IsKind lower_exists e.path name node e.change_type
