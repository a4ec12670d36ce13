-- ===== src/Guest/Diff/Complete.antt =====
-- The lines of src/diff.rs and the entries of upper/, which are as many.
use fastenv.Base.{
  Text, Bool, true, false, List, [], ◌∷◌, ◌++◌, All, Option, none, some, ◌≡◌, ◌⊎◌, refl, Bool-cases,
  inl, inr,
}
use fastenv.Os.Paths.{FilePath}
use fastenv.Guest.Diff.{
  DiffEntry, Node, Entries, directory, char_device, symlink, regular, unreadable, unknown, end,
  broken, entry, Block, name_before, insert_block, print_blocks, add_block, of_blocks, blocks_of,
  print_below, walk_upper,
}
use fastenv.Guest.Diff.Kinds.{
  Holds, Below, IsKind, line, change_type_of-IsKind, IsAbout, walk_upper-All,
}

abbrev pub Among : DiffEntry → List DiffEntry → Type 0
Among e [] = ⊥
Among e (l ∷ ls) = (l ≡ e) ⊎ Among e ls

Among-left : (e : DiffEntry) (ls ms : List DiffEntry) → Among e ls → Among e (ls ++ ms)
Among-left e [] ms h = absurd h
Among-left e (l ∷ ls) ms (inl h) = inl h
Among-left e (l ∷ ls) ms (inr h) = inr (Among-left e ls ms h)

Among-right : (e : DiffEntry) (ls ms : List DiffEntry) → Among e ms → Among e (ls ++ ms)
Among-right e [] ms h = h
Among-right e (l ∷ ls) ms h = inr (Among-right e ls ms h)

true-false : ¬ (true ≡ false)
true-false h = cc

-- No block fails.
abbrev AreFine : List Block → Type 0
AreFine bs = All (λ b. b.1.failed ≡ false) bs

abbrev InBlocks : DiffEntry → List Block → Type 0
InBlocks e [] = ⊥
InBlocks e (b ∷ bs) = Among e b.1.lines ⊎ InBlocks e bs

print_blocks-AreFine : (bs : List Block) → (print_blocks bs).failed ≡ false → AreFine bs
unfolding print_blocks
print_blocks-AreFine [] h = tt
print_blocks-AreFine (b ∷ bs) h = elim (Bool-cases b.1.failed) [
  | inl t ↦ absurd (true-false (rw t at h))
  | inr f ↦ (f, print_blocks-AreFine bs (rw f at h))
]

print_blocks-Among :
    (e : DiffEntry) (bs : List Block) → AreFine bs → InBlocks e bs → Among e (print_blocks bs).lines
unfolding print_blocks
print_blocks-Among e [] h k = absurd k
print_blocks-Among e (b ∷ bs) h (inl k) = rw h.0 (Among-left e b.1.lines _ k)
print_blocks-Among e (b ∷ bs) h (inr k) =
    rw h.0 (Among-right e b.1.lines _ (print_blocks-Among e bs h.1 k))

insert_block-AreFine :
    (b : Block) (bs : List Block) → AreFine (insert_block b bs) → (b.1.failed ≡ false) × AreFine bs
unfolding insert_block
insert_block-AreFine b [] h = h
insert_block-AreFine b (c ∷ bs) h = elim (Bool-cases (name_before b.0 c.0)) [
  | inl t ↦ rw t at h
  | inr f ↦
      let k : (c.1.failed ≡ false) × AreFine (insert_block b bs) = rw f at h in
      let rest = insert_block-AreFine b bs k.1 in (rest.0, (k.0, rest.1))
]

insert_block-here :
    (e : DiffEntry) (b : Block) (bs : List Block)
    → Among e b.1.lines
    → InBlocks e (insert_block b bs)
unfolding insert_block
insert_block-here e b [] h = inl h
insert_block-here e b (c ∷ bs) h = elim (Bool-cases (name_before b.0 c.0)) [
  | inl t ↦ rw t (inl h)
  | inr f ↦ rw f (inr (insert_block-here e b bs h))
]

insert_block-later :
    (e : DiffEntry) (b : Block) (bs : List Block) → InBlocks e bs → InBlocks e (insert_block b bs)
unfolding insert_block
insert_block-later e b [] h = absurd h
insert_block-later e b (c ∷ bs) (inl h) = elim (Bool-cases (name_before b.0 c.0)) [
  | inl t ↦ rw t (inr (inl h))
  | inr f ↦ rw f (inl h)
]
insert_block-later e b (c ∷ bs) (inr h) = elim (Bool-cases (name_before b.0 c.0)) [
  | inl t ↦ rw t (inr (inr h))
  | inr f ↦ rw f (inr (insert_block-later e b bs h))
]

module _ (lower_exists : FilePath → Bool) where
  abbrev IsFine : Option (List Block) → Type 0
  IsFine none = ⊥
  IsFine (some bs) = AreFine bs

  abbrev In : DiffEntry → Option (List Block) → Type 0
  In e none = ⊥
  In e (some bs) = InBlocks e bs

  add_block-IsFine :
      (b : Block) (o : Option (List Block))
      → IsFine (add_block lower_exists b o)
      → (b.1.failed ≡ false) × IsFine o
  add_block-IsFine b none h = absurd h
  add_block-IsFine b (some bs) h = insert_block-AreFine b bs h

  add_block-here :
      (e : DiffEntry) (b : Block) (o : Option (List Block))
      → IsFine o
      → Among e b.1.lines
      → In e (add_block lower_exists b o)
  add_block-here e b none h k = absurd h
  add_block-here e b (some bs) h k = insert_block-here e b bs k

  add_block-later :
      (e : DiffEntry) (b : Block) (o : Option (List Block))
      → In e o
      → In e (add_block lower_exists b o)
  add_block-later e b none k = absurd k
  add_block-later e b (some bs) k = insert_block-later e b bs k

  of_blocks-IsFine :
      (o : Option (List Block)) → (of_blocks lower_exists o).failed ≡ false → IsFine o
  of_blocks-IsFine none h = cc
  of_blocks-IsFine (some bs) h = print_blocks-AreFine bs h

  of_blocks-Among :
      (e : DiffEntry) (o : Option (List Block))
      → IsFine o
      → In e o
      → Among e (of_blocks lower_exists o).lines
  of_blocks-Among e none h k = absurd h
  of_blocks-Among e (some bs) h k = print_blocks-Among e bs h k

  mutual
    unfolding blocks_of Holds

    blocks_of-In :
        (dir : FilePath) (es : Entries) (p : FilePath) (n : Text) (x : Node)
        → Holds dir es p n x
        → IsFine (blocks_of lower_exists dir es)
        → In (line lower_exists p n x) (blocks_of lower_exists dir es)
    blocks_of-In dir end p n x h f = absurd h
    blocks_of-In dir broken p n x h f = absurd h
    blocks_of-In dir (entry name node rest) p n x (inl h) f =
        add_block-here _ _ (blocks_of lower_exists dir rest)
          (add_block-IsFine _ (blocks_of lower_exists dir rest) f).1 (inl (rw (h.0, h.1, h.2) refl))
    blocks_of-In dir (entry name node rest) p n x (inr (inl h)) f =
        let fine = add_block-IsFine _ (blocks_of lower_exists dir rest) f in
        add_block-here _ _ (blocks_of lower_exists dir rest) fine.1
          (inr (print_below-Among (dir ++ name ∷ []) name node p n x h fine.0))
    blocks_of-In dir (entry name node rest) p n x (inr (inr h)) f =
        add_block-later _ _ (blocks_of lower_exists dir rest)
          (blocks_of-In dir rest p n x h (add_block-IsFine _ (blocks_of lower_exists dir rest) f).1)

    print_below-Among :
        (rel : FilePath) (name : Text) (node : Node) (p : FilePath) (n : Text) (x : Node)
        → Below rel name node p n x
        → (print_below lower_exists rel name node).failed ≡ false
        → Among (line lower_exists p n x) (print_below lower_exists rel name node).lines
    print_below-Among rel name (directory es) p n x h f =
        let fine = of_blocks-IsFine (blocks_of lower_exists rel es) (rw h.0 at f) in
        rw h.0 (
          of_blocks-Among (line lower_exists p n x) (blocks_of lower_exists rel es) fine
            (blocks_of-In rel es p n x h.1 fine))
    print_below-Among rel name (char_device rdev) p n x h f = absurd h
    print_below-Among rel name (symlink to_whiteout) p n x h f = absurd h
    print_below-Among rel name regular p n x h f = absurd h
    print_below-Among rel name unreadable p n x h f = absurd h
    print_below-Among rel name unknown p n x h f = absurd h

  -- Every line that walk_upper prints, whatever the tree and wherever it fails, is about an entry
  -- of upper/ that no directory with the name of a whiteout hides, and says deleted for a whiteout,
  -- and otherwise modified if the path exists below the base and added if not; if the walk does not
  -- fail, every such entry has its line.
  pub walk_upper_reports :
      (dir : FilePath) (es : Entries)
      → All (IsAbout lower_exists dir es) (walk_upper lower_exists dir es).lines
        × ((p : FilePath) (name : Text) (node : Node)
            → Holds dir es p name node
            → (walk_upper lower_exists dir es).failed ≡ false
            → (e : DiffEntry) × (e.path ≡ p)
              × IsKind lower_exists p name node e.change_type
              × Among e (walk_upper lower_exists dir es).lines)
  unfolding walk_upper
  walk_upper_reports dir es = (
    walk_upper-All lower_exists (IsAbout lower_exists dir es) dir es
        (λ p n x h. (n, x, h, change_type_of-IsKind lower_exists p n x)),
    λ p n x h f.
        let fine = of_blocks-IsFine (blocks_of lower_exists dir es) f in
        (
          line lower_exists p n x,
          refl,
          change_type_of-IsKind lower_exists p n x,
          of_blocks-Among (line lower_exists p n x) (blocks_of lower_exists dir es) fine
              (blocks_of-In dir es p n x h fine),
        ),
  )
