-- ===== src/HostEbpf/Load/Steps.antt =====
-- What each step of loading and attaching a program has done.
use fastenv.Base.{
  ◌==◌, eq_iff, length, ◌/◌, ◌%◌, ◌^◌, ℕ, Text, Bytes, contains, Bool, true, false, List, ◌∷◌, ◌++◌,
  Option, none, some, Result, ok, err, ◌≡◌, refl, ap, ◌∙◌, sym, subst, if◌then◌else◌, nat_Eq,
  list_Eq, eq_refl, ◌||◌, Outcome, returned, raised, Outcome-bind, Outcome-if, Bool-cases, ◌>>=◌,
  pure, inl, inr, some-injective, any,
}
use fastenv.Os.Paths.{FilePath, inits}
use fastenv.HostEbpf.AttachPoint.{AttachPoint, tc, tracepoint, kprobe, raw, TcDirection, tc_handle}
use fastenv.HostEbpf.Elf.{ElfError, bpf_prog_type_unspecified}
use fastenv.HostEbpf.Object.{Program, load_bpf_object_file, infer_tc_section}
use fastenv.HostEbpf.Load.{
  BpfProgLoadAttr, prog_type_from_attach_point, clsact_add, filter_add, read_bytes, TcFilter,
  Kernel, LoadError, Tools, load_attr, LoadedEbpfPolicy, bpf_pin_path, read_object, loaded_program,
  parsed_object, parent, bpf_load, load_bpf_prog_from_object, ran, tc_command, tc_attach_bpf,
  pin_bpf_prog, tc_section, pinned_at, with_handle, with_pin, attach_loaded,
}

module _ (project_id name : Text) where
  -- What holds a program of each attach point: a filter's handle, or a pin if it could be made.
  abbrev pub Pinned : LoadedEbpfPolicy → Kernel → Kernel → Type 0
  Pinned l k k' =
      (l.tc_handle ≡ none)
      × (k'.filters ≡ k.filters)
      × ((q : FilePath)
          → l.pin_path ≡ some q
          → (q ≡ bpf_pin_path project_id name) × (contains k'.bpffs q ≡ true))

  abbrev pub Held : AttachPoint → LoadedEbpfPolicy → Kernel → Kernel → Type 0
  Held (tc device direction) l k k' =
      (l.tc_handle ≡ some (tc_handle device direction)) × (l.pin_path ≡ none) × (k'.bpffs ≡ k.bpffs)
  Held (tracepoint category event) l k k' = Pinned l k k'
  Held (kprobe function) l k k' = Pinned l k k'
  Held (raw s) l k k' = Pinned l k k'

module _ (p : Program) (name : Text) (point : AttachPoint) where
  attr_insns : (load_attr p name point).insns ≡ p.insns
  unfolding load_attr
  attr_insns = refl

  attr_insn_cnt : (load_attr p name point).insn_cnt ≡ length p.insns / 8 % 2 ^ 32
  unfolding load_attr
  attr_insn_cnt = refl

  attr_inferred :
      ¬ (p.prog_type ≡ bpf_prog_type_unspecified) → (load_attr p name point).prog_type ≡ p.prog_type
  unfolding load_attr
  attr_inferred f = elim (Bool-cases (p.prog_type == bpf_prog_type_unspecified)) [
    | inl t ↦ absurd (f ((eq_iff _ _).0 t))
    | inr g ↦ rw g refl
  ]

  attr_by_point :
      p.prog_type ≡ bpf_prog_type_unspecified
      → (load_attr p name point).prog_type ≡ prog_type_from_attach_point point
  unfolding load_attr
  attr_by_point e = rw ((eq_iff p.prog_type bpf_prog_type_unspecified).1 e) refl

module _ (tools : Tools) (now project_id name : Text) (object_path : FilePath) where
  -- The program that the object holds is the latest one in the kernel, with this descriptor.
  pub record Loaded (point : AttachPoint) (fd : ℕ) (k k' : Kernel) : Type 0 where
    pub image : Bytes
    pub read : read_object tools object_path k ≡ some image
    pub program : Program
    pub parsed : load_bpf_object_file image ≡ ok program
    pub attr : BpfProgLoadAttr
    pub accepted : tools.bpf_prog_load attr ≡ some fd
    pub latest : k'.loaded ≡ attr ∷ k.loaded
    -- What the kernel is given is the program of the object.
    pub insns : attr.insns ≡ program.insns
    pub insn_cnt : attr.insn_cnt ≡ length program.insns / 8 % 2 ^ 32
    pub inferred :
        ¬ (program.prog_type ≡ bpf_prog_type_unspecified) → attr.prog_type ≡ program.prog_type
    pub by_point :
        program.prog_type ≡ bpf_prog_type_unspecified
        → attr.prog_type ≡ prog_type_from_attach_point point

  -- `tc` has added a filter with the section of the classifier, after the `clsact`.
  pub record Filtered (device : Text) (direction : TcDirection) (k k' : Kernel) : Type 0 where
    pub section : Text
    pub inferred : infer_tc_section (read_object tools object_path k) ≡ ok section
    pub had_clsact : Bool
    pub before : List TcFilter
    pub clsact : tools.run_tc (clsact_add device) k.filters ≡ some (had_clsact, before)
    pub added :
        tools.run_tc (filter_add object_path device direction section) before
        ≡ some (true, k'.filters)

  abbrev pub Hooked : AttachPoint → Kernel → Kernel → Type 0
  Hooked (tc device direction) k k' = Filtered device direction k k'
  Hooked (tracepoint category event) k k' = Unit
  Hooked (kprobe function) k k' = Unit
  Hooked (raw s) k k' = Unit

  pub record Attached (point : AttachPoint) (k : Kernel) (l : LoadedEbpfPolicy) (k' : Kernel)
      : Type 0 where
    pub loaded : Loaded point l.prog_fd k k'
    pub held : Held project_id name point l k k'
    pub hooked : Hooked point k k'

  -- An error has pinned nothing.
  abbrev pub Unpinned : Kernel → LoadError → Kernel → Type 0
  Unpinned k e k' = k'.bpffs ≡ k.bpffs

  -- After the load: nothing else of the kernel has changed.
  pub record InKernel (point : AttachPoint) (k : Kernel) (fd : ℕ) (k' : Kernel) : Type 0 where
    pub loaded : Loaded point fd k k'
    pub same_bpffs : k'.bpffs ≡ k.bpffs
    pub same_filters : k'.filters ≡ k.filters
    pub same_objects : k'.objects ≡ k.objects

  record Readable (k : Kernel) (p : Program) : Type 0 where
    image : Bytes
    read : read_object tools object_path k ≡ some image
    parsed : load_bpf_object_file image ≡ ok p

  parse_image :
      (k : Kernel) (image : Bytes)
      → read_object tools object_path k ≡ some image
      → (r : Result ElfError Program) → load_bpf_object_file image ≡ r
      → Outcome (λ p s. (s ≡ k) × Readable k p) (Unpinned k) (parsed_object tools r, k)
  parse_image k image e (err _) h = raised refl
  parse_image k image e (ok p) h = returned (refl, record { image = image; read = e; parsed = h })

  read_image :
      (k : Kernel) (o : Option Bytes)
      → read_object tools object_path k ≡ o
      → Outcome (λ p s. (s ≡ k) × Readable k p) (Unpinned k) (loaded_program tools o, k)
  read_image k none e = raised refl
  read_image k (some image) e = parse_image k image e (load_bpf_object_file image) refl

  load_accepted :
      (point : AttachPoint) (k : Kernel) (p : Program)
      → Readable k p
      → (o : Option ℕ) → tools.bpf_prog_load (load_attr p name point) ≡ o
      → Outcome (InKernel point k) (Unpinned k) (bpf_load tools (load_attr p name point) o k)
  load_accepted point k p r none e = raised refl
  load_accepted point k p r (some fd) e = returned (record {
    loaded = record {
      image = r.image;
      read = r.read;
      program = p;
      parsed = r.parsed;
      attr = load_attr p name point;
      accepted = e;
      latest = refl;
      insns = attr_insns p name point;
      insn_cnt = attr_insn_cnt p name point;
      inferred = attr_inferred p name point;
      by_point = attr_by_point p name point;
    };
    same_bpffs = refl;
    same_filters = refl;
    same_objects = refl;
  })

  pub load_program :
      (point : AttachPoint) (k : Kernel)
      → Outcome
          (InKernel point k)
          (Unpinned k)
          (load_bpf_prog_from_object tools object_path name point k)
  unfolding load_bpf_prog_from_object
  load_program point k =
      Outcome-bind _ _ k (read_image k (read_object tools object_path k) refl) (λ p s h.
        subst
          (λ t. Outcome (InKernel point k) (Unpinned k) (
            bpf_load tools (load_attr p name point) (tools.bpf_prog_load (load_attr p name point))
              t))
          (sym h.0) (load_accepted point k p h.1 _ refl))

  -- What `tc` leaves of the kernel.
  pub record Kept (k k' : Kernel) : Type 0 where
    pub same_loaded : k'.loaded ≡ k.loaded
    pub same_bpffs : k'.bpffs ≡ k.bpffs

  ran-Kept :
      {k : Kernel} (s : Kernel) (args : List Text)
      → Kept k s
      → (o : Option (Bool × List TcFilter)) → tools.run_tc args s.filters ≡ o
      → Outcome
          (λ b s'. Kept k s' × (tools.run_tc args s.filters ≡ some (b, s'.filters)))
          (λ _ s'. Kept k s')
          (ran tools o s)
  ran-Kept s args h none e = raised h
  ran-Kept s args h (some (success, filters)) e =
      returned (record { same_loaded = h.same_loaded; same_bpffs = h.same_bpffs }, e)

  tc_command-Kept :
      {k : Kernel} (args : List Text) (s : Kernel)
      → Kept k s
      → Outcome
          (λ b s'. Kept k s' × (tools.run_tc args s.filters ≡ some (b, s'.filters)))
          (λ _ s'. Kept k s')
          (tc_command tools args s)
  unfolding tc_command
  tc_command-Kept args s h = ran-Kept s args h (tools.run_tc args s.filters) refl

  -- What attaching a filter does to the filters.
  abbrev Adds : Text → TcDirection → Text → Kernel → Kernel → Type 0
  Adds device direction section s s' =
      (had_clsact : Bool) × (before : List TcFilter) × (tools.run_tc (clsact_add device) s.filters
        ≡ some (had_clsact, before))
      × (tools.run_tc (filter_add object_path device direction section) before
          ≡ some (true, s'.filters))

  tc_attach_bpf-Kept :
      {k : Kernel} (device : Text) (direction : TcDirection) (section_name : Text) (s : Kernel)
      → Kept k s
      → Outcome
          (λ handle s'.
            (handle ≡ tc_handle device direction)
            × Kept k s'
            × Adds device direction section_name s s')
          (λ _ s'. Kept k s')
          (tc_attach_bpf tools object_path device direction section_name s)
  unfolding tc_attach_bpf
  tc_attach_bpf-Kept device direction section_name s h =
      Outcome-bind _ _ s (tc_command-Kept _ s h) (λ clsact s1 h1.
        Outcome-bind _ _ s1 (tc_command-Kept _ s1 h1.0) (λ b s2 h2.
          Outcome-if b
            (λ t. returned (
              refl,
              h2.0,
              (
                clsact,
                s1.filters,
                h1.1,
                subst
                    (λ (x : Bool).
                      tools.run_tc (filter_add object_path device direction section_name) s1.filters
                      ≡ some (x, s2.filters))
                    t h2.1,
              ),
            ))
            (λ _. raised h2.0)))

  section-Kept :
      (k : Kernel) (r : Result ElfError Text)
      → Outcome (λ section s. (s ≡ k) × (r ≡ ok section)) (λ _ s. Kept k s) (tc_section tools r k)
  section-Kept k (ok section) = returned (refl, refl)
  section-Kept k (err e) = raised (record { same_loaded = refl; same_bpffs = refl })

  Loaded-later :
      {point : AttachPoint} {fd : ℕ} {k k1 k2 : Kernel}
      → Loaded point fd k k1
      → k2.loaded ≡ k1.loaded
      → Loaded point fd k k2
  Loaded-later l e = record {
    image = l.image;
    read = l.read;
    program = l.program;
    parsed = l.parsed;
    attr = l.attr;
    accepted = l.accepted;
    latest = e ∙ l.latest;
    insns = l.insns;
    insn_cnt = l.insn_cnt;
    inferred = l.inferred;
    by_point = l.by_point;
  }

  filter_held :
      (device : Text) (direction : TcDirection) (fd : ℕ) (k k1 s : Kernel) (handle section : Text)
      → InKernel (tc device direction) k fd k1
      → infer_tc_section (read_object tools object_path k1) ≡ ok section
      → handle ≡ tc_handle device direction
      → Kept k1 s
      → Adds device direction section k1 s
      → Attached (tc device direction) k (with_handle tools now fd handle) s
  filter_held device direction fd k k1 s handle section l named e h
        (clsact, before, first, second) =
      record {
        loaded = Loaded-later l.loaded h.same_loaded;
        held = (ap some e, refl, h.same_bpffs ∙ l.same_bpffs);
        hooked = record {
          section = section;
          inferred =
              subst
                (λ objects.
                  infer_tc_section (read_bytes tools object_path (objects object_path))
                  ≡ ok section)
                l.same_objects named;
          had_clsact = clsact;
          before = before;
          clsact =
              subst (λ fs. tools.run_tc (clsact_add device) fs ≡ some (clsact, before))
                l.same_filters first;
          added = second;
        };
      }

  pub attach_filter :
      (device : Text) (direction : TcDirection) (fd : ℕ) (k k1 : Kernel)
      → InKernel (tc device direction) k fd k1
      → Outcome
          (Attached (tc device direction) k)
          (λ _ s. Kept k1 s)
          (attach_loaded tools now project_id name object_path (tc device direction) fd k1)
  unfolding attach_loaded
  attach_filter device direction fd k k1 l =
      Outcome-bind _ _ k1 (section-Kept k1 (infer_tc_section (read_object tools object_path k1)))
        (λ section s h.
          subst
            (λ x.
              Outcome (Attached (tc device direction) k) (λ _ s. Kept k1 s)
                ((tc_attach_bpf tools object_path device direction section >>= λ handle.
                    pure (with_handle tools now fd handle))
                  x))
            (sym h.0)
            (Outcome-bind _ _ k1
              (tc_attach_bpf-Kept device direction section k1
                (record { same_loaded = refl; same_bpffs = refl }))
              (λ handle s1 h1.
                returned
                  (filter_held device direction fd k k1 s1 handle section l h.1 h1.0 h1.1 h1.2))))

  -- What making a pin leaves.
  abbrev pub Pins : FilePath → Kernel → Bool × Kernel → Type 0
  Pins path k (pinned, k') =
      (k'.loaded ≡ k.loaded)
      × (k'.filters ≡ k.filters)
      × (pinned ≡ true → contains k'.bpffs path ≡ true)

  pub pin_bpf_prog-Pins : (path : FilePath) (k : Kernel) → Pins path k (pin_bpf_prog tools path k)
  unfolding pin_bpf_prog
  pin_bpf_prog-Pins path k = elim (Bool-cases (tools.create_dir_fails (parent path))) [
    | inl t ↦ rw t (refl, refl, λ e. cc)
    | inr f ↦
        rw f (made-Pins path k (any (λ part. contains part 0) path || tools.bpf_obj_pin_fails path))
  ]
    where
      made-Pins :
          (path : FilePath) (k : Kernel) (b : Bool)
          → Pins path k (
              if b
              then (false, record k { bpffs = inits (parent path) ++ k.bpffs })
              else (true, record k { bpffs = path ∷ (inits (parent path) ++ k.bpffs) }))
      made-Pins path k true = (refl, refl, λ e. cc)
      made-Pins path k false = (refl, refl, λ e. rw (eq_refl path) refl)

  pinned_path :
      (path : FilePath) (pinned : Bool) (q : FilePath)
      → pinned_at tools path pinned ≡ some q
      → (pinned ≡ true) × (q ≡ path)
  pinned_path path true q e = (refl, sym (some-injective e))
  pinned_path path false q e = cc

  pub attach_pin :
      (point : AttachPoint) (fd : ℕ) (k k1 : Kernel) (r : Bool × Kernel)
      → InKernel point k fd k1
      → Pins (bpf_pin_path project_id name) k1 r
      → Outcome
          (λ p s. Loaded point p.prog_fd k s × Pinned project_id name p k s)
          (Unpinned k)
          (with_pin tools now fd (bpf_pin_path project_id name) r)
  attach_pin point fd k k1 (pinned, k2) l h = returned (
    Loaded-later l.loaded h.0,
    (
      refl,
      h.1 ∙ l.same_filters,
      λ q e.
          let (t, same) = pinned_path (bpf_pin_path project_id name) pinned q e in
          (same, ap (contains k2.bpffs) same ∙ h.2 t),
    ),
  )
