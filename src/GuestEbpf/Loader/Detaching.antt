-- ===== src/GuestEbpf/Loader/Detaching.antt =====
-- Detaching releases what attaching has taken.
use fastenv.Base.{
  ℕ, Text, text, Bytes, contains, false, not, ◌||◌, List, [], ◌∷◌, ◌++◌, filter, Option, none, some,
  Result, ok, err, ◌==◌, nat_Eq, list_Eq, eq_refl, ◌≡◌, refl, ap, ◌∙◌, sym, subst, Bool-cases, inl,
  inr, arith, Outcome, returned, raised, Outcome-bind, Outcome-if, Outcome-weaken, Outcome-ok, any,
}
use fastenv.Os.Paths.{FilePath}
use fastenv.HostEbpf.Elf.{bpf_prog_type_tracepoint}
use fastenv.HostEbpf.Load.{BpfProgLoadAttr, parent}
use fastenv.HostEbpf.Load.Detaching.{contains-filter-not, remove_empty-gone}
use fastenv.GuestEbpf.Loader.{
  bpf_prog_type_cgroup_skb, GuestKernel, GuestTools, GuestEbpfPolicy, GuestEbpfLoader, Unavailable,
  fds_of, is_panic, guest_program, guest_attr, opened, load_guest_bpf_prog, degraded, try_load,
  load_tracepoint, load_cgroup_skb, byte_prefix, pin_guest_bpf_prog, pin_of, pin_tracepoint, attach,
  close, remove_pin, detach,
}

-- The kernel gives a descriptor that is not open.
abbrev pub GivesFresh : GuestTools → Type 0
GivesFresh tools =
    (attr : BpfProgLoadAttr) (fds : List ℕ) (fd : ℕ)
    → tools.bpf_prog_load attr fds ≡ some fd
    → contains fds fd ≡ false

abbrev IsNew : Option ℕ → List ℕ → Type 0
IsNew none fds = Unit
IsNew (some fd) fds = contains fds fd ≡ false

-- A step that has opened this descriptor, if any.
record Opened (k : GuestKernel) (o : Option ℕ) (k' : GuestKernel) : Type 0 where
  fds : k'.open_fds ≡ fds_of o ++ k.open_fds
  is_new : IsNew o k.open_fds

none-Opened : (k : GuestKernel) → Opened k none k
none-Opened k = record { fds = refl; is_new = tt }

module _ (tools : GuestTools) (fresh : GivesFresh tools) where
  opened-Opened :
      (attr : BpfProgLoadAttr) (k : GuestKernel) (o : Option ℕ)
      → tools.bpf_prog_load attr k.open_fds ≡ o
      → Outcome (λ fd k'. Opened k (some fd) k') (λ _ k'. k' ≡ k) (opened tools o k)
  opened-Opened attr k none e = raised refl
  opened-Opened attr k (some fd) e =
      returned (record { fds = refl; is_new = fresh attr k.open_fds fd e })

  load-Opened :
      (object_path : Option FilePath) (name : Text) (prog_type : ℕ) (k : GuestKernel)
      → Outcome
          (λ fd k'. Opened k (some fd) k')
          (λ _ k'. k' ≡ k)
          (load_guest_bpf_prog tools object_path name prog_type k)
  unfolding load_guest_bpf_prog
  load-Opened object_path name prog_type k =
      Outcome-bind {P = λ _ s. s ≡ k} _ _ k (read (guest_program tools object_path k)) (λ p s e.
        subst
          (λ x.
            Outcome (λ fd k'. Opened k (some fd) k') (λ _ k'. k' ≡ k)
              (opened tools (tools.bpf_prog_load (guest_attr tools p name prog_type) x.open_fds) x))
          (sym e) (opened-Opened (guest_attr tools p name prog_type) k _ refl))
    where
      read : (r : Result Unavailable (Bytes × Text)) → Outcome (λ _ s. s ≡ k) (λ _ s. s ≡ k) (r, k)
      read (ok p) = returned refl
      read (err e) = raised refl

  degraded-Opened :
      (k : GuestKernel) {r : Result Unavailable ℕ × GuestKernel}
      → Outcome (λ fd k'. Opened k (some fd) k') (λ _ k'. k' ≡ k) r
      → Outcome (Opened k) (λ _ k'. k' ≡ k) (degraded tools r)
  degraded-Opened k (returned p) = returned p
  degraded-Opened k (raised {e = e} {s = s} same) =
      Outcome-if (is_panic e) (λ _. raised same)
        (λ _. returned (subst (Opened k none) (sym same) (none-Opened k)))

  try_load-Opened :
      (object_path : Option FilePath) (prefix : Text) (id : Option Text) (prog_type : ℕ)
      (k : GuestKernel)
      → Outcome (Opened k) (λ _ k'. k' ≡ k) (try_load tools object_path prefix id prog_type k)
  try_load-Opened object_path prefix none prog_type k = raised refl
  try_load-Opened object_path prefix (some id) prog_type k =
      degraded-Opened k (load-Opened object_path (prefix ++ id) prog_type k)

  tracepoint-Opened :
      (policy : GuestEbpfPolicy) (tp : Option Text) (k : GuestKernel)
      → Outcome (Opened k) (λ _ k'. k' ≡ k) (load_tracepoint tools policy tp k)
  unfolding load_tracepoint
  tracepoint-Opened policy none k =
      try_load-Opened policy.object_path (text "gprobe-") (byte_prefix 6 policy.container_id)
        bpf_prog_type_tracepoint k
  tracepoint-Opened policy (some tp) k =
      try_load-Opened policy.object_path (text "gtp-") (byte_prefix 8 policy.container_id)
        bpf_prog_type_tracepoint k

  cgroup-Opened :
      (policy : GuestEbpfPolicy) (path : Option FilePath) (k : GuestKernel)
      → Outcome (Opened k) (λ _ k'. k' ≡ k) (load_cgroup_skb tools policy path k)
  unfolding load_cgroup_skb
  cgroup-Opened policy none k = returned (none-Opened k)
  cgroup-Opened policy (some path) k =
      try_load-Opened policy.object_path (text "gskb-") (byte_prefix 8 policy.container_id)
        bpf_prog_type_cgroup_skb k

  -- Pinning opens and closes nothing, and what is pinned is there.
  abbrev Pinned : GuestKernel → Option FilePath → GuestKernel → Type 0
  Pinned k pin k' = k'.open_fds ≡ k.open_fds

  pin-Pinned :
      (path : FilePath) (k : GuestKernel)
      → Outcome (Pinned k) (λ _ _. Unit) (pin_of tools path (pin_guest_bpf_prog tools path k))
  unfolding pin_guest_bpf_prog
  pin-Pinned path k = elim (Bool-cases (tools.create_dir_fails (parent path))) [
    | inl t ↦ rw t (returned refl)
    | inr f ↦
        elim (Bool-cases (any (λ part. contains part 0) path || tools.bpf_obj_pin_fails path)) [
          | inl t ↦ rw (f, t) (returned refl)
          | inr g ↦ rw (f, g) (returned refl)
        ]
  ]

  tracepoint-Pinned :
      (container_id : Text) (o : Option ℕ) (k : GuestKernel)
      → Outcome (Pinned k) (λ _ _. Unit) (pin_tracepoint tools container_id o k)
  unfolding pin_tracepoint
  tracepoint-Pinned container_id none k = returned refl
  tracepoint-Pinned container_id (some fd) k = pin-Pinned _ k

-- What an attached loader holds.
record Held (k : GuestKernel) (loader : GuestEbpfLoader) (k' : GuestKernel) : Type 0 where
  fds : k'.open_fds ≡ fds_of loader.cgroup_skb_fd ++ (fds_of loader.tracepoint_fd ++ k.open_fds)
  tracepoint_new : IsNew loader.tracepoint_fd k.open_fds
  cgroup_new : IsNew loader.cgroup_skb_fd (fds_of loader.tracepoint_fd ++ k.open_fds)

attach-Held :
    (tools : GuestTools) (fresh : GivesFresh tools) (now : Text) (policy : GuestEbpfPolicy)
    (k : GuestKernel)
    → Outcome (Held k) (λ _ _. Unit) (attach tools now policy k)
unfolding attach
attach-Held tools fresh now policy k =
    Outcome-bind _ _ k
      (Outcome-weaken (tracepoint-Opened tools fresh policy policy.tracepoint_attach k) (λ _ _ h. h)
        (λ _ _ h. tt))
      (λ tp k1 t.
        Outcome-bind _ _ k1
          (Outcome-weaken (cgroup-Opened tools fresh policy policy.cgroup_path k1) (λ _ _ h. h)
            (λ _ _ h. tt))
          (λ cg k2 c.
            Outcome-bind _ _ k2 (tracepoint-Pinned tools fresh policy.container_id tp k2)
              (λ pin k3 p. returned (record {
                fds = p ∙ (c.fds ∙ ap (λ fds. fds_of cg ++ fds) t.fds);
                tracepoint_new = t.is_new;
                cgroup_new = subst (IsNew cg) t.fds c.is_new;
              }))))

filter-new :
    (fd : ℕ) (fds : List ℕ)
    → contains fds fd ≡ false
    → filter (λ other. not (other == fd)) fds ≡ fds
filter-new fd [] h = refl
filter-new fd (x ∷ fds) h = ground (arith, filter-new fd fds)

module _ (tools : GuestTools) where
  close-fds :
      (o : Option ℕ) (fds : List ℕ) (k : GuestKernel)
      → IsNew o fds
      → k.open_fds ≡ fds_of o ++ fds
      → (close tools o k).open_fds ≡ fds
  close-fds none fds k h e = e
  close-fds (some fd) fds k h e =
      ap (filter (λ other. not (other == fd))) e ∙ rw (eq_refl fd) (filter-new fd fds h)

  -- The descriptors are closed in the other order than they were opened in.
  both-closed :
      (cg tp : Option ℕ) (fds : List ℕ) (k : GuestKernel)
      → IsNew tp fds
      → IsNew cg (fds_of tp ++ fds)
      → k.open_fds ≡ fds_of cg ++ (fds_of tp ++ fds)
      → (close tools cg (close tools tp k)).open_fds ≡ fds
  both-closed none tp fds k h g e = close-fds tp fds k h e
  both-closed (some c) none fds k h g e = close-fds (some c) fds k g e
  both-closed (some c) (some t) fds k h g e =
      close-fds (some c) fds (close tools (some t) k) c_new (
        ap (filter (λ other. not (other == t))) e
        ∙ rw (apart, eq_refl t) (ap (λ rest. c ∷ rest) (filter-new t fds h)))
    where
      c_new : contains fds c ≡ false
      c_new = ground arith

      apart : (c == t) ≡ false
      apart = ground arith

  remove_pin-fds :
      (pin : Option FilePath) (k : GuestKernel) → (remove_pin tools pin k).open_fds ≡ k.open_fds
  remove_pin-fds none k = refl
  remove_pin-fds (some p) k =
      elim (Bool-cases (not (contains k.bpffs p) || tools.remove_file_fails p)) [
        | inl t ↦ rw t refl
        | inr f ↦ rw f refl
      ]

  remove_pin-gone :
      ((p : FilePath) → tools.remove_file_fails p ≡ false)
      → (p : FilePath) (k : GuestKernel) → contains (remove_pin tools (some p) k).bpffs p ≡ false
  remove_pin-gone removes p k = elim (Bool-cases (contains k.bpffs p)) [
    | inl t ↦ rw (t, removes p) (remove_empty-gone (parent p) p _ (contains-filter-not p k.bpffs))
    | inr f ↦ rw f f
  ]

pub detach-fds :
    (tools : GuestTools)
    → GivesFresh tools
    → (now : Text) (policy : GuestEbpfPolicy) (k : GuestKernel)
    → Outcome
        (λ loader k1. (detach tools loader k1).open_fds ≡ k.open_fds)
        (λ _ _. Unit)
        (attach tools now policy k)
unfolding detach
detach-fds tools fresh now policy k =
    Outcome-weaken (attach-Held tools fresh now policy k)
      (λ loader k1 held.
        remove_pin-fds tools loader.tracepoint_pin
          (close tools loader.cgroup_skb_fd (close tools loader.tracepoint_fd k1))
        ∙ both-closed tools loader.cgroup_skb_fd loader.tracepoint_fd k.open_fds k1
            held.tracepoint_new held.cgroup_new held.fds)
      (λ _ _ h. h)

-- If the kernel gives only descriptors that are not open, and removing a file of the BPF file
-- system succeeds: when an attach returns a loader, whichever of its programs could be loaded and
-- pinned, detaching it leaves the descriptors open that were open before the attach, and its pin is
-- gone.
pub detach-attach :
    (tools : GuestTools)
    → GivesFresh tools
    → ((p : FilePath) → tools.remove_file_fails p ≡ false)
    → (now : Text) (policy : GuestEbpfPolicy) (loader : GuestEbpfLoader) (k k1 : GuestKernel)
    → attach tools now policy k ≡ (ok loader, k1)
    → ((detach tools loader k1).open_fds ≡ k.open_fds)
      × ((p : FilePath)
          → loader.tracepoint_pin ≡ some p
          → contains (detach tools loader k1).bpffs p ≡ false)
unfolding detach
detach-attach tools fresh removes now policy loader k k1 e = (
  Outcome-ok (subst (Outcome _ _) e (detach-fds tools fresh now policy k)) refl,
  λ p f. rw f (
      remove_pin-gone tools removes p
        (close tools loader.cgroup_skb_fd (close tools loader.tracepoint_fd k1))),
)
