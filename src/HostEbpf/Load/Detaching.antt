-- ===== src/HostEbpf/Load/Detaching.antt =====
-- Detaching undoes what loading and attaching has made.
use fastenv.Base.{
  Text, text, any, contains, Bool, true, false, not, ◌&&◌, List, [], ◌∷◌, filter, Option, none,
  some, ok, ◌≡◌, refl, ◌∙◌, sym, subst, ◌==◌, nat_Eq, list_Eq, list_eq, arith, Bool-cases, inl, inr,
  some-injective, has_char, All, Outcome, Outcome-ok, is_prefix,
}
use fastenv.Os.Paths.{FilePath}
use fastenv.Os.Paths.Display.{Component, components-display, join-Component}
use fastenv.HostEbpf.AttachPoint.{
  AttachPoint, tc, tracepoint, kprobe, raw, TcDirection, parse_attach_point, tc_handle,
  parse_tc_handle-tc_handle, dir_str,
}
use fastenv.HostEbpf.Load.{
  TcFilter, pin_text, Kernel, Tools, LoadedEbpfPolicy, bpf_pin_path, filter_del, tc_command, ran,
  tc_detach_bpf, remove_empty, parent, unpin_bpf_prog, load_and_attach_host_ebpf, detach_pin,
  detach_host_ebpf,
}
use fastenv.HostEbpf.Load.Steps.{Held, Pinned}
use fastenv.HostEbpf.Load.Attaching.{load_and_attach_host_ebpf-Attached}

abbrev pub is_at : Text → Text → TcFilter → Bool
is_at device direction f = f.device == device && f.direction == direction

-- `tc filter del` without a handle removes every filter of the device in the direction.
abbrev pub TcDeletes : Tools → Type 0
TcDeletes tools =
    (device direction : Text) (filters : List TcFilter)
    → tools.run_tc (filter_del device direction) filters
      ≡ some (true, filter (λ f. not (is_at device direction f)) filters)

-- A handle can be read back when the device's name has no colon.
abbrev pub Detachable : AttachPoint → Type 0
Detachable (tc device direction) = has_char b':' device ≡ false
Detachable (tracepoint category event) = Unit
Detachable (kprobe function) = Unit
Detachable (raw s) = Unit

-- No filter is left at the hook, or no pin of the program.
abbrev pub PinGone : LoadedEbpfPolicy → Kernel → Kernel → Type 0
PinGone l k k' =
    ((q : FilePath) → l.pin_path ≡ some q → contains k'.bpffs q ≡ false) × (k'.filters ≡ k.filters)

abbrev pub Gone : AttachPoint → LoadedEbpfPolicy → Kernel → Kernel → Type 0
Gone (tc device direction) l k k' =
    (any (is_at device (dir_str direction)) k'.filters ≡ false) × (k'.bpffs ≡ k.bpffs)
Gone (tracepoint category event) l k k' = PinGone l k k'
Gone (kprobe function) l k k' = PinGone l k k'
Gone (raw s) l k k' = PinGone l k k'

any-filter-not :
    (p : TcFilter → Bool) (fs : List TcFilter) → any p (filter (λ f. not (p f)) fs) ≡ false
any-filter-not p [] = refl
any-filter-not p (f ∷ fs) = elim (Bool-cases (p f)) [
  | inl t ↦ rw t (any-filter-not p fs)
  | inr e ↦ rw e (rw e (any-filter-not p fs))
]

pub contains-filter-not :
    (q : FilePath) (ps : List FilePath) → contains (filter (λ p. not (p == q)) ps) q ≡ false
contains-filter-not q [] = refl
contains-filter-not q (p ∷ ps) = elim (Bool-cases (p == q)) [
  | inl t ↦ rw t (contains-filter-not q ps)
  | inr e ↦ rw e (rw e (contains-filter-not q ps))
]

pub contains-filter :
    (h : FilePath → Bool) (q : FilePath) (ps : List FilePath)
    → contains ps q ≡ false
    → contains (filter h ps) q ≡ false
contains-filter h q [] e = refl
contains-filter h q (p ∷ ps) e = ground (arith, contains-filter h q ps)

pub remove_empty-gone :
    (dir q : FilePath) (ps : List FilePath)
    → contains ps q ≡ false
    → contains (remove_empty dir ps) q ≡ false
remove_empty-gone dir q ps e = elim (Bool-cases (any (λ p. is_prefix dir p && not (p == dir)) ps)) [
  | inl t ↦ rw t e
  | inr f ↦ rw f (contains-filter (λ p. not (p == dir)) q ps e)
]

base-Component : All Component (text "sys" ∷ text "fs" ∷ text "bpf" ∷ [])
unfolding has_char list_eq
base-Component = (
  record { counted = refl; no_slash = refl },
  (record { counted = refl; no_slash = refl }, (record { counted = refl; no_slash = refl }, tt)),
)

pin_path-Component : (project_id name : Text) → All Component (bpf_pin_path project_id name)
unfolding bpf_pin_path
pin_path-Component project_id name =
    join-Component _ name
      (join-Component _ project_id (join-Component _ (text "fastenv") base-Component))

module _ (tools : Tools) where
  tc_detach_bpf-gone :
      TcDeletes tools
      → (device : Text) (direction : TcDirection) (k : Kernel) → has_char b':' device ≡ false
      → (any
            (is_at device (dir_str direction))
            (tc_detach_bpf tools (tc_handle device direction) k).filters
          ≡ false)
        × ((tc_detach_bpf tools (tc_handle device direction) k).bpffs ≡ k.bpffs)
  unfolding tc_detach_bpf tc_command
  tc_detach_bpf-gone deletes device direction k h =
      rw (parse_tc_handle-tc_handle device direction h) (
        subst
          (λ o.
            (any (is_at device (dir_str direction)) (ran tools o k).1.filters ≡ false)
            × ((ran tools o k).1.bpffs ≡ k.bpffs))
          (sym (deletes device (dir_str direction) k.filters))
          (any-filter-not (is_at device (dir_str direction)) k.filters, refl))

  unpin_bpf_prog-gone :
      ((p : FilePath) → tools.remove_file_fails p ≡ false)
      → (q : FilePath) (k : Kernel)
      → (contains (unpin_bpf_prog tools q k).bpffs q ≡ false)
        × ((unpin_bpf_prog tools q k).filters ≡ k.filters)
  unfolding unpin_bpf_prog
  unpin_bpf_prog-gone removes q k = elim (Bool-cases (contains k.bpffs q)) [
    | inl t ↦
        rw (t, removes q) (remove_empty-gone (parent q) q _ (contains-filter-not q k.bpffs), refl)
    | inr f ↦ rw f (f, refl)
  ]

  detached_pin :
      ((p : FilePath) → tools.remove_file_fails p ≡ false)
      → (project_id name : Text) (l : LoadedEbpfPolicy) (k k1 : Kernel)
      → Pinned project_id name l k k1
      → (o : Option FilePath) → l.pin_path ≡ o
      → PinGone l k (detach_pin tools (pin_text o) k1)
  detached_pin removes project_id name l k k1 h none e = (λ q f. cc, h.1)
  detached_pin removes project_id name l k k1 h (some p) e =
      rw
        (components-display p
          (subst (All Component) (sym (h.2 p e).0) (pin_path-Component project_id name)))
        (
          λ q f.
              subst (λ r. contains (unpin_bpf_prog tools p k1).bpffs r ≡ false)
                (some-injective (sym e ∙ f)) (unpin_bpf_prog-gone removes p k1).0,
          (unpin_bpf_prog-gone removes p k1).1 ∙ h.1,
        )

  pub detached-Held :
      TcDeletes tools
      → ((p : FilePath) → tools.remove_file_fails p ≡ false)
      → (project_id name : Text) (point : AttachPoint) (l : LoadedEbpfPolicy) (k k1 : Kernel)
      → Detachable point
      → Held project_id name point l k k1
      → Gone point l k (detach_host_ebpf tools l.tc_handle (pin_text l.pin_path) k1)
  unfolding detach_host_ebpf
  detached-Held deletes removes project_id name (tc device direction) l k k1 d h =
      let (gone, same) = tc_detach_bpf-gone deletes device direction k1 d in
      rw (h.0, h.1) (gone, same ∙ h.2)
  detached-Held deletes removes project_id name (tracepoint category event) l k k1 d h =
      rw h.0 (detached_pin removes project_id name l k k1 h l.pin_path refl)
  detached-Held deletes removes project_id name (kprobe function) l k k1 d h =
      rw h.0 (detached_pin removes project_id name l k k1 h l.pin_path refl)
  detached-Held deletes removes project_id name (raw s) l k k1 d h =
      rw h.0 (detached_pin removes project_id name l k k1 h l.pin_path refl)

pub detach_host_ebpf-load_and_attach_host_ebpf :
    (tools : Tools)
    → TcDeletes tools
    → ((p : FilePath) → tools.remove_file_fails p ≡ false)
    → (now project_id name point : Text) (object_path : FilePath) (k k1 : Kernel)
      (l : LoadedEbpfPolicy)
    → Detachable (parse_attach_point point)
    → load_and_attach_host_ebpf tools now project_id name object_path point k ≡ (ok l, k1)
    → Gone
        (parse_attach_point point)
        l
        k
        (detach_host_ebpf tools l.tc_handle (pin_text l.pin_path) k1)
detach_host_ebpf-load_and_attach_host_ebpf tools deletes removes now project_id name point path k k1
      l d e =
    detached-Held tools deletes removes project_id name (parse_attach_point point) l k k1 d
      (Outcome-ok
        (subst (Outcome _ _) e
          (load_and_attach_host_ebpf-Attached tools now project_id name path point k))
        refl).held
