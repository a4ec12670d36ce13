-- ===== src/Host/Supervisor/Isolation.antt =====
-- The ids of src/host_control_plane.rs, the directories they name, and the removal of a VM.
use fastenv.Base.{
  Text, text, Bool, true, false, not, [], ◌∷◌, ◌++◌, ◌==◌, eq_iff, eq_refl, nat_Eq, list_Eq,
  if◌then◌else◌, ◌&&◌, has_char, is_prefix, split-no_char, Option, none, some, ok, Outcome,
  returned, raised, Outcome-bind, Outcome-if, Outcome-weaken, ◌≡◌, ◌≢◌, refl, ap, sym, subst, arith,
  Bool-cases, inl, inr,
}
use fastenv.Os.Paths.{FilePath, join, components, is_absolute, is_component}
use fastenv.Host.{
  Host, Node, ProjectVmRecord, HostEbpfPolicy, VmState, provisioned, running, stopped,
  remove_dir_all,
}
use fastenv.Host.Disk.{Machine, vm_dir, state_path, validate_project_id, exists}
use fastenv.Host.Disk.Records.{IsCodec, record_at, record_in, content, load_effect}
use fastenv.Host.Supervisor.{
  destroy_project_vm, destroy_stopped, remove_vm_dir, detach_host_ebpf_if_loaded,
}

-- An id that passes validation and names a directory of its own.
pub record IsProper (id : Text) : Type 0 where
  pub valid : validate_project_id id ≡ ok tt
  pub named : id ≢ text "."

no_slash : (id : Text) → validate_project_id id ≡ ok tt → has_char b'/' id ≡ false
unfolding validate_project_id
no_slash id h = ground arith

not_empty : (id : Text) → validate_project_id id ≡ ok tt → id ≢ []
unfolding validate_project_id
not_empty [] h e = ground arith
not_empty (c ∷ id) h e = cc

not_absolute : (id : Text) → has_char b'/' id ≡ false → is_absolute id ≡ false
unfolding has_char
not_absolute [] h = refl
not_absolute (c ∷ id) h = ground arith

component_of : (id : Text) → id ≢ [] → id ≢ text "." → is_component id ≡ true
component_of id ne nd = ground (arith, eq_iff id [], eq_iff id (text "."))

append_assoc : (p : FilePath) (a b : Text) → (p ++ a ∷ []) ++ b ∷ [] ≡ p ++ a ∷ b ∷ []
append_assoc [] a b = refl
append_assoc (x ∷ p) a b = ap (◌∷◌ x) (append_assoc p a b)

-- The directory of a project with a proper id is one level below `vms`.
pub vm_dir-proper :
    (root : FilePath) (id : Text) → IsProper id → vm_dir root id ≡ root ++ text "vms" ∷ id ∷ []
unfolding vm_dir join components
vm_dir-proper root id p =
    rw
      (
        not_absolute id (no_slash id p.valid),
        split-no_char b'/' id (no_slash id p.valid),
        component_of id (not_empty id p.valid) p.named,
      )
      (append_assoc root (text "vms") id)

prefix-apart :
    (p : FilePath) (v a b c : Text) → is_prefix (p ++ v ∷ a ∷ []) (p ++ v ∷ b ∷ c ∷ []) ≡ a == b
prefix-apart [] v a b c = ground (arith, eq_refl v)
prefix-apart (x ∷ p) v a b c = ground (arith, eq_refl x, prefix-apart p v a b c)

append3 : (p : FilePath) (v b c : Text) → (p ++ v ∷ b ∷ []) ++ c ∷ [] ≡ p ++ v ∷ b ∷ c ∷ []
append3 [] v b c = refl
append3 (x ∷ p) v b c = ap (◌∷◌ x) (append3 p v b c)

-- For two ids that pass validation and are not `.`: the state.json of the second lies in the
-- directory of the first only if the ids are equal.
pub vm_dir-apart :
    (root : FilePath) (i j : Text)
    → IsProper i
    → IsProper j
    → is_prefix (vm_dir root i) (state_path root j) ≡ i == j
vm_dir-apart root i j pi pj =
    rw
      (
        vm_dir-proper root i pi,
        vm_dir-proper root j pj,
        append3 root (text "vms") j (text "state.json"),
      )
      (prefix-apart root (text "vms") i j (text "state.json"))

-- What a destroyed project leaves.
pub record Destroyed (machine : Machine) (root : FilePath) (id : Text) (h h' : Host) : Type 0 where
  pub old : ProjectVmRecord
  pub was : record_at machine root h id ≡ some old
  pub not_running : old.state ≢ running
  pub gone : record_at machine root h' id ≡ none

-- The records of the other projects.
abbrev pub OthersKept : Machine → FilePath → Text → Host → Host → Type 0
OthersKept machine root id h h' =
    (j : Text) → IsProper j → id ≢ j → record_at machine root h' j ≡ record_at machine root h j

module _ (machine : Machine) (root : FilePath) (id : Text) (proper : IsProper id) where
  kept_outside :
      (b : Bool) (n : Option Node) (j : Text)
      → IsProper j
      → id ≢ j
      → record_in machine
          (content (if is_prefix (vm_dir root id) (state_path root j) && b then none else n))
        ≡ record_in machine (content n)
  kept_outside b n j pj ne = elim (Bool-cases (id == j)) [
    | inl same ↦ absurd (ne ((eq_iff id j).0 same))
    | inr other ↦ rw (vm_dir-apart root id j proper pj, other) refl
  ]

  kept_whole :
      (n : Option Node) (j : Text)
      → IsProper j
      → id ≢ j
      → record_in machine
          (content (if is_prefix (vm_dir root id) (state_path root j) then none else n))
        ≡ record_in machine (content n)
  kept_whole n j pj ne = elim (Bool-cases (id == j)) [
    | inl same ↦ absurd (ne ((eq_iff id j).0 same))
    | inr other ↦ rw (vm_dir-apart root id j proper pj, other) refl
  ]

  remove_effect :
      (now : Text) (h : Host)
      → exists h (vm_dir root id) ≡ true
      → Outcome
          (λ _ h'. OthersKept machine root id h h' × (record_at machine root h' id ≡ none))
          (λ _ h'. OthersKept machine root id h h')
          (remove_vm_dir machine root now (vm_dir root id) h)
  remove_effect now h there = rw there (
      Outcome-if (machine.fails (remove_dir_all (vm_dir root id)))
        (λ _. raised (λ j pj ne.
          kept_outside (not (machine.survives (state_path root j))) (h.disk (state_path root j)) j
            pj ne))
        (λ _. returned (
          (λ j pj ne. kept_whole (h.disk (state_path root j)) j pj ne),
          rw (vm_dir-apart root id id proper proper, eq_refl id) refl,
        )))

  detached_disk :
      (o : Option HostEbpfPolicy) (h : Host)
      → (detach_host_ebpf_if_loaded machine o h).disk ≡ h.disk
  detached_disk none h = refl
  detached_disk (some policy) h = refl

  module _ (codec : IsCodec machine) (now : Text) (h : Host)
      (there : exists h (vm_dir root id) ≡ true) where
    detached_effect :
        (old : ProjectVmRecord) (o : Option HostEbpfPolicy)
        → record_at machine root h id ≡ some old
        → old.state ≢ running
        → Outcome
            (λ _ h'. Destroyed machine root id h h' × OthersKept machine root id h h')
            (λ _ h'. OthersKept machine root id h h')
            (remove_vm_dir machine root now
              (vm_dir root id)
              (detach_host_ebpf_if_loaded machine o h))
    detached_effect old none was idle =
        Outcome-weaken (remove_effect now h there)
          (λ _ _ k. (record { old = old; was = was; not_running = idle; gone = k.1 }, k.0))
          (λ _ _ k. k)
    detached_effect old (some policy) was idle =
        Outcome-weaken
          (remove_effect now (detach_host_ebpf_if_loaded machine (some policy) h) there)
          (λ _ _ k. (record { old = old; was = was; not_running = idle; gone = k.1 }, k.0))
          (λ _ _ k. k)

    destroy_effect :
        (old : ProjectVmRecord) (s : VmState)
        → record_at machine root h id ≡ some old
        → old.state ≡ s
        → Outcome
            (λ _ h'. Destroyed machine root id h h' × OthersKept machine root id h h')
            (λ _ h'. OthersKept machine root id h h')
            (destroy_stopped machine root now id old s h)
    unfolding destroy_stopped
    destroy_effect old running was e = raised (λ j pj ne. refl)
    destroy_effect old provisioned was e = detached_effect old old.host_ebpf_policy was (λ x. cc)
    destroy_effect old stopped was e = detached_effect old old.host_ebpf_policy was (λ x. cc)

    -- For a project whose id passes validation and is not `.`, and whose directory exists, if
    -- serde_json reads what it printed: a destroy_project_vm that succeeds found a record that is
    -- not running, and the project has no record afterwards; whether it succeeds or fails, the
    -- records of all other projects with such ids are as they were.
    pub destroy_project_vm_effect :
        Outcome
          (λ _ h'. Destroyed machine root id h h' × OthersKept machine root id h h')
          (λ _ h'. OthersKept machine root id h h')
          (destroy_project_vm machine root now id h)
    unfolding destroy_project_vm
    destroy_project_vm_effect =
        Outcome-bind _ _ _
          (Outcome-weaken (load_effect machine root codec id h) (λ _ _ k. k)
            (λ _ h' same j pj ne. ap (λ x. record_at machine root x j) same))
          λ old h1 loaded.
            subst
              (λ x.
                Outcome (λ _ h'. Destroyed machine root id h h' × OthersKept machine root id h h')
                  (λ _ h'. OthersKept machine root id h h')
                  (destroy_stopped machine root now id old old.state x))
              (sym loaded.0) (destroy_effect old old.state loaded.1 refl)
