-- ===== src/Host/Supervisor/Lifecycle/Provision.antt =====
-- `provision_project_vm` of src/host_control_plane.rs.
use fastenv.Base.{
  Text, text, false, [], ◌∷◌, ◌++◌, ◌==◌, eq_iff, nat_Eq, list_Eq, list_eq, Option, none, some,
  Result, ok, err, Outcome, returned, raised, Outcome-bind, Outcome-if, Outcome-weaken, ◌>>=◌, ◌≡◌,
  ◌≢◌, ◌⊎◌, refl, ap, sym, subst, ◌∙◌, Bool-cases, inl, inr,
}
use fastenv.Os.Paths.{FilePath}
use fastenv.Host.{
  provisioned, Host, Node, create_file, ProjectVmRecord, ProjectVmSpec, VmError, Action,
}
use fastenv.Host.Disk.{
  is_some, Machine, vm_dir, state_path, exists, create_dirs, ensure_empty_file, ensure_vm_layout,
  validate_project_id,
}
use fastenv.Host.Disk.Records.{
  IsCodec, record_at, record_in, content, create_dirs_effect, load_effect, same_records,
}
use fastenv.Host.Supervisor.{
  under, new_record, updated, create_project_vm, load_or_create, finish, provision_project_vm,
}
use fastenv.Host.Supervisor.Lifecycle.{
  SameRecords, IsOwn, IsWellFormed, IsOwn-innocent, Stored-reads, Stored-others, finish_effect,
}

last_or : Text → FilePath → Text
last_or d [] = d
last_or d (x ∷ p) = last_or x p

last_or-snoc : (d a : Text) (p : FilePath) → last_or d (p ++ a ∷ []) ≡ a
unfolding last_or
last_or-snoc d a [] = refl
last_or-snoc d a (x ∷ p) = last_or-snoc x a p

-- Two paths whose last components differ.
snoc-apart : (p q : FilePath) (a b : Text) → a ≢ b → p ++ a ∷ [] ≢ q ++ b ∷ []
snoc-apart p q a b ne e = ne (sym (last_or-snoc a a p) ∙ ap (last_or a) e ∙ last_or-snoc a b q)

-- The record of a VM that has not been started: its files stand in its own directory.
abbrev pub IsNew : FilePath → Text → ProjectVmSpec → ProjectVmRecord → Type 0
IsNew root now spec r = r ≡ record {
  project_id = spec.project_id;
  vm_dir = vm_dir root spec.project_id;
  firecracker_sock = vm_dir root spec.project_id ++ text "firecracker.sock" ∷ [];
  kernel_path = vm_dir root spec.project_id ++ text "kernel" ∷ [];
  rootfs_path = vm_dir root spec.project_id ++ text "rootfs.img" ∷ [];
  workspace_path = vm_dir root spec.project_id ++ text "workspace.img" ∷ [];
  cache_dir = vm_dir root spec.project_id ++ text "cache" ∷ [];
  logs_dir = vm_dir root spec.project_id ++ text "logs" ∷ [];
  artifacts_dir = vm_dir root spec.project_id ++ text "artifacts" ∷ [];
  state_path = vm_dir root spec.project_id ++ text "state.json" ∷ [];
  state = provisioned;
  kernel_ref = spec.kernel_ref;
  seed_data_refs = spec.seed_data_refs;
  network_policy = spec.network_policy;
  secrets = [];
  artifacts = [];
  host_ebpf_policy = none;
  created_at = now;
  updated_at = now;
}

new_record-IsNew :
    (root : FilePath) (now : Text) (spec : ProjectVmSpec)
    → IsNew root now spec (new_record root spec now)
unfolding new_record
new_record-IsNew root now spec = refl

-- Where a new VM comes from: its state.json, or nothing.
pub record Provisioned (machine : Machine) (root : FilePath) (now : Text) (spec : ProjectVmSpec)
    (r' : ProjectVmRecord) (h h' : Host) : Type 0 where
  pub valid : validate_project_id spec.project_id ≡ ok tt
  pub base : ProjectVmRecord
  pub from :
      (record_at machine root h spec.project_id ≡ some base)
      ⊎ ((record_at machine root h spec.project_id ≡ none) × IsNew root now spec base)
  pub changed : r' ≡ record base {
    kernel_ref = spec.kernel_ref;
    seed_data_refs = spec.seed_data_refs;
    network_policy = spec.network_policy;
    updated_at = now;
  }
  pub reads : record_at machine root h' spec.project_id ≡ some r'
  pub others :
      (j : Text)
      → state_path root spec.project_id ≢ state_path root j
      → record_at machine root h' j ≡ record_at machine root h j
  pub well_formed : IsWellFormed machine root h'

new_record-IsOwn :
    (root : FilePath) (spec : ProjectVmSpec) (now : Text)
    → IsOwn root spec.project_id (new_record root spec now)
unfolding new_record
new_record-IsOwn root spec now = record {
  path = refl;
  socket = λ j. snoc-apart (vm_dir root spec.project_id) (vm_dir root j) _ _ (λ e. cc);
  pid = λ j. snoc-apart (vm_dir root spec.project_id) (vm_dir root j) _ _ (λ e. cc);
}

module _ (machine : Machine) (root : FilePath) where
  abbrev Same : Host → Host → Type 0
  Same = SameRecords machine root

  abbrev Quiet : Host → Result VmError Unit × Host → Type 0
  Quiet h = Outcome (λ _ h'. Same h h') (λ _ h'. Same h h')

  module _ (codec : IsCodec machine) where
    create-Quiet : (p : FilePath) (h : Host) → Quiet h (create_dirs machine p h)
    create-Quiet p h =
        Outcome-weaken (create_dirs_effect machine p h)
          (λ _ h' s. same_records machine root codec h h' s)
          (λ _ h' s. same_records machine root codec h h' s)

    file-Quiet :
        (id name : Text) (h : Host)
        → name ≢ text "state.json"
        → Quiet h (ensure_empty_file machine (under root id name) h)
    unfolding ensure_empty_file
    file-Quiet id name h ne =
        Outcome-if (exists h (under root id name)) (λ _. returned (λ j. refl))
          λ _.
            Outcome-if (machine.fails (create_file (under root id name))) (λ _. raised (λ j. refl))
              λ _. returned (λ j. elim (Bool-cases (under root id name == state_path root j)) [
                | inl same ↦
                    absurd
                      (snoc-apart (vm_dir root id) (vm_dir root j) _ _ ne ((eq_iff _ _).0 same))
                | inr other ↦ rw other refl
              ])

    ne_of : (a b : Text) → (a == b) ≡ false → a ≢ b
    ne_of a b h e = cc (h, (eq_iff a b).1 e)

    -- A quiet action, then one that ends in a condition on its result.
    then-Quiet :
        {A : Type 0} {P : A → Type 0} (m : Action Unit) (f : Unit → Action A) (h : Host)
        → Quiet h (m h)
        → ((h1 : Host) → Outcome (λ a h'. Same h1 h' × P a) (λ _ h'. Same h1 h') (f tt h1))
        → Outcome (λ a h'. Same h h' × P a) (λ _ h'. Same h h') ((m >>= f) h)
    then-Quiet m f h o rest = Outcome-bind _ _ _ o λ a h1 same.
        Outcome-weaken (rest h1) (λ a h2 k. ((λ j. k.0 j ∙ same j), k.1)) (λ _ h2 k j. k j ∙ same j)

    with_unit :
        (h : Host) (r : Result VmError Unit × Host)
        → Quiet h r
        → Outcome (λ a h'. Same h h' × Unit) (λ _ h'. Same h h') r
    with_unit h r q = Outcome-weaken q (λ _ _ k. (k, tt)) (λ _ _ k. k)

    layout-Quiet : (id : Text) (h : Host) → Quiet h (ensure_vm_layout machine root id h)
    unfolding ensure_vm_layout
    layout-Quiet id h =
        Outcome-weaken
          (then-Quiet {P = λ a. Unit} _ _ h (create-Quiet _ h)
            λ h1. then-Quiet _ _ h1 (create-Quiet _ h1) λ h2. with_unit h2 _ (create-Quiet _ h2))
          (λ _ _ k. k.0) (λ _ _ k. k)

    module _ (now : Text) (spec : ProjectVmSpec) where
      create_effect :
          (h : Host)
          → Outcome
              (λ r h'. Same h h' × (r ≡ new_record root spec now))
              (λ _ h'. Same h h')
              (create_project_vm machine root now spec h)
      unfolding create_project_vm list_eq
      create_effect h = then-Quiet _ _ h (create-Quiet _ h) λ h1.
          then-Quiet _ _ h1 (create-Quiet _ h1) λ h2. then-Quiet _ _ h2 (create-Quiet _ h2) λ h3.
            then-Quiet _ _ h3 (file-Quiet spec.project_id (text "kernel") h3 (ne_of _ _ refl)) λ h4.
              then-Quiet _ _ h4 (file-Quiet spec.project_id (text "rootfs.img") h4 (ne_of _ _ refl))
                λ h5.
                  then-Quiet _ _ h5
                    (file-Quiet spec.project_id (text "workspace.img") h5 (ne_of _ _ refl))
                    λ h6. returned ((λ j. refl), refl)

      -- The record that a provision starts from.
      abbrev Source : Host → ProjectVmRecord → Type 0
      Source h base =
          (record_at machine root h spec.project_id ≡ some base)
          ⊎ ((record_at machine root h spec.project_id ≡ none) × (base ≡ new_record root spec now))

      absent_record : (n : Option Node) → is_some n ≡ false → record_in machine (content n) ≡ none
      absent_record none e = refl
      absent_record (some n) e = cc

      load_or_create_effect :
          (h : Host)
          → Outcome
              (λ base h'. Same h h' × Source h base)
              (λ _ h'. Same h h')
              (load_or_create machine root now spec h)
      unfolding load_or_create
      load_or_create_effect h =
          Outcome-if (exists h (state_path root spec.project_id))
            (λ _.
              Outcome-weaken (load_effect machine root codec spec.project_id h)
                (λ r h' k. ((λ j. ap (λ x. record_at machine root x j) k.0), inl k.1))
                (λ _ h' k j. ap (λ x. record_at machine root x j) k))
            (λ gone.
              Outcome-weaken (create_effect h)
                (λ r h' k.
                  (k.0, inr (absent_record (h.disk (state_path root spec.project_id)) gone, k.1)))
                (λ _ _ k. k))

      Source-IsOwn :
          (h : Host) (base : ProjectVmRecord)
          → IsWellFormed machine root h
          → Source h base
          → IsOwn root spec.project_id base
      Source-IsOwn h base well (inl was) = well spec.project_id base was
      Source-IsOwn h base well (inr new) =
          subst (IsOwn root spec.project_id) (sym new.1) (new_record-IsOwn root spec now)

      Source-Same :
          (h h1 : Host) (base : ProjectVmRecord) → Same h h1 → Source h1 base → Source h base
      Source-Same h h1 base same (inl was) = inl (sym (same spec.project_id) ∙ was)
      Source-Same h h1 base same (inr new) = inr (sym (same spec.project_id) ∙ new.0, new.1)

      Same-IsWellFormed :
          (h h' : Host) → Same h h' → IsWellFormed machine root h → IsWellFormed machine root h'
      Same-IsWellFormed h h' same well id r e = well id r (sym (same id) ∙ e)

      origin :
          (h : Host) (base : ProjectVmRecord)
          → Source h base
          → (record_at machine root h spec.project_id ≡ some base)
            ⊎ ((record_at machine root h spec.project_id ≡ none) × IsNew root now spec base)
      origin h base (inl was) = inl was
      origin h base (inr new) = inr (new.0, new.1 ∙ new_record-IsNew root now spec)

      Provisioned-effect :
          (h h1 : Host) (base : ProjectVmRecord)
          → validate_project_id spec.project_id ≡ ok tt
          → IsWellFormed machine root h
          → Same h h1
          → Source h base
          → Outcome
              (λ r' h'. Provisioned machine root now spec r' h h')
              (λ _ h'. Same h h')
              (finish machine root now (updated spec now base) h1)
      Provisioned-effect h h1 base valid well same source =
          Outcome-weaken
            (finish_effect machine root codec now spec.project_id (updated spec now base) h1
              (IsOwn-innocent (updated spec now) base
                (record {
                  project_id = λ r. refl;
                  vm_dir = λ r. refl;
                  firecracker_sock = λ r. refl;
                })
                (Source-IsOwn h base well source))
              (Same-IsWellFormed h h1 same well))
            (λ r' h' k. record {
              valid = valid;
              base = base;
              from = origin h base source;
              changed = k.0;
              reads = Stored-reads machine root k.1;
              others = λ j ne. Stored-others machine root k.1 j ne ∙ same j;
              well_formed = k.2;
            })
            (λ _ h' k j. k j ∙ same j)

      -- If serde_json reads what it printed and every record stands in its own state.json and has a
      -- socket and a PID file that are no state.json: a provision_project_vm that succeeds had a
      -- valid id, started from the record in state.json or, if there was none, from one that is
      -- provisioned, empty and stands in its own directory, has set its kernel, seed data, network
      -- policy and time from the specification and nothing else of it, which state.json then holds,
      -- leaves the other projects' records alone and every record in its place; one that fails
      -- leaves all records as they were.
      pub provision_project_vm_effect :
          (h : Host)
          → IsWellFormed machine root h
          → Outcome
              (λ r' h'. Provisioned machine root now spec r' h h')
              (λ _ h'. Same h h')
              (provision_project_vm machine root now spec h)
      unfolding provision_project_vm
      provision_project_vm_effect h well =
          Outcome-bind _ _ _ (validity (validate_project_id spec.project_id) refl) λ _ h1 k1.
            Outcome-bind _ _ _
              (Outcome-weaken (layout-Quiet spec.project_id h1) (λ _ _ k. k)
                (λ _ h' k j. k j ∙ k1.0 j))
              λ _ h2 s2.
                Outcome-bind _ _ _
                  (Outcome-weaken (load_or_create_effect h2) (λ _ _ k. k)
                    (λ _ h' k j. k j ∙ s2 j ∙ k1.0 j))
                  λ base h3 k3.
                    Provisioned-effect h h3 base k1.1 well (λ j. k3.0 j ∙ s2 j ∙ k1.0 j)
                      (Source-Same h h2 base (λ j. s2 j ∙ k1.0 j) k3.1)
        where
          validity :
              (v : Result VmError Unit)
              → validate_project_id spec.project_id ≡ v
              → Outcome
                  (λ _ h'. Same h h' × (validate_project_id spec.project_id ≡ ok tt))
                  (λ _ h'. Same h h')
                  (v, h)
          validity (ok unit) e = returned ((λ j. refl), e)
          validity (err x) e = raised (λ j. refl)
