-- ===== src/Host/Supervisor/Policies.antt =====
-- The eBPF policies that `ProjectVmSupervisor` of src/host_control_plane.rs loads and detaches.
use fastenv.Base.{
  Text, nat_Eq, list_Eq, some, Result, Outcome, returned, raised, Outcome-bind, Outcome-if,
  Outcome-both, Outcome-weaken, ◌>>=◌, ◌≡◌, refl, ap, sym, subst, ◌∙◌, rewrap,
}
use fastenv.Os.Paths.{FilePath}
use fastenv.HostEbpf.AttachPoint.{parse_attach_point}
use fastenv.HostEbpf.Load.{
  pin_text, Kernel, Kernels, LoadError, LoadedEbpfPolicy, load_and_attach_host_ebpf,
}
use fastenv.HostEbpf.Load.Steps.{Attached}
use fastenv.HostEbpf.Load.Attaching.{load_and_attach_host_ebpf-Attached}
use fastenv.Host.{
  create_dir_all, temp_file, persist_file, Host, ProjectVmRecord, HostEbpfPolicy, ebpf,
}
use fastenv.Host.Disk.{Machine, state_path, create_dirs, persist_record}
use fastenv.Host.Disk.Records.{IsCodec, record_at, record_in, content, load_effect}
use fastenv.Host.Supervisor.{finish, with_loaded, in_kernel, load_host_ebpf_policy}
use fastenv.Host.Supervisor.Lifecycle.{
  SameRecords, Edited, IsWellFormed, IsInnocent, IsOwn-innocent, finish_effect, Stored-reads,
  Stored-others,
}

-- An action on the disk leaves the kernel.
abbrev pub SameKernel : Host → Host → Type 0
SameKernel h h' = h'.kernel ≡ h.kernel

module _ (machine : Machine) (root : FilePath) (now : Text) where
  create_dirs-kernel :
      (p : FilePath) (h : Host)
      → Outcome (λ _ h'. SameKernel h h') (λ _ h'. SameKernel h h') (create_dirs machine p h)
  unfolding create_dirs
  create_dirs-kernel p h =
      Outcome-if (machine.fails (create_dir_all p)) (λ _. raised refl) (λ _. returned refl)

  finish-kernel :
      (r : ProjectVmRecord) (h : Host)
      → Outcome (λ _ h'. SameKernel h h') (λ _ h'. SameKernel h h') (finish machine root now r h)
  unfolding finish persist_record
  finish-kernel r h =
      Outcome-bind _ _ h
        (Outcome-bind _ _ h (create_dirs-kernel _ h) (λ _ h1 e.
          Outcome-if (machine.fails (temp_file (state_path root r.project_id))) (λ _. raised e)
            (λ _.
              Outcome-if (machine.fails (persist_file (state_path root r.project_id)))
                (λ _. raised e) (λ _. returned e))))
        (λ _ h1 e. returned e)

  module _ {P : LoadedEbpfPolicy → Kernel → Type 0} {Q : LoadError → Kernel → Type 0} where
    rewrapped_effect :
        (h : Host) {r : Result LoadError LoadedEbpfPolicy × Kernel}
        → Outcome P Q r
        → Outcome
            (λ l h'. P l h'.kernel × (h'.disk ≡ h.disk))
            (λ _ h'. h'.disk ≡ h.disk)
            (rewrap ebpf r.0, record h { kernel = r.1 })
    rewrapped_effect h (returned p) = returned (p, refl)
    rewrapped_effect h (raised q) = raised refl

    in_kernel_effect :
        (m : Kernels LoadedEbpfPolicy) (h : Host)
        → Outcome P Q (m h.kernel)
        → Outcome
            (λ l h'. P l h'.kernel × (h'.disk ≡ h.disk))
            (λ _ h'. h'.disk ≡ h.disk)
            (in_kernel m h)
    in_kernel_effect m h o = rewrapped_effect h o

-- What a load that succeeds has done: the program is in the kernel, and held, and the record of
-- the project holds the policy with the handle or the pin.
pub record PolicyLoaded (machine : Machine) (root : FilePath) (now id : Text)
    (policy : HostEbpfPolicy) (h : Host) (r' : ProjectVmRecord) (h' : Host) : Type 0 where
  pub loaded : LoadedEbpfPolicy
  pub attached :
      Attached machine.tools now id policy.name policy.object_path
        (parse_attach_point policy.attach_point)
        h.kernel
        loaded
        h'.kernel
  pub edited :
      Edited machine root now
        (λ r. record r {
          host_ebpf_policy = some (record policy {
            tc_attach_handle = loaded.tc_handle;
            pin_path = pin_text loaded.pin_path;
            loaded_at = some loaded.loaded_at;
          });
        })
        id
        r'
        h
        h'

-- The records are what the disk holds.
disk_records :
    (machine : Machine) (root : FilePath) (h h' : Host)
    → h'.disk ≡ h.disk
    → SameRecords machine root h h'
disk_records machine root h h' e j =
    ap (λ disk. record_in machine (content (disk (state_path root j)))) e

module _ (machine : Machine) (root : FilePath) (codec : IsCodec machine) (now id : Text)
    (policy : HostEbpfPolicy) (h : Host) (well : IsWellFormed machine root h) where
  abbrev set_policy : LoadedEbpfPolicy → ProjectVmRecord → ProjectVmRecord
  set_policy loaded r = record r { host_ebpf_policy = some (with_loaded policy loaded) }

  set_policy-IsInnocent : (loaded : LoadedEbpfPolicy) → IsInnocent (set_policy loaded)
  set_policy-IsInnocent loaded = record {
    project_id = λ r. refl;
    vm_dir = λ r. refl;
    firecracker_sock = λ r. refl;
  }

  abbrev AttachedAt : LoadedEbpfPolicy → Kernel → Type 0
  AttachedAt loaded k =
      Attached machine.tools now id policy.name policy.object_path
        (parse_attach_point policy.attach_point) h.kernel loaded k

  -- The record is changed after the program is attached.
  record_policy :
      (old : ProjectVmRecord) (loaded : LoadedEbpfPolicy) (h1 : Host)
      → record_at machine root h id ≡ some old
      → AttachedAt loaded h1.kernel
      → h1.disk ≡ h.disk
      → Outcome
          (PolicyLoaded machine root now id policy h)
          (λ _ h'. SameRecords machine root h h')
          (finish machine root now (set_policy loaded old) h1)
  record_policy old loaded h1 was at d =
      Outcome-weaken
        (Outcome-both _
          (finish_effect machine root codec now id (set_policy loaded old) h1
            (IsOwn-innocent (set_policy loaded) old (set_policy-IsInnocent loaded)
              (well id old was))
            (λ j r e. well j r (sym (same j) ∙ e)))
          (finish-kernel machine root now (set_policy loaded old) h1))
        (λ r' h' k. record {
          loaded = loaded;
          attached = subst (AttachedAt loaded) (sym k.1) at;
          edited = record {
            old = old;
            was = was;
            changed = k.0.0;
            reads = Stored-reads machine root k.0.1;
            others = λ j ne. Stored-others machine root k.0.1 j ne ∙ same j;
            well_formed = k.0.2;
          };
        })
        (λ _ h' k j. k.0 j ∙ same j)
    where
      same : SameRecords machine root h h1
      same = disk_records machine root h h1 d

  abbrev attach_policy : Kernels LoadedEbpfPolicy
  attach_policy =
      load_and_attach_host_ebpf machine.tools now id policy.name policy.object_path
        policy.attach_point

  pub load_host_ebpf_policy_effect :
      Outcome
        (PolicyLoaded machine root now id policy h)
        (λ _ h'. SameRecords machine root h h')
        (load_host_ebpf_policy machine root now id policy h)
  unfolding load_host_ebpf_policy
  load_host_ebpf_policy_effect =
      Outcome-bind _ _ h
        (Outcome-weaken (load_effect machine root codec id h) (λ _ _ k. k)
          (λ _ h' e j. ap (λ x. record_at machine root x j) e))
        (λ old h1 l.
          subst
            (λ x.
              Outcome (PolicyLoaded machine root now id policy h)
                (λ _ h'. SameRecords machine root h h')
                ((in_kernel attach_policy >>= λ loaded.
                    finish machine root now (set_policy loaded old))
                  x))
            (sym l.0)
            (Outcome-bind _ _ h
              (Outcome-weaken
                (in_kernel_effect machine root now attach_policy h (
                  load_and_attach_host_ebpf-Attached machine.tools now id policy.name
                    policy.object_path policy.attach_point h.kernel))
                (λ _ _ k. k) (λ _ h' d. disk_records machine root h h' d))
              (λ loaded h2 k. record_policy old loaded h2 l.1 k.0 k.1)))
