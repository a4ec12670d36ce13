-- ===== src/Host/Supervisor/Release.antt =====
-- The eBPF policy of a VM that `ProjectVmSupervisor` of src/host_control_plane.rs destroys.
use fastenv.Base.{
  Text, false, nat_Eq, list_Eq, some, ok, Outcome, returned, raised, Outcome-bind, Outcome-if,
  Outcome-weaken, Outcome-ok, ◌≡◌, refl, ap, sym, subst, ◌∙◌, some-injective,
}
use fastenv.Os.Paths.{FilePath}
use fastenv.HostEbpf.AttachPoint.{parse_attach_point}
use fastenv.HostEbpf.Load.{LoadedEbpfPolicy}
use fastenv.HostEbpf.Load.Detaching.{TcDeletes, Detachable, Gone, detached-Held}
use fastenv.Host.{
  remove_dir_all, Host, ProjectVmRecord, HostEbpfPolicy, VmState, provisioned, running, stopped,
}
use fastenv.Host.Disk.{Machine, exists, vm_dir}
use fastenv.Host.Disk.Records.{IsCodec, record_at, load_effect}
use fastenv.Host.Supervisor.{
  with_loaded, load_host_ebpf_policy, detach_host_ebpf_if_loaded, remove_vm_dir, destroy_stopped,
  destroy_project_vm,
}
use fastenv.Host.Supervisor.Lifecycle.{IsWellFormed}
use fastenv.Host.Supervisor.Policies.{SameKernel, PolicyLoaded, load_host_ebpf_policy_effect}

-- The kernel after a project is destroyed.
module _ (machine : Machine) (root : FilePath) (now id : Text) where
  remove_vm_dir-kernel :
      (dir : FilePath) (h : Host)
      → Outcome
          (λ _ h'. SameKernel h h')
          (λ _ h'. SameKernel h h')
          (remove_vm_dir machine root now dir h)
  remove_vm_dir-kernel dir h =
      Outcome-if (exists h dir)
        (λ _.
          Outcome-if (machine.fails (remove_dir_all dir)) (λ _. raised refl) (λ _. returned refl))
        (λ _. returned refl)

  destroy_stopped-kernel :
      (r : ProjectVmRecord) (state : VmState) (h : Host)
      → Outcome
          (λ _ h'. h'.kernel ≡ (detach_host_ebpf_if_loaded machine r.host_ebpf_policy h).kernel)
          (λ _ h'. Unit)
          (destroy_stopped machine root now id r state h)
  unfolding destroy_stopped
  destroy_stopped-kernel r running h = raised tt
  destroy_stopped-kernel r provisioned h =
      Outcome-weaken
        (remove_vm_dir-kernel (vm_dir root id)
          (detach_host_ebpf_if_loaded machine r.host_ebpf_policy h))
        (λ _ h' k. k) (λ _ h' k. tt)
  destroy_stopped-kernel r stopped h =
      Outcome-weaken
        (remove_vm_dir-kernel (vm_dir root id)
          (detach_host_ebpf_if_loaded machine r.host_ebpf_policy h))
        (λ _ h' k. k) (λ _ h' k. tt)

  destroy_project_vm-kernel :
      (codec : IsCodec machine) (r : ProjectVmRecord) (h : Host)
      → record_at machine root h id ≡ some r
      → Outcome
          (λ _ h'. h'.kernel ≡ (detach_host_ebpf_if_loaded machine r.host_ebpf_policy h).kernel)
          (λ _ h'. Unit)
          (destroy_project_vm machine root now id h)
  unfolding destroy_project_vm
  destroy_project_vm-kernel codec r h was =
      Outcome-bind _ _ h
        (Outcome-weaken (load_effect machine root codec id h) (λ _ _ k. k) (λ _ _ k. tt))
        (λ r1 h1 l.
          Outcome-weaken (destroy_stopped-kernel r1 r1.state h1)
            (λ _ h' k. k ∙ cc (l.0, some-injective (sym l.1 ∙ was))) (λ _ _ k. k))

-- If serde_json reads what it printed, every record stands in its own state.json and has a socket
-- and a PID file that are no state.json, `tc filter del` succeeds and removes the filters of the
-- device in the direction, removing a file of the BPF file system succeeds, and the device's name
-- has no colon: when a load_host_ebpf_policy succeeds and then a destroy_project_vm of the same
-- project succeeds, no filter is left at the hook of the policy and the BPF file system is as it
-- was before the load, or, for the other attach points, the pin of the program is gone and the
-- filters are as they were.
pub destroy_project_vm-load_host_ebpf_policy :
    (machine : Machine) (root : FilePath)
    → IsCodec machine
    → TcDeletes machine.tools
    → ((p : FilePath) → machine.tools.remove_file_fails p ≡ false)
    → (now later id : Text) (policy : HostEbpfPolicy) (h h1 h2 : Host) (r : ProjectVmRecord)
    → IsWellFormed machine root h
    → Detachable (parse_attach_point policy.attach_point)
    → load_host_ebpf_policy machine root now id policy h ≡ (ok r, h1)
    → destroy_project_vm machine root later id h1 ≡ (ok tt, h2)
    → (loaded : LoadedEbpfPolicy) × Gone
        (parse_attach_point policy.attach_point)
        loaded
        h.kernel
        h2.kernel
      × (r.host_ebpf_policy ≡ some (with_loaded policy loaded))
destroy_project_vm-load_host_ebpf_policy machine root codec deletes removes now later id policy h h1
      h2 r well d e f =
    (done.loaded, gone, held)
  where
    done : PolicyLoaded machine root now id policy h r h1
    done =
        Outcome-ok
          (subst (Outcome _ _) e
            (load_host_ebpf_policy_effect machine root codec now id policy h well))
          refl

    held : r.host_ebpf_policy ≡ some (with_loaded policy done.loaded)
    held = ap (λ x. x.host_ebpf_policy) done.edited.changed

    kernel : h2.kernel ≡ (detach_host_ebpf_if_loaded machine r.host_ebpf_policy h1).kernel
    kernel =
        Outcome-ok
          (subst (Outcome _ _) f
            (destroy_project_vm-kernel machine root later id codec r h1 done.edited.reads))
          refl

    gone : Gone (parse_attach_point policy.attach_point) done.loaded h.kernel h2.kernel
    gone =
        subst (Gone (parse_attach_point policy.attach_point) done.loaded h.kernel)
          (sym (kernel ∙ ap (λ o. (detach_host_ebpf_if_loaded machine o h1).kernel) held))
          (detached-Held machine.tools deletes removes id policy.name
            (parse_attach_point policy.attach_point) done.loaded h.kernel h1.kernel d
            done.attached.held)
