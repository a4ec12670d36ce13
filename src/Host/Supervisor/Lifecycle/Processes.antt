-- ===== src/Host/Supervisor/Lifecycle/Processes.antt =====
-- The boot and the shutdown of a Firecracker process in src/host_control_plane.rs, and the records.
use fastenv.Base.{
  ℕ, ◌^◌, parse_unsigned, Text, text, Bool, true, false, List, [], ◌∷◌, ◌==◌, eq_iff, nat_Eq,
  list_Eq, if◌then◌else◌, ◌&&◌, Option, none, some, Result, ok, err, Outcome, returned, raised,
  Outcome-bind, Outcome-if, Outcome-weaken, ◌>>=◌, ◌≡◌, ◌≢◌, refl, ◌∙◌, Bool-cases, inl, inr,
}
use fastenv.Os.Paths.{FilePath}
use fastenv.Host.{
  Event, VmError, Action, Host, Node, file, ProjectVmRecord, HostEbpfPolicy, running, stopped,
  open_file, remove_file, spawn,
}
use fastenv.Host.Disk.{Machine, state_path, write_at, exists}
use fastenv.Host.Disk.Records.{record_at}
use fastenv.Host.Firecracker.{
  Environment, Round, Child, unknown, exited, alive, pid_path, log_path, log, on_child, wait_late,
  wait_for_socket, check_kvm_access, firecracker_api_put, answered, boot_calls, boot_firecracker,
  stop_firecracker, end_process, kill_by_pid, kill_pid, remove_quietly, trim, poll_socket,
  remove_stale_socket, write_pid,
}
use fastenv.Host.Supervisor.{detach_host_ebpf_if_loaded}
use fastenv.Host.Supervisor.Lifecycle.{SameRecords, IsOwn}

module _ (machine : Machine) (root : FilePath) where
  abbrev pub Same : Host → Host → Type 0
  Same = SameRecords machine root

  Same-trans : (h h1 h2 : Host) → Same h h1 → Same h1 h2 → Same h h2
  Same-trans h h1 h2 a b j = b j ∙ a j

  write_at-Same :
      (p : FilePath) (n : Option Node) (h : Host)
      → ((j : Text) → p ≢ state_path root j)
      → Same h (write_at p n h)
  write_at-Same p n h ne j = elim (Bool-cases (p == state_path root j)) [
    | inl same ↦ absurd (ne j ((eq_iff _ _).0 same))
    | inr other ↦ rw other refl
  ]

  -- An action that leaves the records as they are, whatever comes of it.
  abbrev Quiet : {A : Type 0} → Host → Result VmError A × Host → Type 0
  Quiet h = Outcome (λ _ h'. Same h h') (λ _ h'. Same h h')

  then-Quiet :
      {A B : Type 0} (m : Action A) (f : A → Action B) (h : Host)
      → Quiet h (m h)
      → ((a : A) (h1 : Host) → Quiet h1 (f a h1))
      → Quiet h ((m >>= f) h)
  then-Quiet m f h o rest = Outcome-bind _ _ _ o λ a h1 same.
      Outcome-weaken (rest a h1) (λ _ h2 k. Same-trans h h1 h2 same k)
        (λ _ h2 k. Same-trans h h1 h2 same k)

  any_result : (h h' : Host) (r : Result VmError Unit) → Same h h' → Quiet h (r, h')
  any_result h h' (ok a) same = returned same
  any_result h h' (err e) same = raised same

  Same-if : (b : Bool) (h x y : Host) → Same h x → Same h y → Same h (if b then x else y)
  Same-if true h x y a b = a
  Same-if false h x y a b = b

  -- A quiet action, then one that ends in the record `x`.
  then_made :
      {A : Type 0} (x : ProjectVmRecord) (m : Action A) (f : A → Action ProjectVmRecord) (h : Host)
      → Quiet h (m h)
      → ((a : A) (h1 : Host) → Outcome (λ r h'. (r ≡ x) × Same h1 h') (λ _ h'. Same h1 h') (f a h1))
      → Outcome (λ r h'. (r ≡ x) × Same h h') (λ _ h'. Same h h') ((m >>= f) h)
  then_made x m f h o rest = Outcome-bind _ _ _ o λ a h1 same.
      Outcome-weaken (rest a h1) (λ _ h2 k. (k.0, Same-trans h h1 h2 same k.1))
        (λ _ h2 k. Same-trans h h1 h2 same k)

  on_child-Quiet :
      (c : Child) (h : Host) (r : Result VmError Unit × Host) → Quiet h r → Quiet h (on_child c h r)
  on_child-Quiet unknown h r q = raised (λ j. refl)
  on_child-Quiet exited h r q = raised (λ j. refl)
  on_child-Quiet alive h r q = q

  module _ (env : Environment) where
    wait_for_socket-Quiet :
        (id : Text) (rounds : List Round) (h : Host)
        → Quiet h (wait_for_socket machine env id rounds h)
    unfolding wait_for_socket wait_late
    wait_for_socket-Quiet id [] h =
        Outcome-if env.last_round.socket (λ _. returned (λ j. refl))
          (λ _. on_child-Quiet env.last_round.child h _ (raised (λ j. refl)))
    wait_for_socket-Quiet id (round ∷ rounds) h =
        Outcome-if round.socket (λ _. returned (λ j. refl))
          (λ _. on_child-Quiet round.child h _ (wait_for_socket-Quiet id rounds h))

    api_put-Quiet :
        (sock : FilePath) (endpoint : Text) (h : Host)
        → Quiet h (firecracker_api_put machine env sock endpoint h)
    unfolding firecracker_api_put
    api_put-Quiet sock endpoint h =
        any_result h _ (answered endpoint (env.answer endpoint)) (λ j. refl)

    boot_calls-Quiet : (sock : FilePath) (h : Host) → Quiet h (boot_calls machine env sock h)
    unfolding boot_calls
    boot_calls-Quiet sock h = then-Quiet _ _ h (api_put-Quiet sock _ h) λ _ h1.
        then-Quiet _ _ h1 (api_put-Quiet sock _ h1)
          λ _ h2. then-Quiet _ _ h2 (api_put-Quiet sock _ h2) λ _ h3. api_put-Quiet sock _ h3

    module _ (id : Text) (r : ProjectVmRecord) (own : IsOwn root id r) where
      remove_stale-Quiet :
          (h : Host) → Quiet h (remove_stale_socket machine env r.firecracker_sock h)
      remove_stale-Quiet h =
          Outcome-if (exists h r.firecracker_sock)
            (λ _.
              Outcome-if (machine.fails (remove_file r.firecracker_sock)) (λ _. raised (λ j. refl))
                (λ _. returned (write_at-Same r.firecracker_sock none h own.socket)))
            (λ _. returned (λ j. refl))

      write_pid-Quiet : (h : Host) → Quiet h (write_pid machine env r h)
      write_pid-Quiet h = returned (
          Same-if env.pid_writes h _ h (write_at-Same (pid_path r) (some (file env.pid)) h own.pid)
            (λ j. refl))

      pub boot-Quiet :
          (h : Host)
          → Outcome
              (λ r' h'. (r' ≡ record r { state = running }) × Same h h')
              (λ _ h'. Same h h')
              (boot_firecracker machine env r h)
      unfolding boot_firecracker check_kvm_access
      boot-Quiet h =
          then_made _ _ _ h
            (Outcome-if env.binary_exists (λ _. returned (λ j. refl)) (λ _. raised (λ j. refl)))
            λ _ h1.
              then_made _ _ _ h1
                (Outcome-if (env.kvm_exists && env.kvm_opens) (λ _. returned (λ j. refl))
                  (λ _. raised (λ j. refl)))
                λ _ h2. then_made _ _ _ h2 (remove_stale-Quiet h2) λ _ h3.
                  then_made _ _ _ h3
                    (Outcome-if (machine.fails (open_file (log_path r))) (λ _. raised (λ j. refl))
                      (λ _. returned (λ j. refl)))
                    λ _ h4.
                      then_made _ _ _ h4
                        (Outcome-if (machine.fails spawn) (λ _. raised (λ j. refl))
                          (λ _. returned (λ j. refl)))
                        λ _ h5.
                          then_made _ _ _ h5 (wait_for_socket-Quiet r.project_id env.rounds h5)
                            λ _ h6.
                              then_made _ _ _ h6
                                (returned
                                  (write_at-Same r.firecracker_sock (some (file [])) h6 own.socket))
                                λ _ h7.
                                  then_made _ _ _ h7 (boot_calls-Quiet r.firecracker_sock h7)
                                    λ _ h8.
                                      then_made _ _ _ h8 (write_pid-Quiet h8)
                                        λ _ h9. returned (refl, (λ j. refl))

      remove_quietly-Same :
          (p : FilePath) (h : Host)
          → ((j : Text) → p ≢ state_path root j)
          → Same h (remove_quietly machine env p h)
      remove_quietly-Same p h ne =
          Same-if (machine.fails (remove_file p)) h h (write_at p none h) (λ j. refl)
            (write_at-Same p none h ne)

      kill-Same : (n : Option Node) (h : Host) → Same h (kill_by_pid machine env n h)
      unfolding kill_by_pid
      kill-Same none h j = refl
      kill-Same (some Node.directory) h j = refl
      kill-Same (some (file pid)) h j = killed (parse_unsigned (2 ^ 32) (trim pid)) j
        where
          killed : (o : Option ℕ) → Same h (kill_pid machine env o h)
          killed none j = refl
          killed (some p) j = refl

      end_process-Same : (h : Host) → Same h (end_process machine env r h)
      unfolding end_process
      end_process-Same h =
          Same-if (poll_socket machine env env.stop_rounds) h _ _
            (λ j.
              remove_quietly-Same r.firecracker_sock
                (kill_by_pid machine env (h.disk (pid_path r)) h) own.socket j
              ∙ kill-Same (h.disk (pid_path r)) h j)
            (write_at-Same r.firecracker_sock none h own.socket)

      pub stop-Same :
          (h : Host)
          → ((stop_firecracker machine env r h).0 ≡ record r { state = stopped })
            × Same h (stop_firecracker machine env r h).1
      unfolding stop_firecracker firecracker_api_put
      stop-Same h = elim (Bool-cases (exists h r.firecracker_sock)) [
        | inl there ↦ rw there (
          refl,
          λ j.
              remove_quietly-Same (pid_path r)
                (end_process machine env r
                  (log (Event.api_put r.firecracker_sock (text "/actions")) h))
                own.pid j
              ∙ end_process-Same (log (Event.api_put r.firecracker_sock (text "/actions")) h) j,
        )
        | inr gone ↦ rw gone (refl, (λ j. refl))
      ]

      pub stop_running-Same :
          (h : Host)
          → Same h
              (stop_firecracker machine env r
                (detach_host_ebpf_if_loaded machine r.host_ebpf_policy h)).1
      stop_running-Same h j =
          (stop-Same (detach_host_ebpf_if_loaded machine r.host_ebpf_policy h)).1 j
          ∙ detached_same r.host_ebpf_policy
        where
          detached_same :
              (o : Option HostEbpfPolicy)
              → record_at machine root (detach_host_ebpf_if_loaded machine o h) j
                ≡ record_at machine root h j
          detached_same none = refl
          detached_same (some policy) = refl
