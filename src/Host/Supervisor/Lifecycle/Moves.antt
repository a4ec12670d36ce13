-- ===== src/Host/Supervisor/Lifecycle/Moves.antt =====
-- `transition_vm_state` of src/host_control_plane.rs: the state machine of a VM.
use fastenv.Base.{
  Text, nat_Eq, list_Eq, some, Outcome, returned, raised, Outcome-bind, Outcome-weaken, ◌>>=◌, ◌≡◌,
  ◌≢◌, refl, ap, sym, subst, ◌∙◌,
}
use fastenv.Os.Paths.{FilePath}
use fastenv.Host.{Host, ProjectVmRecord, VmState, provisioned, running, stopped}
use fastenv.Host.Disk.{Machine, state_path}
use fastenv.Host.Disk.Records.{IsCodec, record_at, load_effect}
use fastenv.Host.Firecracker.{Environment, boot_firecracker}
use fastenv.Host.Supervisor.{
  finish, change_state, transition_vm_state, stop_running, detach_host_ebpf_if_loaded,
}
use fastenv.Host.Supervisor.Lifecycle.{
  IsOwn, IsWellFormed, Stored-reads, Stored-others, finish_effect,
}
use fastenv.Host.Supervisor.Lifecycle.Processes.{Same, boot-Quiet, stop-Same, stop_running-Same}

-- The moves that are made.
abbrev pub IsLegal : VmState → VmState → Type 0
IsLegal running running = ⊥
IsLegal provisioned stopped = ⊥
IsLegal provisioned running = Unit
IsLegal stopped running = Unit
IsLegal running stopped = Unit
IsLegal stopped stopped = Unit
IsLegal provisioned provisioned = Unit
IsLegal running provisioned = Unit
IsLegal stopped provisioned = Unit

-- What a transition that succeeds has done.
pub record Moved (machine : Machine) (root : FilePath) (id : Text) (target : VmState)
    (r' : ProjectVmRecord) (h h' : Host) : Type 0 where
  pub old : ProjectVmRecord
  pub was : record_at machine root h id ≡ some old
  pub legal : IsLegal old.state target
  pub state : r'.state ≡ target
  pub reads : record_at machine root h' id ≡ some r'
  pub others :
      (j : Text)
      → state_path root id ≢ state_path root j
      → record_at machine root h' j ≡ record_at machine root h j
  pub well_formed : IsWellFormed machine root h'

module _ (machine : Machine) (root : FilePath) where
  Same-IsWellFormed :
      (h h' : Host)
      → Same machine root h h'
      → IsWellFormed machine root h
      → IsWellFormed machine root h'
  Same-IsWellFormed h h' same well id r e = well id r (sym (same id) ∙ e)

  module _ (env : Environment) where
    module _ (codec : IsCodec machine) (now : Text) (id : Text) where
      -- The end of a transition, from a later state with the same records.
      end_effect :
          (old r : ProjectVmRecord) (target : VmState) (h h1 : Host)
          → Same machine root h h1
          → IsWellFormed machine root h
          → record_at machine root h id ≡ some old
          → IsLegal old.state target
          → r.state ≡ target
          → IsOwn root id r
          → Outcome
              (λ r' h'. Moved machine root id target r' h h')
              (λ _ h'. Same machine root h h')
              (finish machine root now r h1)
      end_effect old r target h h1 same well was legal state own =
          Outcome-weaken
            (finish_effect machine root codec now id r h1 own (Same-IsWellFormed h h1 same well))
            (λ r' h' k. record {
              old = old;
              was = was;
              legal = legal;
              state = ap (λ (x : ProjectVmRecord). x.state) k.0 ∙ state;
              reads = Stored-reads machine root k.1;
              others = λ j ne. Stored-others machine root k.1 j ne ∙ same j;
              well_formed = k.2;
            })
            (λ e h' k j. k j ∙ same j)

      module _ (old : ProjectVmRecord) (h : Host) (well : IsWellFormed machine root h)
          (was : record_at machine root h id ≡ some old) where
        own : IsOwn root id old
        own = well id old was

        with_state : (s : VmState) → IsOwn root id (record old { state = s })
        with_state s = record { path = own.path; socket = own.socket; pid = own.pid }

        booted_effect :
            IsLegal old.state running
            → Outcome
                (λ r' h'. Moved machine root id running r' h h')
                (λ _ h'. Same machine root h h')
                ((boot_firecracker machine env old >>= finish machine root now) h)
        booted_effect legal =
            Outcome-bind _ _ _ (boot-Quiet machine root env id old own h) λ r h1 k.
              end_effect old r running h h1 k.1 well was legal
                (ap (λ (x : ProjectVmRecord). x.state) k.0)
                (subst (IsOwn root id) (sym k.0) (with_state running))

        reset_effect :
            IsLegal old.state provisioned
            → Outcome
                (λ r' h'. Moved machine root id provisioned r' h h')
                (λ _ h'. Same machine root h h')
                (finish machine root now (record old { state = provisioned }) h)
        reset_effect legal =
            end_effect old (record old { state = provisioned }) provisioned h h (λ j. refl) well was
              legal refl (with_state provisioned)

        stopped_effect :
            IsLegal old.state stopped
            → Outcome
                (λ r' h'. Moved machine root id stopped r' h h')
                (λ _ h'. Same machine root h h')
                (stop_running machine root now env id old h)
        stopped_effect legal =
            let stop =
              stop-Same machine root env id old own
                (detach_host_ebpf_if_loaded machine old.host_ebpf_policy h) in
            end_effect old _ stopped h _ (stop_running-Same machine root env id old own h) well was
              legal (ap (λ (x : ProjectVmRecord). x.state) stop.0)
              (subst (IsOwn root id) (sym stop.0) (with_state stopped))

        change_effect :
            (s target : VmState)
            → old.state ≡ s
            → Outcome
                (λ r' h'. Moved machine root id target r' h h')
                (λ _ h'. Same machine root h h')
                (change_state machine root now env id old s target h)
        unfolding change_state
        change_effect running running e = raised (λ j. refl)
        change_effect provisioned stopped e = raised (λ j. refl)
        change_effect provisioned running e = booted_effect (rw e tt)
        change_effect stopped running e = booted_effect (rw e tt)
        change_effect stopped stopped e = returned (record {
          old = old;
          was = was;
          legal = rw e tt;
          state = e;
          reads = was;
          others = λ j ne. refl;
          well_formed = well;
        })
        change_effect running stopped e = stopped_effect (rw e tt)
        change_effect provisioned provisioned e = reset_effect (rw e tt)
        change_effect running provisioned e = reset_effect (rw e tt)
        change_effect stopped provisioned e = reset_effect (rw e tt)

      -- If serde_json reads what it printed and every record stands in its own state.json and has a
      -- socket and a PID file that are no state.json: a transition_vm_state that succeeds made a
      -- move that is allowed from the state the record had, returns a record in the state asked
      -- for, which state.json then holds, leaves the records of all other projects alone and every
      -- record in its place; one that fails leaves all records as they were.
      pub transition_vm_state_effect :
          (target : VmState) (h : Host)
          → IsWellFormed machine root h
          → Outcome
              (λ r' h'. Moved machine root id target r' h h')
              (λ _ h'. Same machine root h h')
              (transition_vm_state machine root now env id target h)
      unfolding transition_vm_state
      transition_vm_state_effect target h well =
          Outcome-bind _ _ _
            (Outcome-weaken (load_effect machine root codec id h) (λ _ _ k. k)
              (λ _ h' same j. ap (λ x. record_at machine root x j) same))
            λ old h1 loaded.
              subst
                (λ x.
                  Outcome (λ r' h'. Moved machine root id target r' h h')
                    (λ _ h'. Same machine root h h')
                    (change_state machine root now env id old old.state target x))
                (sym loaded.0) (change_effect old h well loaded.1 old.state target refl)
