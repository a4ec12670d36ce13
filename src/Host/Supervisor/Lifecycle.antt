-- ===== src/Host/Supervisor/Lifecycle.antt =====
-- The operations of `ProjectVmSupervisor` in src/host_control_plane.rs that load a record, change it and
-- write it back.
pub mod Processes
pub mod Moves
pub mod Provision
use fastenv.Base.{filter, not, list_eq, ◌++◌, ◌∷◌, [], ◌==◌, nat_Eq, list_Eq}
use fastenv.Base.{
  Text, text, Bool, true, false, List, [], ◌∷◌, ◌++◌, ◌==◌, eq_iff, eq_refl, nat_Eq, list_Eq,
  if◌then◌else◌, Option, none, some, Result, ok, err, Outcome, returned, raised, Outcome-bind,
  Outcome-if, Outcome-intro, Outcome-weaken, ◌>>=◌, ◌≡◌, ◌≢◌, refl, ap, sym, subst, ◌∙◌, arith,
  Bool-cases, inl, inr, is_blank,
}
use fastenv.Os.Paths.{FilePath}
use fastenv.Host.{
  Host, ProjectVmRecord, ProjectVmSpec, SecretLease, ArtifactRecord, NetworkPolicy, Action, VmError,
}
use fastenv.Host.Disk.{Machine, state_path, vm_dir, load_project_vm, persist_record}
use fastenv.Host.Disk.Records.{
  IsCodec, SameFiles, Stored, record_at, record_in, content, load_effect, persist_effect,
  same_records,
}
use fastenv.Host.Firecracker.{pid_path}
use fastenv.Host.Supervisor.{
  finish, inject_secret, collect_artifact, attach_network_policy, put_secret, put_artifact,
  new_record, updated,
}

-- The records are as they were.
abbrev pub SameRecords : Machine → FilePath → Host → Host → Type 0
SameRecords machine root h h' =
    (j : Text) → record_at machine root h' j ≡ record_at machine root h j

-- A record that stands in the state.json of its own project, and whose socket and PID file are no
-- state.json.
pub record IsOwn (root : FilePath) (id : Text) (r : ProjectVmRecord) : Type 0 where
  pub path : state_path root r.project_id ≡ state_path root id
  pub socket : (j : Text) → r.firecracker_sock ≢ state_path root j
  pub pid : (j : Text) → pid_path r ≢ state_path root j

-- Every record stands where it belongs.
abbrev pub IsWellFormed : Machine → FilePath → Host → Type 0
IsWellFormed machine root h =
    (id : Text) (r : ProjectVmRecord) → record_at machine root h id ≡ some r → IsOwn root id r

-- What an operation that changes a record by `f` has done.
pub record Edited (machine : Machine) (root : FilePath) (now : Text)
    (f : ProjectVmRecord → ProjectVmRecord) (id : Text) (r' : ProjectVmRecord) (h h' : Host)
    : Type 0 where
  pub old : ProjectVmRecord
  pub was : record_at machine root h id ≡ some old
  pub changed : r' ≡ record (f old) { updated_at = now }
  pub reads : record_at machine root h' id ≡ some r'
  pub others :
      (j : Text)
      → state_path root id ≢ state_path root j
      → record_at machine root h' j ≡ record_at machine root h j
  pub well_formed : IsWellFormed machine root h'

-- A change that leaves alone what makes a record its project's own.
pub record IsInnocent (f : ProjectVmRecord → ProjectVmRecord) : Type 0 where
  pub project_id : (r : ProjectVmRecord) → (f r).project_id ≡ r.project_id
  pub vm_dir : (r : ProjectVmRecord) → (f r).vm_dir ≡ r.vm_dir
  pub firecracker_sock : (r : ProjectVmRecord) → (f r).firecracker_sock ≡ r.firecracker_sock

pub IsOwn-innocent :
    {root : FilePath} {id : Text} (f : ProjectVmRecord → ProjectVmRecord) (r : ProjectVmRecord)
    → IsInnocent f
    → IsOwn root id r
    → IsOwn root id (f r)
IsOwn-innocent {root} {id} f r i own = record {
  path = rw (i.project_id r) own.path;
  socket = λ j. rw (i.firecracker_sock r) (own.socket j);
  pid = λ j. rw (i.vm_dir r) (own.pid j);
}

some-injective : {a b : ProjectVmRecord} → some a ≡ some b → a ≡ b
some-injective h = cc

IsOwn-moved :
    {root : FilePath} {id j : Text} {r : ProjectVmRecord}
    → state_path root id ≡ state_path root j
    → IsOwn root id r
    → IsOwn root j r
IsOwn-moved same own = record { path = own.path ∙ same; socket = own.socket; pid = own.pid }

module _ (machine : Machine) (root : FilePath) where
  pub Stored-reads :
      {id : Text} {r : ProjectVmRecord} {h h' : Host}
      → Stored machine root id r h h'
      → record_at machine root h' id ≡ some r
  Stored-reads {id} stored = rw (stored.records id, eq_refl (state_path root id)) refl

  pub Stored-others :
      {id : Text} {r : ProjectVmRecord} {h h' : Host}
      → Stored machine root id r h h'
      → (j : Text) → state_path root id ≢ state_path root j
      → record_at machine root h' j ≡ record_at machine root h j
  Stored-others {id} stored j ne = elim (Bool-cases (state_path root id == state_path root j)) [
    | inl same ↦ absurd (ne ((eq_iff _ _).0 same))
    | inr other ↦ stored.records j ∙ rw other refl
  ]

  pub Stored-own :
      {id : Text} {r : ProjectVmRecord} {h h' : Host}
      → IsOwn root id r
      → Stored machine root r.project_id r h h'
      → Stored machine root id r h h'
  Stored-own own stored = record { records = λ j. rw (← own.path) (stored.records j) }

  pub Stored-IsWellFormed :
      {id : Text} {r : ProjectVmRecord} {h h' : Host}
      → IsOwn root id r
      → Stored machine root id r h h'
      → IsWellFormed machine root h
      → IsWellFormed machine root h'
  Stored-IsWellFormed {id} {r} own stored well j s e =
      elim (Bool-cases (state_path root id == state_path root j)) [
        | inl same ↦
            subst (IsOwn root j) (some-injective (sym (stored.records j ∙ rw same refl) ∙ e))
              (IsOwn-moved ((eq_iff _ _).0 same) own)
        | inr other ↦ well j s (sym (stored.records j ∙ rw other refl) ∙ e)
      ]

  module _ (codec : IsCodec machine) (now : Text) where
    pub finish_effect :
        (id : Text) (r : ProjectVmRecord) (h : Host)
        → IsOwn root id r
        → IsWellFormed machine root h
        → Outcome
            (λ r' h'.
              (r' ≡ record r { updated_at = now })
              × Stored machine root id r' h h'
              × IsWellFormed machine root h')
            (λ _ h'. SameRecords machine root h h')
            (finish machine root now r h)
    unfolding finish
    finish_effect id r h own well =
        Outcome-bind _ _ _
          (Outcome-weaken (persist_effect machine root codec (record r { updated_at = now }) h)
            (λ _ _ s. s) (λ _ h' same. same_records machine root codec h h' same))
          λ _ h1 stored.
            let mine =
              Stored-own (record { path = own.path; socket = own.socket; pid = own.pid }) stored in
            returned (
              refl,
              mine,
              Stored-IsWellFormed (record { path = own.path; socket = own.socket; pid = own.pid })
                  mine well,
            )

    -- An operation that loads a record, changes it innocently, and finishes.
    pub edit_effect :
        (f : ProjectVmRecord → ProjectVmRecord) (id : Text) (h : Host)
        → IsInnocent f
        → IsWellFormed machine root h
        → Outcome
            (λ r' h'. Edited machine root now f id r' h h')
            (λ _ h'. SameRecords machine root h h')
            ((load_project_vm machine root id >>= λ r. finish machine root now (f r)) h)
    edit_effect f id h i well =
        Outcome-bind _ _ _
          (Outcome-weaken (load_effect machine root codec id h) (λ _ _ k. k)
            (λ _ h' same j. ap (λ x. record_at machine root x j) same))
          λ old h1 loaded.
            let same : SameRecords machine root h h1 =
              λ j. ap (λ x. record_at machine root x j) loaded.0 in
            let well1 = subst (IsWellFormed machine root) (sym loaded.0) well in
            Outcome-weaken
              (finish_effect id (f old) h1 (IsOwn-innocent f old i (well id old loaded.1)) well1)
              (λ r' h' k. record {
                old = old;
                was = loaded.1;
                changed = k.0;
                reads = Stored-reads k.1;
                others = λ j ne. Stored-others k.1 j ne ∙ same j;
                well_formed = k.2;
              })
              (λ _ h' k j. k j ∙ same j)

    -- If serde_json reads what it printed and every record stands in its own state.json and has a
    -- socket and a PID file that are no state.json: an inject_secret that succeeds has put the
    -- lease, its value included, into the record that state.json holds, set its time, and changed
    -- no other project's record; one that fails leaves all records as they were.
    pub inject_secret_effect :
        (id : Text) (lease : SecretLease) (h : Host)
        → IsWellFormed machine root h
        → Outcome
            (λ r' h'.
              Edited machine root now
                (λ r. record r { secrets = put_secret lease r.secrets })
                id
                r'
                h
                h')
            (λ _ h'. SameRecords machine root h h')
            (inject_secret machine root now id lease h)
    unfolding inject_secret
    inject_secret_effect id lease h well =
        edit_effect _ id h
          (record { project_id = λ r. refl; vm_dir = λ r. refl; firecracker_sock = λ r. refl }) well

    -- If serde_json reads what it printed and every record stands in its own state.json and has a
    -- socket and a PID file that are no state.json: an attach_network_policy that succeeds has set
    -- the policy of the record that state.json holds and its time, and changed no other project's
    -- record; one that fails leaves all records as they were.
    pub attach_network_policy_effect :
        (id : Text) (policy : NetworkPolicy) (h : Host)
        → IsWellFormed machine root h
        → Outcome
            (λ r' h'.
              Edited machine root now (λ r. record r { network_policy = policy }) id r' h h')
            (λ _ h'. SameRecords machine root h h')
            (attach_network_policy machine root now id policy h)
    unfolding attach_network_policy
    attach_network_policy_effect id policy h well =
        edit_effect _ id h
          (record { project_id = λ r. refl; vm_dir = λ r. refl; firecracker_sock = λ r. refl }) well

    -- If serde_json reads what it printed and every record stands in its own state.json and has a
    -- socket and a PID file that are no state.json: a collect_artifact that succeeds had a name
    -- that is not blank, and has put the artifact at the end of those of other names in the record
    -- that state.json holds, set its time, and changed no other project's record; one that fails
    -- leaves all records as they were.
    pub collect_artifact_effect :
        (id : Text) (artifact : ArtifactRecord) (h : Host)
        → IsWellFormed machine root h
        → Outcome
            (λ r' h'.
              (is_blank artifact.name ≡ false)
              × Edited machine root now
                  (λ r. record r {
                    artifacts =
                        filter (λ a. not (a.name == artifact.name)) r.artifacts ++ artifact ∷ [];
                  })
                  id
                  r'
                  h
                  h')
            (λ _ h'. SameRecords machine root h h')
            (collect_artifact machine root now id artifact h)
    unfolding collect_artifact put_artifact list_eq
    collect_artifact_effect id artifact h well =
        Outcome-bind _ _ _
          (Outcome-if {P = λ _ h'. (h' ≡ h) × (is_blank artifact.name ≡ false)}
            {Q = λ _ h'. SameRecords machine root h h'} (is_blank artifact.name)
            (λ _. raised (λ j. refl)) (λ e. returned (refl, e)))
          λ _ h1 named.
            subst
              (λ x.
                Outcome
                  (λ r' h'.
                    (is_blank artifact.name ≡ false)
                    × Edited machine root now
                        (λ r. record r { artifacts = put_artifact artifact r.artifacts }) id r' h
                        h')
                  (λ _ h'. SameRecords machine root h h')
                  ((load_project_vm machine root id >>= λ r.
                      finish machine root now
                        (record r { artifacts = put_artifact artifact r.artifacts }))
                    x))
              (sym named.0)
              (Outcome-weaken
                (edit_effect _ id h
                  (record {
                    project_id = λ r. refl;
                    vm_dir = λ r. refl;
                    firecracker_sock = λ r. refl;
                  })
                  well)
                (λ _ _ k. (named.1, k)) (λ _ _ k. k))
