-- ===== src/Host/Disk/Records.antt =====
-- What the state.json files on the disk say, whatever their text: the records that the supervisor
-- of src/host_control_plane.rs keeps.
use fastenv.Base.{
  Text, [], ◌∷◌, ◌++◌, ◌==◌, nat_Eq, list_Eq, if◌then◌else◌, Option, none, some, Outcome, returned,
  raised, Outcome-bind, Outcome-if, Outcome-intro, Outcome-weaken, ◌≡◌, refl, ap, ◌∙◌, arith,
  Bool-cases, inl, inr,
}
use fastenv.Os.Paths.{FilePath}
use fastenv.Host.{
  Host, create_dir_all, temp_file, persist_file, Node, directory, file, ProjectVmRecord,
}
use fastenv.Host.Disk.{
  Machine, vm_dir, state_path, or_directory, create_dirs, load_project_vm, replace_state,
  persist_record, read_node,
}

abbrev pub content : Option Node → Option Text
content none = none
content (some directory) = none
content (some (file t)) = some t

abbrev pub record_in : Machine → Option Text → Option ProjectVmRecord
record_in machine none = none
record_in machine (some t) = machine.parse_record t

-- The record of a project, if its state.json can be parsed.
abbrev pub record_at : Machine → FilePath → Host → Text → Option ProjectVmRecord
record_at machine root h id = record_in machine (content (h.disk (state_path root id)))

-- The files are as they were.
abbrev pub SameFiles : Host → Host → Type 0
SameFiles h h' = (p : FilePath) → content (h'.disk p) ≡ content (h.disk p)

-- serde_json: what was printed is read back, also before a newline.
pub record IsCodec (machine : Machine) : Type 0 where
  pub parse-print :
      (r : ProjectVmRecord) → machine.parse_record (machine.print_record r ++ 10 ∷ []) ≡ some r

-- The records of `h'` are those of `h`, but for one project.
pub record Stored (machine : Machine) (root : FilePath) (id : Text) (r : ProjectVmRecord)
    (h h' : Host) : Type 0 where
  pub records :
      (j : Text)
      → record_at machine root h' j
        ≡ (if state_path root id == state_path root j then some r else record_at machine root h j)

content-or_directory : (n : Option Node) → content (or_directory n) ≡ content n
content-or_directory none = refl
content-or_directory (some n) = refl

module _ (machine : Machine) where
  pub create_dirs_effect :
      (p : FilePath) (h : Host)
      → Outcome (λ _ h'. SameFiles h h') (λ _ h'. SameFiles h h') (create_dirs machine p h)
  unfolding create_dirs
  create_dirs_effect p h =
      Outcome-if (machine.fails (create_dir_all p))
        (λ _. raised λ q. ground (arith, content-or_directory (h.disk q)))
        (λ _. returned λ q. ground (arith, content-or_directory (h.disk q)))

  module _ (root : FilePath) (codec : IsCodec machine) where
    pub load_effect :
        (id : Text) (h : Host)
        → Outcome
            (λ r h'. (h' ≡ h) × (record_at machine root h id ≡ some r))
            (λ _ h'. h' ≡ h)
            (load_project_vm machine root id h)
    unfolding load_project_vm
    load_effect id h = go (h.disk (state_path root id))
      where
        go :
            (n : Option Node)
            → Outcome
                (λ r h'. (h' ≡ h) × (record_in machine (content n) ≡ some r))
                (λ _ h'. h' ≡ h)
                (read_node machine (state_path root id) n, h)
        go none = raised refl
        go (some directory) = raised refl
        go (some (file t)) = Outcome-intro _ (λ r e. (refl, ground arith)) (λ _ _. refl)

    replace_effect :
        (r : ProjectVmRecord) (h : Host)
        → Outcome
            (λ _ h'. Stored machine root r.project_id r h h')
            (λ _ h'. SameFiles h h')
            (replace_state machine (state_path root r.project_id) r h)
    replace_effect r h =
        Outcome-if (machine.fails (temp_file (state_path root r.project_id)))
          (λ _. raised (λ q. refl))
          λ _.
            Outcome-if (machine.fails (persist_file (state_path root r.project_id)))
              (λ _. raised (λ q. refl))
              λ _. returned (record {
                records = λ j.
                    elim (Bool-cases (state_path root r.project_id == state_path root j)) [
                      | inl same ↦ rw same (codec.parse-print r)
                      | inr other ↦ rw other refl
                    ];
              })

    pub Stored-from :
        {id : Text} {r : ProjectVmRecord} {h h1 h' : Host}
        → ((j : Text) → record_at machine root h1 j ≡ record_at machine root h j)
        → Stored machine root id r h1 h'
        → Stored machine root id r h h'
    Stored-from {id} {r} same stored = record {
      records = λ j.
          stored.records j
          ∙ ap (λ o. if state_path root id == state_path root j then some r else o) (same j);
    }

    pub same_records :
        (h h' : Host)
        → SameFiles h h'
        → (j : Text) → record_at machine root h' j ≡ record_at machine root h j
    same_records h h' same j = ap (record_in machine) (same (state_path root j))

    -- A record that is persisted is what its state.json says from then on, and no other changes.
    pub persist_effect :
        (r : ProjectVmRecord) (h : Host)
        → Outcome
            (λ _ h'. Stored machine root r.project_id r h h')
            (λ _ h'. SameFiles h h')
            (persist_record machine root r h)
    unfolding persist_record
    persist_effect r h =
        Outcome-bind _ _ _ (create_dirs_effect (vm_dir root r.project_id) h) λ _ h1 same.
          Outcome-weaken (replace_effect r h1)
            (λ _ h2 stored. Stored-from (same_records h h1 same) stored)
            (λ _ h2 kept q. kept q ∙ same q)
