-- ===== src/Tests/Codes.antt =====
-- A text for every document and every VM record, with a reader for it: concrete stand-ins for
-- serde_json.
use fastenv.Base.{
  ℕ, zero, suc, Text, HashMap, List, [], ◌∷◌, length, Option, none, some, ◌≡◌, refl, ap, ◌∙◌,
}
use fastenv.Schema.{BaseEntry, ForkEntry, QuotaMode, soft, hard, RegistryDoc}
use fastenv.Os.Paths.{FilePath}
use fastenv.Host.{
  VmState, provisioned, running, stopped, NetworkPolicy, SecretLease, ArtifactRecord,
  HostEbpfPolicy, ProjectVmRecord,
}

pub record Code (A : Type 0) : Type 0 where
  -- The text of a value before a rest, and the value at the start of a text with the rest.
  pub enc : A → Text → Text
  pub dec : Text → Option (A × Text)
  pub dec-enc : (a : A) (rest : Text) → dec (enc a rest) ≡ some (a, rest)

abbrev first : Text → Option (ℕ × Text)
first [] = none
first (n ∷ rest) = some (n, rest)

abbrev nat : Code ℕ
nat = record { enc = λ n rest. n ∷ rest; dec = first; dec-enc = λ n rest. refl }

module _ {A B : Type 0} where
  abbrev beside : A → Option (B × Text) → Option ((A × B) × Text)
  beside a none = none
  beside a (some (b, rest)) = some ((a, b), rest)

  abbrev and_then : (Text → Option (B × Text)) → Option (A × Text) → Option ((A × B) × Text)
  and_then dec none = none
  and_then dec (some (a, rest)) = beside a (dec rest)

  abbrev pair : Code A → Code B → Code (A × B)
  pair c d = record {
    enc = λ p rest. c.enc p.0 (d.enc p.1 rest);
    dec = λ t. and_then d.dec (c.dec t);
    dec-enc = λ p rest.
        ap (and_then d.dec) (c.dec-enc p.0 (d.enc p.1 rest)) ∙ ap (beside p.0) (d.dec-enc p.1 rest);
  }

  abbrev mapped : (A → B) → Option (A × Text) → Option (B × Text)
  mapped f none = none
  mapped f (some (a, rest)) = some (f a, rest)

  -- A code through a type with the same values.
  abbrev via : Code A → (to : B → A) (from : A → B) → ((b : B) → from (to b) ≡ b) → Code B
  via c to from law = record {
    enc = λ b rest. c.enc (to b) rest;
    dec = λ t. mapped from (c.dec t);
    dec-enc = λ b rest. rw (c.dec-enc (to b) rest, law b) refl;
  }

module _ {A : Type 0} where
  module _ (c : Code A) where
    abbrev enc_all : List A → Text → Text
    enc_all [] rest = rest
    enc_all (x ∷ xs) rest = c.enc x (enc_all xs rest)

    abbrev dec_all : ℕ → Text → Option (List A × Text)
    dec_all zero t = some ([], t)
    dec_all (suc n) t = elim (c.dec t) [
      | none ↦ none
      | some (x, rest) ↦ elim (dec_all n rest) [
        | none ↦ none
        | some (xs, rest') ↦ some (x ∷ xs, rest')
      ]
    ]

    pub dec_all-enc_all :
        (xs : List A) (rest : Text) → dec_all (length xs) (enc_all xs rest) ≡ some (xs, rest)
    dec_all-enc_all [] rest = refl
    dec_all-enc_all (x ∷ xs) rest = rw (c.dec-enc x (enc_all xs rest), dec_all-enc_all xs rest) refl

    abbrev counted : Option (ℕ × Text) → Option (List A × Text)
    counted none = none
    counted (some (n, rest)) = dec_all n rest

    abbrev list : Code (List A)
    list = record {
      enc = λ xs rest. length xs ∷ enc_all xs rest;
      dec = λ t. counted (first t);
      dec-enc = dec_all-enc_all;
    }

  abbrev to_list : Option A → List A
  to_list none = []
  to_list (some a) = a ∷ []

  abbrev of_list : List A → Option A
  of_list [] = none
  of_list (a ∷ xs) = some a

  pub of_list-to_list : (o : Option A) → of_list (to_list o) ≡ o
  of_list-to_list none = refl
  of_list-to_list (some a) = refl

  abbrev option : Code A → Code (Option A)
  option c = via (list c) to_list of_list of_list-to_list

abbrev string : Code Text
string = list nat

abbrev path : Code FilePath
path = list string

abbrev hash_map : {V : Type 0} → Code V → Code (HashMap V)
hash_map c = list (pair string c)

abbrev base_entry : Code BaseEntry
base_entry =
    via (pair path (pair path (pair string (list path))))
      (λ e. (e.lower_path, (e.meta_path, (e.created_at, e.cache_lower_paths))))
      (λ p. record {
        lower_path = p.0;
        meta_path = p.1.0;
        created_at = p.1.1.0;
        cache_lower_paths = p.1.1.1;
      })
      (λ e. refl)

abbrev mode_number : QuotaMode → ℕ
mode_number soft = 0
mode_number hard = 1

abbrev number_mode : ℕ → QuotaMode
number_mode zero = soft
number_mode (suc n) = hard

pub number_mode-mode_number : (m : QuotaMode) → number_mode (mode_number m) ≡ m
number_mode-mode_number soft = refl
number_mode-mode_number hard = refl

abbrev fork_entry : Code ForkEntry
fork_entry =
    via
      (pair string (
        pair path (
          pair path (
            pair (option path) (
              pair (option nat) (
                pair (via nat mode_number number_mode number_mode-mode_number)
                  (pair string (hash_map string))))))))
      (λ e. (
        e.base_key,
        (
          e.upper_path,
          (e.work_path, (e.merged_path, (e.quota_bytes, (e.quota_mode, (e.created_at, e.labels))))),
        ),
      ))
      (λ p. record {
        base_key = p.0;
        upper_path = p.1.0;
        work_path = p.1.1.0;
        merged_path = p.1.1.1.0;
        quota_bytes = p.1.1.1.1.0;
        quota_mode = p.1.1.1.1.1.0;
        created_at = p.1.1.1.1.1.1.0;
        labels = p.1.1.1.1.1.1.1;
      })
      (λ e. refl)

abbrev pub doc : Code RegistryDoc
doc =
    via (pair (hash_map base_entry) (hash_map fork_entry)) (λ d. (d.bases, d.forks))
      (λ p. record { bases = p.0; forks = p.1 }) (λ d. refl)

abbrev state_number : VmState → ℕ
state_number provisioned = 0
state_number running = 1
state_number stopped = 2

abbrev number_state : ℕ → VmState
number_state zero = provisioned
number_state (suc zero) = running
number_state (suc (suc n)) = stopped

pub number_state-state_number : (s : VmState) → number_state (state_number s) ≡ s
number_state-state_number provisioned = refl
number_state-state_number running = refl
number_state-state_number stopped = refl

abbrev policy_parts : NetworkPolicy → ℕ × List Text
policy_parts NetworkPolicy.none = (0, [])
policy_parts (NetworkPolicy.package_mirror_only m) = (1, to_list m)
policy_parts (NetworkPolicy.allowlist hosts) = (2, hosts)
policy_parts (NetworkPolicy.audited_egress hosts) = (3, hosts)

abbrev parts_policy : ℕ × List Text → NetworkPolicy
parts_policy (zero, hosts) = NetworkPolicy.none
parts_policy (suc zero, hosts) = NetworkPolicy.package_mirror_only (of_list hosts)
parts_policy (suc (suc zero), hosts) = NetworkPolicy.allowlist hosts
parts_policy (suc (suc (suc n)), hosts) = NetworkPolicy.audited_egress hosts

pub parts_policy-policy_parts : (p : NetworkPolicy) → parts_policy (policy_parts p) ≡ p
parts_policy-policy_parts NetworkPolicy.none = refl
parts_policy-policy_parts (NetworkPolicy.package_mirror_only m) =
    ap NetworkPolicy.package_mirror_only (of_list-to_list m)
parts_policy-policy_parts (NetworkPolicy.allowlist hosts) = refl
parts_policy-policy_parts (NetworkPolicy.audited_egress hosts) = refl

abbrev secret : Code SecretLease
secret =
    via (pair string (pair string (pair string string)))
      (λ s. (s.secret_name, (s.scope, (s.expires_at, s.secret_value))))
      (λ p. record {
        secret_name = p.0;
        scope = p.1.0;
        expires_at = p.1.1.0;
        secret_value = p.1.1.1;
      })
      (λ s. refl)

abbrev artifact : Code ArtifactRecord
artifact =
    via (pair string (pair string (pair path (option string))))
      (λ a. (a.name, (a.kind, (a.path, a.digest))))
      (λ p. record { name = p.0; kind = p.1.0; path = p.1.1.0; digest = p.1.1.1 }) (λ a. refl)

abbrev ebpf : Code HostEbpfPolicy
ebpf =
    via
      (pair string
        (pair string (pair path (pair (option string) (pair (option string) (option string))))))
      (λ e. (
        e.name,
        (e.attach_point, (e.object_path, (e.tc_attach_handle, (e.pin_path, e.loaded_at)))),
      ))
      (λ p. record {
        name = p.0;
        attach_point = p.1.0;
        object_path = p.1.1.0;
        tc_attach_handle = p.1.1.1.0;
        pin_path = p.1.1.1.1.0;
        loaded_at = p.1.1.1.1.1;
      })
      (λ e. refl)

abbrev pub vm : Code ProjectVmRecord
vm =
    via
      (pair string (
        pair path (
          pair path (
            pair path (
              pair path (
                pair path (
                  pair path (
                    pair path (
                      pair path (
                        pair path (
                          pair (via nat state_number number_state number_state-state_number) (
                            pair (option string) (
                              pair (list string) (
                                pair
                                  (via (pair nat (list string)) policy_parts parts_policy
                                    parts_policy-policy_parts)
                                  (pair (list secret) (
                                    pair (list artifact)
                                      (pair (option ebpf) (pair string string))))))))))))))))))
      (λ r. (
        r.project_id,
        (
          r.vm_dir,
          (
            r.firecracker_sock,
            (
              r.kernel_path,
              (
                r.rootfs_path,
                (
                  r.workspace_path,
                  (
                    r.cache_dir,
                    (
                      r.logs_dir,
                      (
                        r.artifacts_dir,
                        (
                          r.state_path,
                          (
                            r.state,
                            (
                              r.kernel_ref,
                              (
                                r.seed_data_refs,
                                (
                                  r.network_policy,
                                  (
                                    r.secrets,
                                    (
                                      r.artifacts,
                                      (r.host_ebpf_policy, (r.created_at, r.updated_at)),
                                    ),
                                  ),
                                ),
                              ),
                            ),
                          ),
                        ),
                      ),
                    ),
                  ),
                ),
              ),
            ),
          ),
        ),
      ))
      (λ p. record {
        project_id = p.0;
        vm_dir = p.1.0;
        firecracker_sock = p.1.1.0;
        kernel_path = p.1.1.1.0;
        rootfs_path = p.1.1.1.1.0;
        workspace_path = p.1.1.1.1.1.0;
        cache_dir = p.1.1.1.1.1.1.0;
        logs_dir = p.1.1.1.1.1.1.1.0;
        artifacts_dir = p.1.1.1.1.1.1.1.1.0;
        state_path = p.1.1.1.1.1.1.1.1.1.0;
        state = p.1.1.1.1.1.1.1.1.1.1.0;
        kernel_ref = p.1.1.1.1.1.1.1.1.1.1.1.0;
        seed_data_refs = p.1.1.1.1.1.1.1.1.1.1.1.1.0;
        network_policy = p.1.1.1.1.1.1.1.1.1.1.1.1.1.0;
        secrets = p.1.1.1.1.1.1.1.1.1.1.1.1.1.1.0;
        artifacts = p.1.1.1.1.1.1.1.1.1.1.1.1.1.1.1.0;
        host_ebpf_policy = p.1.1.1.1.1.1.1.1.1.1.1.1.1.1.1.1.0;
        created_at = p.1.1.1.1.1.1.1.1.1.1.1.1.1.1.1.1.1.0;
        updated_at = p.1.1.1.1.1.1.1.1.1.1.1.1.1.1.1.1.1.1;
      })
      (λ r. refl)
