-- ===== src/Exec/Secrets.antt =====
-- The secrets that `run_exec` of src/exec.rs gives to a container.
use fastenv.Base.{
  ℕ, ◌<◌, Text, true, List, [], ◌∷◌, ◌++◌, map, contains, Option, none, some, eq_refl, nat_Eq,
  list_Eq, ◌≡◌, refl, ap, Bool-cases, inl, inr, arith,
}
use fastenv.Os.Paths.{FilePath}
use fastenv.Host.{SecretLease}
use fastenv.Exec.Config.{ExecOptions, build_oci_config, not_expired, active_leases, env_entry}
use fastenv.Exec.Run.{ExecTools, config_of}

-- The lease has an expiry that can be read, and it is later than now.
abbrev pub IsActive : ExecTools → SecretLease → Type 0
IsActive tools lease =
    (expiry : ℕ) × (tools.parse_from_rfc3339 lease.expires_at ≡ some expiry) × (tools.now < expiry)

abbrev pub with_leases : ExecOptions → List SecretLease → ExecOptions
with_leases opts leases = record opts { secret_leases = leases }

active_of : (now : ℕ) (o : Option ℕ) → not_expired now o ≡ true → (e : ℕ) × (o ≡ some e) × (now < e)
active_of now none h = cc
active_of now (some e) h = (e, refl, ground arith)

of_active : (now e : ℕ) (o : Option ℕ) → o ≡ some e → now < e → not_expired now o ≡ true
of_active now e o h lt = rw h (ground arith)

module _ (tools : ExecTools) where
  abbrev active : List SecretLease → List SecretLease
  active leases = active_leases tools.parse_from_rfc3339 tools.now leases

  without_expired :
      (before after : List SecretLease) (lease : SecretLease)
      → ¬ IsActive tools lease
      → active (before ++ lease ∷ after) ≡ active (before ++ after)
  unfolding active_leases
  without_expired [] after lease late =
      elim (Bool-cases (not_expired tools.now (tools.parse_from_rfc3339 lease.expires_at))) [
        | inl t ↦ absurd (late (active_of tools.now (tools.parse_from_rfc3339 lease.expires_at) t))
        | inr f ↦ rw f refl
      ]
  without_expired (l ∷ before) after lease late =
      elim (Bool-cases (not_expired tools.now (tools.parse_from_rfc3339 l.expires_at))) [
        | inl t ↦ rw t (ap (λ ls. l ∷ ls) (without_expired before after lease late))
        | inr f ↦ rw f (without_expired before after lease late)
      ]

  has_active :
      (before after : List SecretLease) (lease : SecretLease)
      → IsActive tools lease
      → contains (map env_entry (active (before ++ lease ∷ after))) (env_entry lease) ≡ true
  unfolding active_leases
  has_active [] after lease (e, read, lt) =
      rw (of_active tools.now e (tools.parse_from_rfc3339 lease.expires_at) read lt)
        (ground (arith, eq_refl (env_entry lease)))
  has_active (l ∷ before) after lease is =
      elim (Bool-cases (not_expired tools.now (tools.parse_from_rfc3339 l.expires_at))) [
        | inl t ↦ rw t (ground (arith, has_active before after lease is))
        | inr f ↦ rw f (has_active before after lease is)
      ]

-- In any list of leases: one whose expiry cannot be read, or is not later than now, leaves the
-- config of the run as it is without that lease; the name and value of any other lease stand in the
-- environment of the container's process.
pub config_of-leases :
    (tools : ExecTools) (command : List Text) (merged : FilePath) (opts : ExecOptions)
    → (before after : List SecretLease) (lease : SecretLease)
    → (¬ IsActive tools lease
        → config_of tools command merged (with_leases opts (before ++ lease ∷ after))
          ≡ config_of tools command merged (with_leases opts (before ++ after)))
      × (IsActive tools lease
          → contains
              (config_of tools command merged
                (with_leases opts (before ++ lease ∷ after))).process.env
              (env_entry lease)
            ≡ true)
unfolding build_oci_config
config_of-leases tools command merged opts before after lease = (
  λ late.
      ap (λ leases. build_oci_config command merged opts leases)
        (without_expired tools before after lease late),
  λ is. ground (arith, has_active tools before after lease is),
)
