-- ===== src/Host/Supervisor/Secrets.antt =====
-- The list of secrets that `inject_secret` of src/host_control_plane.rs keeps.
use fastenv.Base.{
  ℕ, suc, Text, not, List, [], ◌∷◌, ◌++◌, filter, ◌==◌, eq_iff, nat_Eq, list_Eq, if◌then◌else◌, ◌≡◌,
  arith,
}
use fastenv.Host.{SecretLease}
use fastenv.Host.Supervisor.{put_secret}

-- The names of the secrets.
abbrev pub secret_count : Text → List SecretLease → ℕ
secret_count name [] = 0
secret_count name (s ∷ secrets) =
    if s.secret_name == name then suc (secret_count name secrets) else secret_count name secrets

put_count-other :
    (lease : SecretLease) (name : Text) (secrets : List SecretLease)
    → secret_count name
        (filter (λ s. not (s.secret_name == lease.secret_name)) secrets ++ lease ∷ [])
      ≡ (if lease.secret_name == name then 1 else secret_count name secrets)
put_count-other lease name [] = ground arith
put_count-other lease name (s ∷ secrets) = ground (
  arith,
  put_count-other lease name secrets,
  eq_iff s.secret_name lease.secret_name,
  eq_iff s.secret_name name,
  eq_iff lease.secret_name name,
)

-- After a secret is put into a list there is one secret of its name, and as many as before of every
-- other name.
pub put_secret-count :
    (lease : SecretLease) (name : Text) (secrets : List SecretLease)
    → secret_count name (put_secret lease secrets)
      ≡ (if lease.secret_name == name then 1 else secret_count name secrets)
unfolding put_secret
put_secret-count lease name secrets = put_count-other lease name secrets
