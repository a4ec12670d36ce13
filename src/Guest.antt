-- ===== src/Guest.antt =====
-- What the guest commands share: their errors, and how they call the registry and the system.
pub mod Quota
pub mod Fork
pub mod Discard
pub mod MountPath
pub mod Usage
pub mod Gc
pub mod Diff
use fastenv.Base.{Text, Io, Result, ok, err, map_err}
use fastenv.Os.{World, Call}
use fastenv.Registry.{RegistryError}
use fastenv.Registry

-- The errors of the commands, without their texts.
pub data CommandError : Type 0 where
  -- A fork or base of this key is not in the registry (`ForkError::NotFound` and its like).
  not_found already_exists not_mounted : Text → CommandError
  registry : RegistryError → CommandError
  os : Call → CommandError
  null_byte : CommandError

abbrev pub Command : Type 0 → Type 0
Command = Io World CommandError

-- A call of the system.
abbrev pub run : {A : Type 0} → Io World Call A → Command A
run = map_err os

-- `.map_err(|e| match e { NotFound(_) => NotFound(key), other => other })`
abbrev pub renamed : Text → RegistryError → CommandError
renamed key (RegistryError.not_found j) = not_found key
renamed key (RegistryError.io c) = registry (RegistryError.io c)
renamed key RegistryError.json = registry RegistryError.json
renamed key RegistryError.persist = registry RegistryError.persist
