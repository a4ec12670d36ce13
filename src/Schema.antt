-- ===== src/Schema.antt =====
-- The schema types of src/registry.rs: what registry.json holds.
use fastenv.Base.{ℕ, Text, HashMap, List, [], Option}
use fastenv.Os.Paths.{FilePath}

pub record BaseEntry : Type 0 where
  pub lower_path : FilePath
  pub meta_path : FilePath
  pub created_at : Text
  pub cache_lower_paths : List FilePath

pub data QuotaMode : Type 0 where
  soft hard : QuotaMode

pub record ForkEntry : Type 0 where
  pub base_key : Text
  pub upper_path : FilePath
  pub work_path : FilePath
  pub merged_path : Option FilePath
  pub quota_bytes : Option ℕ
  pub quota_mode : QuotaMode
  pub created_at : Text
  pub labels : HashMap Text

pub record RegistryDoc : Type 0 where
  pub bases : HashMap BaseEntry
  pub forks : HashMap ForkEntry

-- `RegistryDoc::default()`
abbrev pub default_doc : RegistryDoc
default_doc = record { bases = []; forks = [] }
