-- ===== src/Registry.antt =====
-- src/registry.rs: the handle on registry.json. The document is read and replaced whole; an
-- error leaves the old file, since the new one is renamed over it. A write that fails when the
-- `BufWriter` is dropped is no error, and then what has reached the new file replaces the old one.
pub mod View
pub mod Crud
pub mod Locking
use fastenv.Base.{
  Text, HashMap, lookup, insert, remove, Option, none, some, Result, ok, err, Io, pure, gets, ◌>>=◌,
  ◌>>◌, map_err, if◌then◌else◌,
}
use fastenv.Schema.{BaseEntry, ForkEntry, RegistryDoc, default_doc}
use fastenv.Os.{
  Call, open_lock, flock, open_registry, create_temp, World, Platform, syscall, create_dirs,
}
use fastenv.Os.Paths.{FilePath}

pub data RegistryError : Type 0 where
  not_found : Text → RegistryError
  io : Call → RegistryError
  json persist : RegistryError

abbrev pub Action : Type 0 → Type 0
Action = Io World RegistryError

abbrev pub parsed : Option RegistryDoc → Result RegistryError RegistryDoc
parsed none = err json
parsed (some doc) = ok doc

-- `ok_or_else(|| NotFound(key))`
abbrev pub or_not_found : {V : Type 0} → Text → Option V → Action V
or_not_found key none w = (err (not_found key), w)
or_not_found key (some v) w = (ok v, w)

module _ (os : Platform) where
  abbrev pub call : Call → Action Unit
  call c = map_err io (syscall os c)

  unfoldable pub open_registry_at : FilePath → Action Unit
  open_registry_at root = map_err io (create_dirs os root)

  read_file : Text → Action RegistryDoc
  unfolding ◌>>=◌ map_err
  read_file contents = do call open_registry; λ w. (parsed (os.parse_doc contents), w)

  -- An absent file is an empty document.
  unfoldable pub read_doc : Action RegistryDoc
  unfolding read_file
  read_doc w = elim w.registry_json [
    | none ↦ (ok default_doc, w)
    | some contents ↦ read_file contents w
  ]

  replace_file : RegistryDoc → Action Unit
  replace_file doc w =
      if os.persist_fails
      then (err persist, w)
      else (ok tt, record w { registry_json = some (os.stored (os.print_doc doc)) })

  unfoldable pub write_doc : RegistryDoc → Action Unit
  unfolding replace_file ◌>>=◌ map_err
  write_doc doc = do
    call create_temp
    λ w. if os.write_fails then (err json, w) else replace_file doc w

  unfoldable pub with_exclusive_lock :
      (RegistryDoc → Result RegistryError RegistryDoc) → Action Unit
  unfolding ◌>>=◌ map_err
  with_exclusive_lock f = do
    call open_lock
    call flock
    doc ← read_doc
    new_doc ← λ w. (f doc, w)
    write_doc new_doc

  -- Base CRUD

  unfoldable pub insert_base : Text → BaseEntry → Action Unit
  insert_base key entry =
      with_exclusive_lock (λ doc. ok (record doc { bases = insert key entry doc.bases }))

  unfoldable pub get_base : Text → Action BaseEntry
  unfolding ◌>>=◌ map_err
  get_base key = do doc ← read_doc; or_not_found key (lookup key doc.bases)

  unfoldable pub list_bases : Action (HashMap BaseEntry)
  unfolding ◌>>=◌ map_err
  list_bases = do doc ← read_doc; pure doc.bases

  abbrev without_base : Text → RegistryDoc → Option BaseEntry → Result RegistryError RegistryDoc
  without_base key doc none = err (not_found key)
  without_base key doc (some old) = ok (record doc { bases = remove key doc.bases })

  unfoldable pub remove_base : Text → Action Unit
  remove_base key = with_exclusive_lock (λ doc. without_base key doc (lookup key doc.bases))

  -- Fork CRUD

  unfoldable pub insert_fork : Text → ForkEntry → Action Unit
  insert_fork key entry =
      with_exclusive_lock (λ doc. ok (record doc { forks = insert key entry doc.forks }))

  unfoldable pub get_fork : Text → Action ForkEntry
  unfolding ◌>>=◌ map_err
  get_fork key = do doc ← read_doc; or_not_found key (lookup key doc.forks)

  unfoldable pub list_forks : Action (HashMap ForkEntry)
  unfolding ◌>>=◌ map_err
  list_forks = do doc ← read_doc; pure doc.forks

  abbrev without_fork : Text → RegistryDoc → Option ForkEntry → Result RegistryError RegistryDoc
  without_fork key doc none = err (not_found key)
  without_fork key doc (some old) = ok (record doc { forks = remove key doc.forks })

  unfoldable pub remove_fork : Text → Action Unit
  remove_fork key = with_exclusive_lock (λ doc. without_fork key doc (lookup key doc.forks))
