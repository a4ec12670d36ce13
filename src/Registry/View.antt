-- ===== src/Registry/View.antt =====
-- What registry.json says, whatever its text: the abstract registry behind src/registry.rs.
use fastenv.Base.{Text, lookup, Option, none, some, Result, ok, err, ◌≡◌, ◌≢◌, arith, false}
use fastenv.Schema.{BaseEntry, ForkEntry, RegistryDoc, default_doc}
use fastenv.Os.{open_registry, World, Platform, Call}
use fastenv.Registry.{RegistryError, read_doc, write_doc, with_exclusive_lock}

abbrev pub doc_in : Platform → Option Text → Option RegistryDoc
doc_in os none = some default_doc
doc_in os (some contents) = os.parse_doc contents

-- The document in the file, or `none` for a corrupt file.
abbrev pub doc_of : Platform → World → Option RegistryDoc
doc_of os w = doc_in os w.registry_json

abbrev pub fork_in : Text → Option RegistryDoc → Option ForkEntry
fork_in key none = none
fork_in key (some doc) = lookup key doc.forks

abbrev pub base_in : Text → Option RegistryDoc → Option BaseEntry
base_in key none = none
base_in key (some doc) = lookup key doc.bases

abbrev pub fork_at : Platform → World → Text → Option ForkEntry
fork_at os w key = fork_in key (doc_of os w)

abbrev pub base_at : Platform → World → Text → Option BaseEntry
base_at os w key = base_in key (doc_of os w)

-- Two documents that say the same of every key.
pub record SameDoc (d e : RegistryDoc) : Type 0 where
  pub bases : (key : Text) → lookup key d.bases ≡ lookup key e.bases
  pub forks : (key : Text) → lookup key d.forks ≡ lookup key e.forks

-- serde_json: what was printed is read back, up to the order of the maps. The last buffer of a
-- write reaches the file.
pub record IsCodec (os : Platform) : Type 0 where
  pub parse-print :
      (doc : RegistryDoc)
      → (e : RegistryDoc) × (os.parse_doc (os.print_doc doc) ≡ some e) × SameDoc e doc
  pub flushes : (contents : Text) → os.stored contents ≡ contents

-- No call fails.
pub record IsHealthy (os : Platform) : Type 0 where
  pub calls : (c : Call) → os.fails c ≡ false
  pub writes : os.write_fails ≡ false
  pub persists : os.persist_fails ≡ false

module _ (os : Platform) (w : World) where
  pub read_doc-world : (read_doc os w).1 ≡ w
  unfolding read_doc
  read_doc-world = ground arith

  pub read_doc-ok : {doc : RegistryDoc} → (read_doc os w).0 ≡ ok doc → doc_of os w ≡ some doc
  unfolding read_doc
  read_doc-ok h = ground arith

  pub read_doc-healthy :
      {doc : RegistryDoc}
      → os.fails open_registry ≡ false
      → doc_of os w ≡ some doc
      → read_doc os w ≡ (ok doc, w)
  unfolding read_doc
  read_doc-healthy f h = ground arith

  -- The new world of a successful exclusive access.
  abbrev pub replaced : RegistryDoc → World
  replaced doc = record w { registry_json = some (os.stored (os.print_doc doc)) }

  pub write_doc-err :
      (doc : RegistryDoc) {e : RegistryError}
      → (write_doc os doc w).0 ≡ err e
      → (write_doc os doc w).1 ≡ w
  unfolding write_doc
  write_doc-err doc h = ground arith

  pub write_doc-ok :
      (doc : RegistryDoc) → (write_doc os doc w).0 ≡ ok tt → (write_doc os doc w).1 ≡ replaced doc
  unfolding write_doc
  write_doc-ok doc h = ground arith

  module _ (f : RegistryDoc → Result RegistryError RegistryDoc) where
    pub exclusive-err :
        {e : RegistryError}
        → (with_exclusive_lock os f w).0 ≡ err e
        → (with_exclusive_lock os f w).1 ≡ w
    unfolding with_exclusive_lock
    exclusive-err h = grind (arith, read_doc-world, write_doc-err)

    pub exclusive-ok :
        {doc doc' : RegistryDoc}
        → doc_of os w ≡ some doc
        → f doc ≡ ok doc'
        → (with_exclusive_lock os f w).0 ≡ ok tt
        → (with_exclusive_lock os f w).1 ≡ replaced doc'
    unfolding with_exclusive_lock
    exclusive-ok {doc} {doc'} d g h =
        grind (arith, read_doc-world, read_doc-ok {doc = doc}, read_doc-ok, write_doc-ok doc')

    -- A corrupt file fails the access, and so does a document that `f` rejects.
    pub exclusive-corrupt : doc_of os w ≡ none → (with_exclusive_lock os f w).0 ≢ ok tt
    unfolding with_exclusive_lock read_doc
    exclusive-corrupt c h = ground arith

    pub exclusive-rejected :
        {doc : RegistryDoc} {e : RegistryError}
        → doc_of os w ≡ some doc
        → f doc ≡ err e
        → (with_exclusive_lock os f w).0 ≢ ok tt
    unfolding with_exclusive_lock read_doc
    exclusive-rejected d g h = ground arith
