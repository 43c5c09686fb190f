-- ===== src/Artifact/Resolve.antt =====
-- internal/artifact/runtime.go, ResolveJSON.
use massive.Base.{Bytes, bytes_equal, not, ◌||◌, ◌==◌, Option, none, some, if◌then◌else◌, length}
use massive.Base.Results.{Result, good, bad, Stateful, ◌>>=◌, give, pure}
use massive.MapExec.Collect.{is_canonical}
use massive.Store.Keys.{Key}
use massive.Store.Contract.{StoreError, Object, Datastore}
use massive.Artifact.Identity.{Producer, Destination, same_producer, blob_key, validate_destination}
use massive.Artifact.Publish.{
  PublishedJson, DataArtifactManifest, wrong_type, not_canonical, bad_schema, undecodable,
  other_producer, wrong_body_key, no_body, wrong_body, bad_value, ArtifactError, storage, integrity,
  Documents, json_type, manifest_type, state_with_error, validate_canonical_json, passed,
  manifest_ref,
}

module _ (c : Documents) {S : Type 0} (d : Datastore S) (destination : Destination)
    (producer : Producer) where
  open c use {canonical, digest, is_manifest, read_manifest}

  abbrev pub Run : Type 0 → Type 0
  Run A = Stateful S ArtifactError A

  -- a decoded manifest against what its reader expects
  abbrev pub expected : Option DataArtifactManifest → Result ArtifactError DataArtifactManifest
  expected none = bad (integrity undecodable)
  expected (some m) =
      if not (same_producer m.producer producer) || not (bytes_equal m.schema destination.schema)
      then bad (integrity other_producer)
      else good m

  unfoldable pub check_manifest_object : Object → Result ArtifactError DataArtifactManifest
  check_manifest_object o =
      if not (bytes_equal o.info.content_type manifest_type)
      then bad (integrity wrong_type)
      else if not (is_canonical canonical o.body)
      then bad (integrity not_canonical)
      else if not (is_manifest o.body)
      then bad (integrity bad_schema)
      else expected (read_manifest o.body)

  abbrev pub key_of_body : DataArtifactManifest → Option Key → Result ArtifactError Key
  key_of_body m none = bad (integrity wrong_body_key)
  key_of_body m (some k) =
      if bytes_equal k.value m.body.key then good k else bad (integrity wrong_body_key)

  unfoldable pub manifest_body_key : DataArtifactManifest → Result ArtifactError Key
  manifest_body_key m = key_of_body m (blob_key m.body.hash)

  unfoldable pub check_body_object : DataArtifactManifest → Object → Result ArtifactError Bytes
  check_body_object m o =
      if not (bytes_equal o.info.content_type json_type)
        || not (length o.body == m.body.size)
        || not (bytes_equal (digest o.body) m.body.hash)
      then bad (integrity wrong_body)
      else good o.body

  abbrev pub after_body :
      DataArtifactManifest → S × Result StoreError Object → S × Result ArtifactError Bytes
  after_body m (s, bad e) = (s, bad (integrity no_body))
  after_body m (s, good o) = (s, check_body_object m o)

  unfoldable pub read_body : DataArtifactManifest → Key → Run Bytes
  read_body m k s = after_body m (d.get k s)

  unfoldable pub validate_body : DataArtifactManifest → Bytes → Run (Unit {0})
  validate_body m body s =
      state_with_error (integrity bad_value) (validate_canonical_json c d m.schema body s)

  -- what a manifest object leads to
  unfoldable pub resolve_manifest : Object → Run (PublishedJson × Bytes)
  resolve_manifest o = do
    m ← pure (check_manifest_object o)
    body_key ← pure (manifest_body_key m)
    body ← read_body m body_key
    _ ← validate_body m body
    give (
      record {
        manifest = manifest_ref c d destination.manifest_key o.body;
        body = m.body;
        schema = m.schema;
      },
      body,
    )

  abbrev pub after_manifest :
      S × Result StoreError Object → S × Result ArtifactError (PublishedJson × Bytes)
  after_manifest (s, bad e) = (s, bad (storage e))
  after_manifest (s, good o) = resolve_manifest o s

  unfoldable pub read_manifest_object : Run (PublishedJson × Bytes)
  read_manifest_object s = after_manifest (d.get destination.manifest_key s)

  unfoldable pub resolve_json : Run (PublishedJson × Bytes)
  resolve_json = do
    _ ← pure (passed c d (validate_destination c.itoa destination producer))
    read_manifest_object
