-- ===== src/Artifact/Publish.antt =====
-- internal/artifact/runtime.go: PublishJSON and ResolveJSON over the store's interface. JSON text,
-- its schemas and SHA-256 are read by `Documents`.
use massive.Base.{
  ℕ, Bytes, codes, bytes_equal, Bool, true, not, ◌||◌, Option, none, some, ℤ, if◌then◌else◌, length,
}
use massive.Base.Results.{Result, good, bad, Stateful, ◌>>=◌, give, throw, pure}
use massive.MapExec.Collect.{Canonical, is_canonical}
use massive.Store.Keys.{Key}
use massive.Store.Contract.{
  StoreError, invalid_key, not_found, access_denied, already_exists, failed, ObjectInfo, Object,
  Datastore,
}
use massive.Artifact.Identity.{Producer, Destination, IdentityError, blob_key, validate_destination}

abbrev pub json_type : Bytes
json_type = codes "application/json"

abbrev pub manifest_type : Bytes
manifest_type = codes "application/vnd.massive.data-artifact-manifest+json"

pub record ArtifactRef : Type 0 where
  pub key : Bytes
  pub hash : Bytes
  pub size : ℕ
  pub content_type : Bytes

pub record PublishedJson : Type 0 where
  pub manifest : ArtifactRef
  pub body : ArtifactRef
  pub schema : Bytes

-- the fields of dataArtifactManifest that are not constants
pub record DataArtifactManifest : Type 0 where
  pub producer : Producer
  pub schema : Bytes
  pub body : ArtifactRef

pub data Integrity : Type 0 where
  wrong_type not_canonical bad_schema undecodable other_producer wrong_body_key no_body : Integrity
  wrong_body bad_value : Integrity

pub data ArtifactError : Type 0 where
  identity : IdentityError → ArtifactError
  value_not_canonical bad_schema_ref bad_schema_object schema_mismatch bad_manifest : ArtifactError
  unreadable_schema : StoreError → ArtifactError
  bad_digest : ArtifactError
  storage : StoreError → ArtifactError
  body_conflict manifest_conflict : ArtifactError
  integrity : Integrity → ArtifactError

pub record Documents : Type 0 where
  pub canonical : Canonical
  -- canonical.DigestBytes
  pub digest : Bytes → Bytes
  -- strconv.Itoa
  pub itoa : ℤ → Bytes
  -- ValidateJSONSchema, by the schema and the document
  pub satisfies : Bytes → Bytes → Bool
  -- canonical.Marshal of a manifest with its constants
  pub manifest_text : DataArtifactManifest → Option Bytes
  -- validateManifestSchema
  pub is_manifest : Bytes → Bool
  -- json.Unmarshal into a manifest
  pub read_manifest : Bytes → Option DataArtifactManifest

-- with the error in place of another
abbrev pub with_error {ℓ} :
    {A : Type ℓ} → ArtifactError → Result ArtifactError A → Result ArtifactError A
with_error e (good a) = good a
with_error e (bad d) = bad e

abbrev pub state_with_error :
    {S A : Type 0} → ArtifactError → S × Result ArtifactError A → S × Result ArtifactError A
state_with_error e (s, r) = (s, with_error e r)

module _ (c : Documents) {S : Type 0} (d : Datastore S) where
  open c use {canonical, digest, manifest_text, is_manifest, read_manifest}

  abbrev pub Run : Type 0 → Type 0
  Run A = Stateful S ArtifactError A

  -- a schema object against its reference, and the value against the schema
  unfoldable pub check_schema : Bytes → Bytes → Object → Result ArtifactError (Unit {0})
  check_schema schema body o =
      if not (is_canonical canonical o.body) || not (bytes_equal (digest o.body) schema)
      then bad bad_schema_object
      else if not (c.satisfies o.body body)
      then bad schema_mismatch
      else good tt

  abbrev pub after_schema :
      Bytes → Bytes → S × Result StoreError Object → S × Result ArtifactError (Unit {0})
  after_schema schema body (s, bad e) = (s, bad (unreadable_schema e))
  after_schema schema body (s, good o) = (s, check_schema schema body o)

  abbrev pub read_schema : Bytes → Bytes → Option Key → Run (Unit {0})
  read_schema schema body none = throw bad_schema_ref
  read_schema schema body (some k) = λ s. after_schema schema body (d.get k s)

  unfoldable pub validate_canonical_json : Bytes → Bytes → Run (Unit {0})
  validate_canonical_json schema body =
      if not (is_canonical canonical body)
      then throw value_not_canonical
      else read_schema schema body (blob_key schema)

  -- an object that was there before
  unfoldable pub compare_existing :
      Bytes → Bytes → ArtifactError → Object → Result ArtifactError (Unit {0})
  compare_existing body type conflict o =
      if not (bytes_equal o.info.content_type type) || not (bytes_equal o.body body)
      then bad conflict
      else good tt

  abbrev pub after_get :
      Bytes
      → Bytes
      → ArtifactError
      → S × Result StoreError Object
      → S × Result ArtifactError (Unit {0})
  after_get body type conflict (s, bad e) = (s, bad conflict)
  after_get body type conflict (s, good o) = (s, compare_existing body type conflict o)

  unfoldable pub after_put :
      Key
      → Bytes
      → Bytes
      → ArtifactError
      → S × Result StoreError ObjectInfo
      → S × Result ArtifactError (Unit {0})
  after_put k body type conflict (s, good info) = (s, good tt)
  after_put k body type conflict (s, bad already_exists) = after_get body type conflict (d.get k s)
  after_put k body type conflict (s, bad invalid_key) = (s, bad (storage invalid_key))
  after_put k body type conflict (s, bad not_found) = (s, bad (storage not_found))
  after_put k body type conflict (s, bad access_denied) = (s, bad (storage access_denied))
  after_put k body type conflict (s, bad (failed e)) = (s, bad (storage (failed e)))

  unfoldable pub put_immutable : Key → Bytes → Bytes → ArtifactError → Run (Unit {0})
  put_immutable k body type conflict s =
      after_put k body type conflict
        (d.put k body (record { content_type = type; if_absent = true }) s)

  abbrev pub checked_manifest : Option Bytes → Result ArtifactError Bytes
  checked_manifest none = bad bad_manifest
  checked_manifest (some text) = if is_manifest text then good text else bad bad_manifest

  unfoldable pub canonical_manifest : DataArtifactManifest → Result ArtifactError Bytes
  canonical_manifest manifest = checked_manifest (manifest_text manifest)

  abbrev pub passed : Option IdentityError → Result ArtifactError (Unit {0})
  passed none = good tt
  passed (some e) = bad (identity e)

  abbrev pub with_key : Option Key → Result ArtifactError Key
  with_key none = bad bad_digest
  with_key (some k) = good k

  unfoldable pub body_ref : Key → Bytes → ArtifactRef
  body_ref k body = record {
    key = k.value;
    hash = digest body;
    size = length body;
    content_type = json_type;
  }

  unfoldable pub manifest_ref : Key → Bytes → ArtifactRef
  manifest_ref k text = record {
    key = k.value;
    hash = digest text;
    size = length text;
    content_type = manifest_type;
  }

  module _ (destination : Destination) (producer : Producer) where
    -- the two writes, in their order
    unfoldable pub commit : Key → Bytes → Bytes → Run (Unit {0})
    commit body_key body text = do
      _ ← put_immutable body_key body json_type body_conflict
      put_immutable destination.manifest_key text manifest_type manifest_conflict

    unfoldable pub new_manifest : Key → Bytes → DataArtifactManifest
    new_manifest body_key body = record {
      producer = producer;
      schema = destination.schema;
      body = body_ref body_key body;
    }

    unfoldable pub published : Key → Bytes → Bytes → PublishedJson
    published body_key body text = record {
      manifest = manifest_ref destination.manifest_key text;
      body = body_ref body_key body;
      schema = destination.schema;
    }

    -- PublishJSON, from its last part on
    unfoldable pub publish_text : Bytes → Key → Bytes → Run PublishedJson
    publish_text body body_key text = do
      _ ← commit body_key body text
      give (published body_key body text)

    unfoldable pub publish_at : Bytes → Key → Run PublishedJson
    publish_at body body_key = do
      text ← pure (canonical_manifest (new_manifest body_key body))
      publish_text body body_key text

    unfoldable pub publish_valid : Bytes → Run PublishedJson
    publish_valid body = do
      body_key ← pure (with_key (blob_key (digest body)))
      publish_at body body_key

    unfoldable pub publish_checked : Bytes → Run PublishedJson
    publish_checked body = do
      _ ← validate_canonical_json destination.schema body
      publish_valid body

    unfoldable pub publish_json : Bytes → Run PublishedJson
    publish_json body = do
      _ ← pure (passed (validate_destination c.itoa destination producer))
      publish_checked body
