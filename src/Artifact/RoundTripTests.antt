-- ===== src/Artifact/RoundTripTests.antt =====
-- An artifact in a map of objects that holds the schema of its value, with one manifest that the
-- encoder knows.
use massive.Base.{
  Bytes, codes, bytes_equal, bytes_equal_iff, ◌++◌, Bool, true, false, ◌&&◌, ◌==◌, none, some,
  if◌then◌else◌, replicate, ◌≡◌, refl, sym, ap, arith,
}
use massive.Base.Results.{good}
use massive.Store.PathClean.{split_slash, push_first, path_clean, clean_segments, join_slash}
use massive.Store.Keys.{
  Key, blob_key_sha256_hex, is_digest_hex, parse_key, check_segments, find_bad_segment,
  is_windows_abs,
}
use massive.Store.Contract.{new_object, default_content_type}
use massive.Store.Memory.{Objects, write_object, memory, memory-IsStore, memory-serves}
use massive.Artifact.Identity.{
  Destination, blob_key, same_producer, output_path, validate_destination,
  validate_producer_identity, validate_execution_scope, is_safe_project_key, is_hash_ref,
  is_safe_path_segment, is_lower_hex, output_manifest_key, same_scope,
}
use massive.Artifact.SameProducer.{same_producer_iff}
use massive.Artifact.Publish.{
  ArtifactRef, DataArtifactManifest, Documents, PublishedJson, json_type, publish_json,
  publish_checked, publish_valid, publish_at, publish_text, commit, put_immutable, after_put,
  validate_canonical_json, check_schema, canonical_manifest, new_manifest, published, body_ref,
  manifest_ref,
}
use massive.MapExec.Collect.{is_canonical}
use massive.Artifact.Resolve.{resolve_json}
use massive.Artifact.Keeps.{Keeps, publish_json-Keeps}
use massive.Artifact.Steps.{IsDocuments}
use massive.Artifact.RoundTrip.{resolve_json-publish_json}
use massive.Artifact.Tests.{producer, schema_ref, schema_path, seven, seven_key, last_digit}

abbrev digest_of : Bytes → Bytes
digest_of b = codes "sha256:" ++ (replicate 63 b'0' ++ last_digit b)

abbrev the_manifest : DataArtifactManifest
the_manifest = record {
  producer = producer;
  schema = schema_ref;
  body = record {
    key = seven_key.value;
    hash = digest_of seven;
    size = 1;
    content_type = json_type;
  };
}

abbrev same_ref : ArtifactRef → ArtifactRef → Bool
same_ref a b =
    bytes_equal a.key b.key
    && bytes_equal a.hash b.hash
    && (a.size == b.size)
    && bytes_equal a.content_type b.content_type

abbrev same_manifest : DataArtifactManifest → DataArtifactManifest → Bool
same_manifest a b =
    same_producer a.producer b.producer && bytes_equal a.schema b.schema && same_ref a.body b.body

same_ref_equal : (a b : ArtifactRef) → same_ref a b ≡ true → a ≡ b
same_ref_equal a b h =
    let keys = (bytes_equal_iff a.key b.key).0 in
    let hashes = (bytes_equal_iff a.hash b.hash).0 in
    let types = (bytes_equal_iff a.content_type b.content_type).0 in
    ground (arith, keys, hashes, types)

same_manifest_equal : (a b : DataArtifactManifest) → same_manifest a b ≡ true → a ≡ b
same_manifest_equal a b h =
    let producers = (same_producer_iff a.producer b.producer).0 in
    let schemas = (bytes_equal_iff a.schema b.schema).0 in
    let bodies = same_ref_equal a.body b.body (ground arith) in ground (arith, producers, schemas)

abbrev documents : Documents
documents = record {
  canonical = record {
    canonicalize = λ b. some b;
    elements = λ b. none;
    marshal = λ bs. none;
    marshal_value = λ b. none;
    marshal_failure = λ f. none;
  };
  digest = digest_of;
  itoa = λ n. codes "1";
  satisfies = λ schema body. true;
  manifest_text = λ m. if same_manifest m the_manifest then some (codes "manifest") else none;
  is_manifest = λ text. true;
  read_manifest = λ text. some the_manifest;
}

known_manifest :
    (m : DataArtifactManifest) (b : Bool) (text : Bytes)
    → same_manifest m the_manifest ≡ b
    → (if b then some (codes "manifest") else none) ≡ some text
    → the_manifest ≡ m
known_manifest m true text e h = sym (same_manifest_equal m the_manifest e)
known_manifest m false text e h = cc

documents-IsDocuments : IsDocuments documents
unfolding is_canonical
documents-IsDocuments = record {
  read_back = λ m text h. ap some (known_manifest m (same_manifest m the_manifest) text refl h);
  canonical = λ m text h. (bytes_equal_iff text text).1 refl;
}

abbrev destination : Destination
destination = record {
  manifest_key = record { value = output_path documents.itoa producer };
  schema = schema_ref;
}

abbrev schema_key : Key
schema_key = record { value = schema_path }

abbrev start : Objects
start = write_object schema_key (new_object schema_key (codes "true") json_type) (λ p. none)

abbrev answer : PublishedJson
answer = published documents memory destination producer seven_key seven (codes "manifest")

abbrev end : Objects
end = (publish_json documents memory destination producer seven start).0

committed : (publish_json documents memory destination producer seven start).1 ≡ good answer
unfolding publish_json publish_checked publish_valid publish_at publish_text commit put_immutable
    after_put validate_canonical_json check_schema canonical_manifest new_manifest published
    body_ref manifest_ref is_canonical validate_destination validate_producer_identity
    validate_execution_scope is_safe_project_key is_hash_ref is_safe_path_segment is_lower_hex
    output_manifest_key output_path blob_key blob_key_sha256_hex is_digest_hex parse_key
    check_segments find_bad_segment split_slash push_first path_clean clean_segments join_slash
    is_windows_abs memory write_object new_object default_content_type same_producer same_scope
committed = refl

resolve_json-publish_json_example :
    (resolve_json documents memory destination producer end).1 ≡ good (answer, seven)
unfolding memory
resolve_json-publish_json_example =
    resolve_json-publish_json documents memory memory-IsStore (λ h k e. tt) (λ s. Unit {0})
      (λ u k serves. (tt, λ o there. memory-serves u k o there)) destination producer tt
      documents-IsDocuments seven start end answer tt committed
      (record { still_sound = tt; there = λ k o u h. h }) tt

publish_json-Keeps_example : Keeps documents memory memory-IsStore start end
publish_json-Keeps_example =
    publish_json-Keeps documents memory memory-IsStore destination producer (λ h k e. tt) tt seven
      start tt
