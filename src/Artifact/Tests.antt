-- ===== src/Artifact/Tests.antt =====
-- An artifact in a directory store that holds the schema of its value.
use massive.Base.{
  ℕ, ℤ, suc, sym, false, has_byte, zero, negsuc, ◌≢◌, length, length-replicate, first_error, Bytes,
  codes, cut_prefix, [], ◌∷◌, ◌++◌, true, ◌==◌, none, some, pos, if◌then◌else◌, replicate, ◌≡◌, ◌⊎◌,
  ◌↔◌, refl, ap, arith,
}
use massive.Base.Results.{good}
use massive.MapExec.Collect.{is_canonical}
use massive.Store.PathClean.{split_slash, push_first, path_clean, clean_segments, join_slash}
use massive.Store.Keys.{
  Key, blob_key_sha256_hex, is_digest_hex, parse_key, check_segments, find_bad_segment,
  is_windows_abs,
}
use massive.Store.Contract.{default_content_type}
use massive.Store.Local.{
  Platform, Files, Disk, write_file, metadata_dir, local_datastore, put_files, get_files,
  path_for_key, put_at, install, after_record, write_metadata_if_absent, link_metadata, check_type,
  install_body, link_object, get_at, read_object, with_type, read_content_type, metadata_path,
}
use massive.Store.LocalReads.{IsPlatform, IsUsable, HasRecords, view_files}
use massive.Store.LocalViews.{with_record-HasRecords, with_body-HasRecords}
use massive.Store.LocalStore.{local-IsStore}
use massive.Artifact.Identity.{
  frames_path, check_frame, Producer, Destination, same_scope, blob_key, same_producer, output_path,
  validate_destination, validate_producer_identity, validate_execution_scope, is_safe_project_key,
  is_hash_ref, is_safe_path_segment, is_lower_hex, output_manifest_key,
}
use massive.Artifact.SameProducer.{same_producer_iff}
use massive.Artifact.Slots.{artifact_blob_value}
use massive.Artifact.SlotNames.{IsItoa}
use massive.Artifact.SlotsDistinct.{manifest_key-determines}
use massive.Artifact.Resolve.{
  check_manifest_object, manifest_body_key, check_body_object, read_body, validate_body,
  resolve_manifest, read_manifest_object, resolve_json,
}
use massive.Artifact.Integrity.{Committed, resolve_json-Committed}
use massive.Artifact.Publish.{
  Documents, PublishedJson, json_type, manifest_type, publish_json, publish_checked, publish_valid,
  publish_at, publish_text, commit, put_immutable, after_put, validate_canonical_json, check_schema,
  canonical_manifest, new_manifest, published, body_ref, manifest_ref,
}
use massive.Artifact.Immutable.{Holds}
use massive.Artifact.ManifestLast.{publish_json_manifest_last, publish_json_committed}

abbrev machine : Platform
machine = record {
  localize = λ p. some p;
  digest_hex = λ k. k;
  encode_metadata = λ t. t;
  decode_metadata = λ t. some t;
  outage = λ n call. none;
}

machine-IsPlatform : IsPlatform machine
machine-IsPlatform = record {
  localize_same = λ p q h. ground arith;
  digest_distinct = λ a b h. h;
  decode-encode = λ t. refl;
}

-- the value 7 and every other text have different digests
abbrev pub last_digit : Bytes → Bytes
last_digit [] = codes "0"
last_digit (b ∷ rest) = if b == b'7' then codes "1" else codes "0"

abbrev documents : Documents
documents = record {
  canonical = record {
    canonicalize = λ b. some b;
    elements = λ b. none;
    marshal = λ bs. none;
    marshal_value = λ b. none;
    marshal_failure = λ f. none;
  };
  digest = λ b. codes "sha256:" ++ (replicate 63 b'0' ++ last_digit b);
  itoa = λ n. codes "1";
  satisfies = λ schema body. true;
  manifest_text = λ m. some (codes "manifest");
  is_manifest = λ text. true;
  read_manifest = λ text. none;
}

abbrev pub producer : Producer
producer = record {
  project_key = codes "sha256-" ++ replicate 64 b'a';
  plan_hash = codes "sha256:" ++ replicate 64 b'b';
  run_id = codes "run";
  node_id = codes "step";
  attempt = pos 1;
  scope = none;
}

abbrev pub schema_ref : Bytes
schema_ref = codes "sha256:" ++ replicate 64 b'0'

abbrev destination : Destination
destination = record {
  manifest_key = record { value = output_path documents.itoa producer };
  schema = schema_ref;
}

abbrev pub schema_path : Bytes
schema_path = codes "blobs/sha256/" ++ replicate 64 b'0'

-- the schema and its metadata record
abbrev schema_files : Files
schema_files =
    write_file schema_path (codes "true")
      (write_file (metadata_dir ++ (schema_path ++ codes ".json")) json_type (λ p. none))

abbrev disk : Disk
disk = record { files = schema_files; clock = 0 }

abbrev pub seven : Bytes
seven = codes "7"

abbrev pub seven_key : Key
seven_key = record { value = codes "blobs/sha256/" ++ (replicate 63 b'0' ++ codes "1") }

abbrev answer : PublishedJson
answer =
    published documents (local_datastore machine) destination producer seven_key seven
      (codes "manifest")

committed :
    (publish_json documents (local_datastore machine) destination producer seven disk).1
    ≡ good answer
unfolding publish_json publish_checked publish_valid publish_at publish_text commit put_immutable
    after_put validate_canonical_json check_schema canonical_manifest new_manifest published
    body_ref manifest_ref is_canonical validate_destination validate_producer_identity
    validate_execution_scope is_safe_project_key is_hash_ref is_safe_path_segment is_lower_hex
    output_manifest_key output_path blob_key blob_key_sha256_hex is_digest_hex parse_key
    check_segments find_bad_segment split_slash push_first path_clean clean_segments join_slash
    is_windows_abs local_datastore put_files get_files path_for_key put_at install after_record
    write_metadata_if_absent link_metadata check_type install_body link_object get_at read_object
    with_type read_content_type metadata_path write_file default_content_type
committed = refl

abbrev schema_key : Key
schema_key = record { value = schema_path }

disk-HasRecords : HasRecords machine schema_files
unfolding metadata_path write_file
disk-HasRecords =
    with_body-HasRecords machine machine-IsPlatform schema_key refl (codes "true")
      (write_file (metadata_path machine schema_key) json_type (λ p. none))
      (with_record-HasRecords machine machine-IsPlatform schema_key refl json_type (λ p. none)
        (λ k u there. absurd (cc there)))
      refl

blobs-IsUsable : (h : Bytes) (k : Key) → blob_key h ≡ some k → IsUsable k
blobs-IsUsable h k e =
    let (t, name) = artifact_blob_value h k e in ap (cut_prefix metadata_dir) name

slot-IsUsable : IsUsable destination.manifest_key
unfolding output_path
slot-IsUsable = refl

publish_json_manifest_last_example :
    (view_files machine
        (publish_json documents (local_datastore machine) destination producer seven disk).0.files
        destination.manifest_key
      ≡ view_files machine schema_files destination.manifest_key)
    ⊎ ((k : Key) × (blob_key (documents.digest seven) ≡ some k)
        × Holds
            (view_files machine
              (publish_json documents
                (local_datastore machine)
                destination
                producer
                seven
                disk).0.files
              k)
            seven
            json_type)
publish_json_manifest_last_example =
    publish_json_manifest_last documents (local_datastore machine)
      (local-IsStore machine machine-IsPlatform) destination producer blobs-IsUsable slot-IsUsable
      seven disk disk-HasRecords

abbrev end_files : Files
end_files =
    (publish_json documents (local_datastore machine) destination producer seven disk).0.files

publish_json_committed_example :
    (k : Key) × (text : Bytes) × (blob_key (documents.digest seven) ≡ some k)
    × (canonical_manifest documents
          (local_datastore machine)
          (new_manifest documents (local_datastore machine) destination producer k seven)
        ≡ good text)
    × Holds (view_files machine end_files k) seven json_type
    × Holds (view_files machine end_files destination.manifest_key) text manifest_type
    × (answer ≡ published documents (local_datastore machine) destination producer k seven text)
publish_json_committed_example =
    publish_json_committed documents (local_datastore machine)
      (local-IsStore machine machine-IsPlatform) destination producer blobs-IsUsable slot-IsUsable
      seven disk answer disk-HasRecords committed

same_producer_iff_example : (same_producer producer producer ≡ true) ↔ (producer ≡ producer)
same_producer_iff_example = same_producer_iff producer producer

-- a reader that decodes the manifest of the value
abbrev reader : Documents
reader = record documents {
  read_manifest = λ text.
      some (new_manifest documents (local_datastore machine) destination producer seven_key seven);
}

abbrev end_disk : Disk
end_disk = (publish_json reader (local_datastore machine) destination producer seven disk).0

resolved :
    (resolve_json reader (local_datastore machine) destination producer end_disk).1
    ≡ good (answer, seven)
unfolding publish_json publish_checked publish_valid publish_at publish_text commit put_immutable
    after_put validate_canonical_json check_schema canonical_manifest new_manifest published
    body_ref manifest_ref is_canonical validate_destination validate_producer_identity
    validate_execution_scope is_safe_project_key is_hash_ref is_safe_path_segment is_lower_hex
    output_manifest_key output_path blob_key blob_key_sha256_hex is_digest_hex parse_key
    check_segments find_bad_segment split_slash push_first path_clean clean_segments join_slash
    is_windows_abs local_datastore put_files get_files path_for_key put_at install after_record
    write_metadata_if_absent link_metadata check_type install_body link_object get_at read_object
    with_type read_content_type metadata_path write_file default_content_type resolve_json
    read_manifest_object resolve_manifest check_manifest_object manifest_body_key check_body_object
    read_body validate_body same_producer same_scope
resolved = refl

resolve_json-Committed_example :
    Committed reader (local_datastore machine) destination producer end_disk answer seven
resolve_json-Committed_example =
    resolve_json-Committed reader (local_datastore machine) destination producer end_disk answer
      seven resolved

-- a count of strokes, with a sign
abbrev strokes : ℤ → Bytes
strokes (pos n) = replicate n b'1'
strokes (negsuc n) = b'-' ∷ replicate n b'1'

strokes_plain : (n : ℕ) → has_byte b'/' (replicate n b'1') ≡ false
strokes_plain zero = refl
strokes_plain (suc n) = strokes_plain n

no_sign : (m : ℕ) (rest : Bytes) → (replicate {A = ℕ} m b'1') ≢ (b'-' ∷ rest)
no_sign zero rest = λ h. cc h
no_sign (suc m) rest = λ h. let digit : ◌≡◌ {A = ℕ} b'1' b'-' = cc h in omega arith

same_strokes : (m n : ℕ) → ◌≡◌ {A = Bytes} (replicate m b'1') (replicate n b'1') → m ≡ n
same_strokes m n h = omega (
  arith,
  ap (length {0}) h,
  length-replicate {0} {A = ℕ} m b'1',
  length-replicate {0} {A = ℕ} n b'1',
)

strokes_distinct : (m n : ℤ) → strokes m ≡ strokes n → m ≡ n
strokes_distinct (pos m) (pos n) h = ap pos (same_strokes m n h)
strokes_distinct (pos m) (negsuc n) h = absurd (no_sign m (replicate n b'1') h)
strokes_distinct (negsuc m) (pos n) h = absurd (no_sign n (replicate m b'1') (sym h))
strokes_distinct (negsuc m) (negsuc n) h = ap negsuc (same_strokes m n (cc h))

signed_plain : (n : ℤ) → has_byte b'/' (strokes n) ≡ false
signed_plain (pos n) = strokes_plain n
signed_plain (negsuc n) = strokes_plain n

strokes-IsItoa : IsItoa strokes
strokes-IsItoa = record { plain = signed_plain; distinct = strokes_distinct }

-- the second attempt on item 3 of a map
abbrev mapped : Producer
mapped = record producer {
  attempt = pos 2;
  scope = some (record { kind = codes "map-item"; map_id = codes "each"; index = pos 3 } ∷ []);
}

abbrev mapped_destination : Destination
mapped_destination = record {
  manifest_key = record { value = output_path strokes mapped };
  schema = schema_ref;
}

mapped_valid : validate_destination strokes mapped_destination mapped ≡ none
unfolding validate_destination validate_producer_identity validate_execution_scope
    is_safe_project_key is_hash_ref is_safe_path_segment is_lower_hex output_manifest_key
    output_path frames_path check_frame parse_key check_segments find_bad_segment split_slash
    push_first path_clean clean_segments join_slash is_windows_abs first_error
mapped_valid = refl

manifest_key-determines_example :
    (mapped.project_key ≡ mapped.project_key)
    × (mapped.run_id ≡ mapped.run_id)
    × (mapped.node_id ≡ mapped.node_id)
    × (mapped.scope ≡ mapped.scope)
    × (mapped.attempt ≡ mapped.attempt)
manifest_key-determines_example =
    manifest_key-determines strokes strokes-IsItoa mapped_destination mapped_destination mapped
      mapped mapped_valid mapped_valid refl
