-- ===== src/Artifact/Slots.antt =====
-- internal/artifact/runtime.go, ValidateDestination: a manifest key is the slot of its producer, and
-- no slot is the key of a blob.
use massive.Base.{
  ℕ, Bytes, codes, bytes_equal_iff, cut_prefix, [], ◌∷◌, ◌++◌, Option, none, some, ◌≡◌, ◌≢◌, refl,
  sym, ap, ◌∙◌, arith, ⨾_passes, ℤ,
}
use massive.Store.Keys.{Key, Parsed, key, invalid, blob_key_sha256_hex}
use massive.Store.KeyLaws.{parse_key_value, blob_key_value}
use massive.Artifact.Identity.{
  Producer, Destination, blob_key, hash_key, parsed_key, output_path, output_manifest_key,
  check_slot, validate_destination,
}

first_byte : Bytes → ℕ
first_byte [] = 0
first_byte (b ∷ rest) = b

parsed_key-some : (o : Parsed) (k : Key) → parsed_key o ≡ some k → o ≡ key k
parsed_key-some (key j) k h = ground arith
parsed_key-some (invalid e) k h = cc

hash_key_value :
    (o : Option Bytes) (k : Key)
    → hash_key o ≡ some k
    → (t : Bytes) × (k.value ≡ codes "blobs/sha256/" ++ t)
hash_key_value none k h = cc
hash_key_value (some t) k h = (t, blob_key_value t k (parsed_key-some (blob_key_sha256_hex t) k h))

pub artifact_blob_value :
    (h : Bytes) (k : Key)
    → blob_key h ≡ some k
    → (t : Bytes) × (k.value ≡ codes "blobs/sha256/" ++ t)
unfolding blob_key
artifact_blob_value h k e = hash_key_value (cut_prefix (codes "sha256:") h) k e

module _ (itoa : ℤ → Bytes) where
  check_slot_value :
      (k : Key) (o : Parsed)
      → check_slot itoa k o ≡ none
      → (want : Key) × (o ≡ key want) × (k.value ≡ want.value)
  check_slot_value k (invalid e) h = cc
  check_slot_value k (key want) h =
      (want, refl, (bytes_equal_iff k.value want.value).0 (ground arith))

  -- A destination that is valid is the slot of the producer.
  pub validate_destination_slot :
      (destination : Destination) (p : Producer)
      → validate_destination itoa destination p ≡ none
      → destination.manifest_key.value ≡ output_path itoa p
  unfolding validate_destination output_manifest_key
  validate_destination_slot destination p h =
      let later = ((⨾_passes _ _).0 h).1 in
      let slot = ((⨾_passes _ _).0 later).1 in
      let (want, parsed, same) = check_slot_value destination.manifest_key _ slot in
      same ∙ parse_key_value (output_path itoa p) want parsed

  pub slot_ne_blob :
      (destination : Destination) (p : Producer) (h : Bytes) (k : Key)
      → validate_destination itoa destination p ≡ none
      → blob_key h ≡ some k
      → destination.manifest_key ≢ k
  unfolding output_path first_byte
  slot_ne_blob destination p h k valid blob = λ e.
      let (t, name) = artifact_blob_value h k blob in
      let slot = validate_destination_slot destination p valid in
      let clash : output_path itoa p ≡ codes "blobs/sha256/" ++ t =
        sym slot ∙ ap (λ (x : Key). x.value) e ∙ name in
      let letter : ◌≡◌ {A = ℕ} 112 98 = ap first_byte clash in omega arith
