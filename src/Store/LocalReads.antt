-- ===== src/Store/LocalReads.antt =====
-- internal/datastore/local.go: what the files of the local store stand for, and what a write of a
-- file leaves as it was.
use mathlib.Core.List.{append_cancel_left, append_cancel_right}
use massive.Base.{
  String, Bytes, codes, bytes_equal, bytes_equal_iff, bytes_equal_refl, bytes_equal_never, ◌≢◌, [],
  ◌++◌, Bool-cases, true, false, Option, Option-cases, none, some, ◌≡◌, ◌⊎◌, inl, inr, refl, sym,
  ap, ◌∙◌, length, cut_prefix, arith,
}
use massive.Base.Results.{Result, good}
use massive.Store.Keys.{Key}
use massive.Store.Contract.{StoreError, Object, View, default_content_type}
use massive.Store.Local.{
  Files, write_file, Platform, metadata_dir, metadata_path, exists_file, path_for_key, to_error,
}

pub write_file-same : (p b : Bytes) (f : Files) → write_file p b f p ≡ some b
unfolding write_file
write_file-same p b f = rw (bytes_equal_refl p) refl

pub write_file-other :
    (p b : Bytes) (f : Files) (q : Bytes) → bytes_equal p q ≡ false → write_file p b f q ≡ f q
unfolding write_file
write_file-other p b f q h = rw h refl

-- what answered, answered without a failed call
pub to_error_good :
    {A : Type 0} (failure : Option String) (r : Result StoreError A) (a : A)
    → to_error failure r ≡ good a
    → r ≡ good a
to_error_good none r a h = h
to_error_good (some e) r a h = cc

-- keys outside the directory of the metadata records
abbrev pub IsUsable : Key → Type 0
IsUsable k = cut_prefix metadata_dir k.value ≡ none

pub key_cases : (j k : Key) → (j ≡ k) ⊎ (bytes_equal j.value k.value ≡ false)
key_cases j k = elim (Bool-cases (bytes_equal j.value k.value)) [
  | inl same ↦ inl (ap (λ v. record { value = v }) ((bytes_equal_iff j.value k.value).0 same))
  | inr other ↦ inr other
]

-- what the program relies on: filepath.Localize of a Unix system changes no path, the digests of
-- different keys differ, and a metadata record decodes to what was encoded
pub record IsPlatform (c : Platform) : Type 0 where
  pub localize_same : (p q : Bytes) → c.localize p ≡ some q → q ≡ p
  pub digest_distinct : (a b : Bytes) → c.digest_hex a ≡ c.digest_hex b → a ≡ b
  pub decode-encode : (t : Bytes) → c.decode_metadata (c.encode_metadata t) ≡ some t

module _ (c : Platform) where
  abbrev pub decoded_type : Option Bytes → Bytes
  decoded_type none = default_content_type []
  decoded_type (some type) = default_content_type type

  abbrev pub recorded_type : Option Bytes → Bytes
  recorded_type none = default_content_type []
  recorded_type (some m) = decoded_type (c.decode_metadata m)

  abbrev pub visible : Key → Option Bytes → Option Bytes → Option Object
  visible k none m = none
  visible k (some body) m = some (record {
    info = record { key = k; size = length body; content_type = recorded_type m };
    body = body;
  })

  -- the objects that the files stand for
  unfoldable pub view_files : Files → View
  view_files f k = visible k (f k.value) (f (metadata_path c k))

  -- Every object has a metadata record.
  abbrev pub HasRecords : Files → Type 0
  HasRecords f =
      (k : Key)
      → IsUsable k
      → exists_file (f k.value) ≡ true
      → exists_file (f (metadata_path c k)) ≡ true

  pub view_same :
      (f g : Files) (k : Key)
      → f k.value ≡ g k.value
      → f (metadata_path c k) ≡ g (metadata_path c k)
      → view_files f k ≡ view_files g k
  unfolding view_files
  view_same f g k e m = rw (e, m) refl

  pub view_absent : (f : Files) (k : Key) → f k.value ≡ none → view_files f k ≡ none
  unfolding view_files
  view_absent f k e = rw e refl

  metadata_path-ne : (j k : Key) → IsUsable k → metadata_path c j ≢ k.value
  unfolding metadata_path
  metadata_path-ne j k u e =
      let found : some (c.digest_hex j.value ++ codes ".json") ≡ none =
        ap (cut_prefix metadata_dir) e ∙ u in
      cc found

  pub metadata_path-usable :
      (j k : Key) → IsUsable k → bytes_equal (metadata_path c j) k.value ≡ false
  metadata_path-usable j k u = bytes_equal_never _ _ (metadata_path-ne j k u)

  pub usable-metadata_path :
      (j k : Key) → IsUsable k → bytes_equal k.value (metadata_path c j) ≡ false
  usable-metadata_path j k u = bytes_equal_never _ _ (λ e. metadata_path-ne j k u (sym e))

  pub metadata_path-other :
      IsPlatform c
      → (j k : Key) → bytes_equal j.value k.value ≡ false
      → bytes_equal (metadata_path c j) (metadata_path c k) ≡ false
  unfolding metadata_path
  metadata_path-other law j k h = bytes_equal_never _ _ λ e.
      let names = append_cancel_right _ _ (codes ".json") (append_cancel_left metadata_dir _ _ e) in
      let same : j.value ≡ k.value = law.digest_distinct _ _ names in
      let equal : bytes_equal j.value k.value ≡ true = (bytes_equal_iff _ _).1 same in cc (h, equal)

  pub path_for_key-same :
      IsPlatform c → (k : Key) (p : Bytes) → path_for_key c k ≡ good p → p ≡ k.value
  unfolding path_for_key
  path_for_key-same law k p h = elim (Option-cases (c.localize k.value)) [
    | inl e ↦ absurd (ground arith)
    | inr (q, e) ↦ let same = law.localize_same k.value q e in ground arith
  ]
