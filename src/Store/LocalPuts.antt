-- ===== src/Store/LocalPuts.antt =====
-- internal/datastore/local.go, Put with IfAbsent: what it may have done when it returns.
use mathlib.Core.Path.{subst}
use massive.Base.{
  Bytes, bytes_equal, bytes_equal_iff, [], ◌∷◌, Bool, Bool-cases, true, false, String, Option, none,
  some, ◌≡◌, inl, inr, refl, ap, ◌∙◌,
}
use massive.Base.Results.{Result, good, bad}
use massive.Store.Keys.{Key}
use massive.Store.Contract.{StoreError, ObjectInfo, default_content_type}
use massive.Store.Local.{
  Files, write_file, Platform, Call, Answer, guarded, attempt_calls, metadata_path, exists_file,
  path_for_key, content_type_of, read_content_type, prepare_record, link_metadata,
  write_metadata_if_absent, same_type, check_type, link_object, install_body, after_record, install,
  put_at, put_files, read_record,
}
use massive.Store.LocalReads.{IsPlatform, path_for_key-same, to_error_good}

-- no file, and a file
pub no_file : (o : Option Bytes) → exists_file o ≡ false → o ≡ none
no_file none h = refl
no_file (some b) h = cc

module _ (c : Platform) (fails : Call → Option String) (key : Key) (body type : Bytes)
    (files : Files) where
  -- the files with the metadata record of the key
  abbrev pub recorded : Files
  recorded = write_file (metadata_path c key) (c.encode_metadata type) files

  -- the files before the body is linked: a metadata record of the type is there, or was written
  pub data HasRecord (fs : Files) : Type 0 where
    found :
        fs ≡ files
        → exists_file (files (metadata_path c key)) ≡ true
        → content_type_of c (files (metadata_path c key)) ≡ good type
        → HasRecord fs
    written : fs ≡ recorded → files (metadata_path c key) ≡ none → HasRecord fs

  -- A Put if absent left everything, wrote the metadata record only, or installed the body.
  pub data PutEffect (target : Bytes) (out : Answer ObjectInfo) : Type 0 where
    untouched : (e : StoreError) → out ≡ (files, bad e) → PutEffect target out
    only_record :
        (e : StoreError)
        → files (metadata_path c key) ≡ none
        → out ≡ (recorded, bad e)
        → PutEffect target out
    installed :
        (fs : Files)
        → HasRecord fs
        → fs target ≡ none
        → out.0 ≡ write_file target body fs
        → PutEffect target out

  guarded_effect :
      (target : Bytes) (failure : Option String) (next : Answer ObjectInfo)
      → PutEffect target next
      → PutEffect target (guarded failure files next)
  guarded_effect target none next h = h
  guarded_effect target (some e) next h = untouched (StoreError.failed e) refl

  guarded-files :
      {A : Type 0} (failure : Option String) (fs : Files) (r : Result StoreError A)
      → (guarded failure fs (fs, r)).0 ≡ fs
  guarded-files none fs r = refl
  guarded-files (some e) fs r = refl

  link_effect :
      (target : Bytes) (fs : Files) (failure : Option String) (there : Bool)
      → HasRecord fs
      → ((e : StoreError) → PutEffect target (fs, bad e))
      → exists_file (fs target) ≡ there
      → PutEffect target (guarded failure fs (link_object c fails key body type target fs there))
  unfolding link_object
  link_effect target fs (some e) there h stop test = stop (StoreError.failed e)
  link_effect target fs none true h stop test = stop StoreError.already_exists
  link_effect target fs none false h stop test =
      installed fs h (no_file (fs target) test)
        (guarded-files (fails Call.remove_temporary) (write_file target body fs) _)

  -- the metadata record that was there
  check_effect :
      (target : Bytes) (checked : Result StoreError Bytes)
      → exists_file (files (metadata_path c key)) ≡ true
      → ((t : Bytes) → checked ≡ good t → content_type_of c (files (metadata_path c key)) ≡ good t)
      → PutEffect target
          (install_body c fails key body type target files (same_type c fails type checked))
  unfolding install_body
  check_effect target (bad e) there read = untouched e refl
  check_effect target (good t) there read = elim (Bool-cases (bytes_equal t type)) [
    | inr other ↦ rw other (untouched StoreError.already_exists refl)
    | inl same ↦
        let e : t ≡ type = (bytes_equal_iff t type).0 same in
        rw same (
          link_effect target files (fails Call.link_body) (exists_file (files target))
            (found refl there (read t refl ∙ ap good e)) (λ e. untouched e refl) refl)
  ]

  record_effect :
      (target : Bytes) (failure : Option String) (there : Bool)
      → exists_file (files (metadata_path c key)) ≡ there
      → PutEffect target (
          after_record c fails key body type target
            (guarded failure files (link_metadata c fails key type files there)))
  unfolding after_record link_metadata check_type read_content_type
  record_effect target (some e) there test = untouched (StoreError.failed e) refl
  record_effect target none true test =
      check_effect target _ test (λ t h. to_error_good (fails read_record) _ t h)
  record_effect target none false test =
      let absent = no_file (files (metadata_path c key)) test in
      unfold install_body in
      link_effect target recorded (fails Call.link_body) (exists_file (recorded target))
        (written refl absent) (λ e. only_record e absent refl) refl

  prepared_effect :
      (target : Bytes) (failure : Option String)
      → PutEffect target (
          after_record c fails key body type target (
            guarded failure files (
              guarded (fails Call.link_record) files (
                link_metadata c fails key type files (exists_file (files (metadata_path c key)))))))
  unfolding after_record
  prepared_effect target (some e) = untouched (StoreError.failed e) refl
  prepared_effect target none = record_effect target (fails Call.link_record) _ refl

  located_effect :
      (r : Result StoreError Bytes)
      → ((e : StoreError) → r ≡ bad e → PutEffect key.value (files, bad e))
      → ((p : Bytes) → r ≡ good p → p ≡ key.value)
      → PutEffect key.value (put_at c fails key body type true files r)
  unfolding put_at install write_metadata_if_absent
  located_effect (bad e) stop same = stop e refl
  located_effect (good target) stop same =
      let effect =
        guarded_effect target (attempt_calls fails (Call.create_parent ∷ Call.write_temporary ∷ []))
          _ (prepared_effect target (prepare_record c fails)) in
      subst (λ p. PutEffect p (put_at c fails key body type true files (good target)))
        (same target refl) effect

-- The effect of a Put if absent, whatever fails on the way.
pub put_effect :
    (c : Platform) (fails : Call → Option String) (key : Key) (body type : Bytes) (files : Files)
    → IsPlatform c
    → PutEffect c fails key body
        (default_content_type type)
        files
        key.value
        (put_files c fails key body (record { content_type = type; if_absent = true }) files)
unfolding put_files
put_effect c fails key body type files law =
    guarded_effect c fails key body (default_content_type type) files key.value _ _ (
      located_effect c fails key body (default_content_type type) files (path_for_key c key)
        (λ e _. untouched e refl) (λ p h. path_for_key-same c law key p h))
