-- ===== src/Store/LocalViews.antt =====
-- internal/datastore/local.go: the objects that a metadata record or a body adds to the files.
use mathlib.Core.Path.{subst}
use massive.Base.{
  Bytes, [], ◌∷◌, bytes_equal, Bool-cases, true, false, String, Option, Option-cases, none, some,
  ◌≡◌, inl, inr, refl, sym, ap, ◌∙◌, arith,
}
use massive.Base.Results.{good}
use massive.Store.Keys.{Key}
use massive.Store.Contract.{ObjectInfo, Settles, kept, created, new_object, default_content_type}
use massive.Store.Local.{
  Files, write_file, Platform, Call, Answer, metadata_path, exists_file, content_type_of,
}
use massive.Store.LocalReads.{
  IsPlatform, IsUsable, HasRecords, view_files, recorded_type, decoded_type, view_same, view_absent,
  key_cases, write_file-same, write_file-other, metadata_path-usable, usable-metadata_path,
  metadata_path-other,
}
use massive.Store.LocalPuts.{
  PutEffect, untouched, only_record, installed, HasRecord, found, written, recorded, no_file,
}

module _ (c : Platform) (law : IsPlatform c) where
  -- after a metadata record of `key` was written
  module _ (key : Key) (usable : IsUsable key) (record_bytes : Bytes) (f : Files) where
    abbrev with_record : Files
    with_record = write_file (metadata_path c key) record_bytes f

    with_record-object : (k : Key) → IsUsable k → with_record k.value ≡ f k.value
    with_record-object k u = write_file-other _ _ f k.value (metadata_path-usable c key k u)

    with_record-other :
        (k : Key)
        → bytes_equal key.value k.value ≡ false
        → with_record (metadata_path c k) ≡ f (metadata_path c k)
    with_record-other k other =
        write_file-other _ _ f (metadata_path c k) (metadata_path-other c law key k other)

    pub with_record-HasRecords : HasRecords c f → HasRecords c with_record
    with_record-HasRecords h k u there = elim (key_cases key k) [
      | inl same ↦
          subst (λ j. exists_file (with_record (metadata_path c j)) ≡ true) same
            (ap exists_file (write_file-same (metadata_path c key) record_bytes f))
      | inr other ↦
          ap exists_file (with_record-other k other)
          ∙ h k u (ap exists_file (sym (with_record-object k u)) ∙ there)
    ]

    -- A metadata record without an object is not visible.
    object_absent : HasRecords c f → f (metadata_path c key) ≡ none → f key.value ≡ none
    object_absent h absent = elim (Bool-cases (exists_file (f key.value))) [
      | inl there ↦ absurd (let recorded = h key usable there in ground arith)
      | inr gone ↦ no_file (f key.value) gone
    ]

    with_record-view :
        (k : Key)
        → IsUsable k
        → HasRecords c f
        → f (metadata_path c key) ≡ none
        → view_files c with_record k ≡ view_files c f k
    with_record-view k u h absent = elim (key_cases key k) [
      | inr other ↦ view_same c with_record f k (with_record-object k u) (with_record-other k other)
      | inl same ↦
          let gone = object_absent h absent in
          let unseen : view_files c with_record key ≡ view_files c f key =
            view_absent c with_record key (with_record-object key usable ∙ gone)
            ∙ sym (view_absent c f key gone) in
          subst (λ j. view_files c with_record j ≡ view_files c f j) same unseen
    ]

  -- after the body of `key` was installed
  module _ (key : Key) (usable : IsUsable key) (body : Bytes) (fs : Files) where
    abbrev with_body : Files
    with_body = write_file key.value body fs

    with_body-record : (k : Key) → with_body (metadata_path c k) ≡ fs (metadata_path c k)
    with_body-record k =
        write_file-other _ _ fs (metadata_path c k) (usable-metadata_path c k key usable)

    pub with_body-HasRecords :
        HasRecords c fs → exists_file (fs (metadata_path c key)) ≡ true → HasRecords c with_body
    with_body-HasRecords h recorded k u there = elim (key_cases key k) [
      | inl same ↦
          subst (λ j. exists_file (with_body (metadata_path c j)) ≡ true) same
            (ap exists_file (with_body-record key) ∙ recorded)
      | inr other ↦
          ap exists_file (with_body-record k)
          ∙ h k u (ap exists_file (sym (write_file-other _ _ fs k.value other)) ∙ there)
    ]

    with_body-other :
        (k : Key)
        → bytes_equal key.value k.value ≡ false
        → view_files c with_body k ≡ view_files c fs k
    with_body-other k other =
        view_same c with_body fs k (write_file-other _ _ fs k.value other) (with_body-record k)

    with_body-new :
        (type : Bytes)
        → recorded_type c (fs (metadata_path c key)) ≡ default_content_type type
        → view_files c with_body key ≡ some (new_object key body type)
    unfolding view_files new_object
    with_body-new type e = rw (write_file-same key.value body fs, with_body-record key, e) refl

  pub typed : (m : Option Bytes) (t : Bytes) → content_type_of c m ≡ good t → recorded_type c m ≡ t
  typed none t h = ground arith
  typed (some m) t h = elim (Option-cases (c.decode_metadata m)) [
    | inl e ↦ absurd (ground arith)
    | inr (read, e) ↦ rw e (ground arith)
  ]

  default-default :
      (t : Bytes) → default_content_type (default_content_type t) ≡ default_content_type t
  unfolding default_content_type
  default-default [] = refl
  default-default (x ∷ t) = refl

  -- the files before the body is installed
  record IsReady (key : Key) (type : Bytes) (f fs : Files) : Type 0 where
    records : HasRecords c fs
    recorded_there : exists_file (fs (metadata_path c key)) ≡ true
    has_type : recorded_type c (fs (metadata_path c key)) ≡ default_content_type type
    seen : (j : Key) → IsUsable j → view_files c fs j ≡ view_files c f j

  ready :
      (fails : Call → Option String) (body : Bytes) (key : Key) (type : Bytes) (f fs : Files)
      → IsUsable key
      → HasRecords c f
      → HasRecord c fails key body (default_content_type type) f fs
      → IsReady key type f fs
  ready fails body key type f fs u h (found e there read) =
      subst (IsReady key type f) (sym e) (record {
        records = h;
        recorded_there = there;
        has_type = typed _ _ read;
        seen = λ j w. refl;
      })
  ready fails body key type f fs u h (written e absent) =
      let encoded = c.encode_metadata (default_content_type type) in
      let same = write_file-same (metadata_path c key) encoded f in
      subst (IsReady key type f) (sym e) (record {
        records = with_record-HasRecords key u encoded f h;
        recorded_there = ap exists_file same;
        has_type =
            ap (recorded_type c) same
            ∙ ap (decoded_type c) (law.decode-encode (default_content_type type))
            ∙ default-default type;
        seen = λ j w. with_record-view key u encoded f j w h absent;
      })

  module _ (fails : Call → Option String) (key : Key) (usable : IsUsable key) (body type : Bytes)
      (f : Files) (h : HasRecords c f) where
    pub effect_HasRecords :
        (out : Answer ObjectInfo)
        → PutEffect c fails key body (default_content_type type) f key.value out
        → HasRecords c out.0
    effect_HasRecords out (untouched e same) = subst (HasRecords c) (sym (ap (λ o. o.0) same)) h
    effect_HasRecords out (only_record e absent same) =
        subst (HasRecords c) (sym (ap (λ o. o.0) same)) (with_record-HasRecords key usable _ f h)
    effect_HasRecords out (installed fs record_ fresh same) =
        let r = ready fails body key type f fs usable h record_ in
        subst (HasRecords c) (sym same)
          (with_body-HasRecords key usable body fs r.records r.recorded_there)

    pub effect_settles :
        (out : Answer ObjectInfo) (j : Key)
        → IsUsable j
        → PutEffect c fails key body (default_content_type type) f key.value out
        → Settles key (new_object key body type) (view_files c f) (view_files c out.0) j
    effect_settles out j w (untouched e same) =
        kept (ap (λ (o : Answer ObjectInfo). view_files c o.0 j) same)
    effect_settles out j w (only_record e absent same) = kept (
        ap (λ (o : Answer ObjectInfo). view_files c o.0 j) same
        ∙ with_record-view key usable _ f j w h absent)
    effect_settles out j w (installed fs record_ fresh same) =
        let r = ready fails body key type f fs usable h record_ in
        let answer = ap (λ (g : Files). view_files c g j) same in
        elim (key_cases key j) [
          | inr other ↦ kept (answer ∙ with_body-other key usable body fs j other ∙ r.seen j w)
          | inl here ↦
              created (sym here)
                (subst (λ k. view_files c f k ≡ none) here
                  (sym (r.seen key usable) ∙ view_absent c fs key fresh))
                (answer
                  ∙ subst
                      (λ k.
                        view_files c (write_file key.value body fs) k
                        ≡ some (new_object key body type))
                      here (with_body-new key usable body fs type r.has_type))
        ]

    pub effect_stored :
        (out : Answer ObjectInfo) (info : ObjectInfo)
        → PutEffect c fails key body (default_content_type type) f key.value out
        → out.1 ≡ good info
        → (view_files c f key ≡ none) × (view_files c out.0 key ≡ some (new_object key body type))
    effect_stored out info (untouched e same) fine =
        absurd (let never = sym (ap (λ (o : Answer ObjectInfo). o.1) same) ∙ fine in cc never)
    effect_stored out info (only_record e absent same) fine =
        absurd (let never = sym (ap (λ (o : Answer ObjectInfo). o.1) same) ∙ fine in cc never)
    effect_stored out info (installed fs record_ fresh same) fine =
        let r = ready fails body key type f fs usable h record_ in
        (
          sym (r.seen key usable) ∙ view_absent c fs key fresh,
          ap (λ (g : Files). view_files c g key) same
              ∙ with_body-new key usable body fs type r.has_type,
        )
