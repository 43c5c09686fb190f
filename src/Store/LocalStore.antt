-- ===== src/Store/LocalStore.antt =====
-- internal/datastore/local.go as an implementation of the datastore interface.
use mathlib.Core.Path.{subst}
use massive.Base.{Bytes, true, String, Option, none, some, ◌≡◌, refl, sym, ◌∙◌}
use massive.Base.Results.{Result, good, bad}
use massive.Store.Keys.{Key}
use massive.Store.Contract.{StoreError, ObjectInfo, Object, Settles, IsStore, new_object}
use massive.Store.Local.{
  Files, Disk, Platform, Call, Answer, metadata_path, path_for_key, read_content_type, put_files,
  get_files, get_at, read_object, with_type, put_on_disk, local_datastore,
}
use massive.Store.LocalReads.{
  IsPlatform, IsUsable, HasRecords, view_files, visible, recorded_type, to_error_good,
  path_for_key-same,
}
use massive.Store.LocalViews.{typed, effect_HasRecords, effect_settles, effect_stored}
use massive.Store.LocalPuts.{put_effect}

module _ (c : Platform) (law : IsPlatform c) where
  put_on_disk-files :
      (disk : Disk) (out : Answer ObjectInfo) → (put_on_disk c disk out).0.files ≡ out.0
  put_on_disk-files disk (files, r) = refl

  put_on_disk-answer : (disk : Disk) (out : Answer ObjectInfo) → (put_on_disk c disk out).1 ≡ out.1
  put_on_disk-answer disk (files, r) = refl

  read_type :
      (fails : Call → Option String) (key : Key) (f : Files) (t : Bytes)
      → read_content_type c fails key f ≡ good t
      → recorded_type c (f (metadata_path c key)) ≡ t
  unfolding read_content_type
  read_type fails key f t h = typed c law _ t (to_error_good (fails Call.read_record) _ t h)

  with_type-visible :
      (fails : Call → Option String) (key : Key) (body : Bytes) (m : Option Bytes) (o : Object)
      (r : Result StoreError Bytes)
      → ((t : Bytes) → r ≡ good t → recorded_type c m ≡ t)
      → with_type c fails key body r ≡ good o
      → visible c key (some body) m ≡ some o
  unfolding with_type
  with_type-visible fails key body m o (bad x) read h = cc
  with_type-visible fails key body m o (good t) read h = rw (read t refl) cc

  read_object-visible :
      (fails : Call → Option String) (key : Key) (f : Files) (o : Object) (b : Option Bytes)
      → read_object c fails key f b ≡ good o
      → visible c key b (f (metadata_path c key)) ≡ some o
  unfolding read_object
  read_object-visible fails key f o none h = cc
  read_object-visible fails key f o (some body) h =
      with_type-visible fails key body (f (metadata_path c key)) o _
        (λ t e. read_type fails key f t e) h

  get_at-view :
      (fails : Call → Option String) (key : Key) (f : Files) (o : Object)
      (r : Result StoreError Bytes)
      → ((p : Bytes) → r ≡ good p → p ≡ key.value)
      → get_at c fails key f r ≡ good o
      → view_files c f key ≡ some o
  unfolding get_at view_files
  get_at-view fails key f o (bad e) same h = cc
  get_at-view fails key f o (good target) same h =
      let answered = to_error_good (fails Call.read_body) _ o h in
      let found_there =
        subst (λ p. read_object c fails key f (f p) ≡ good o) (same target refl) answered in
      read_object-visible fails key f o (f key.value) found_there

  get_files-view :
      (fails : Call → Option String) (key : Key) (f : Files) (o : Object)
      → get_files c fails key f ≡ good o
      → view_files c f key ≡ some o
  unfolding get_files
  get_files-view fails key f o h =
      get_at-view fails key f o (path_for_key c key) (λ p e. path_for_key-same c law key p e)
        (to_error_good _ _ o h)

  abbrev put_answer : Key → Bytes → Bytes → Disk → Answer ObjectInfo
  put_answer k body type disk =
      put_files c (c.outage disk.clock) k body (record { content_type = type; if_absent = true })
        disk.files

  -- The store in a directory implements the interface of immutable objects on keys outside its
  -- metadata directory, where paths are local, digests of keys differ and metadata records
  -- decode: whichever system calls fail, a Put if absent keeps a metadata record for every
  -- object and changes no object that is there, one that succeeds created its object, and a Get
  -- that succeeds returns the object.
  pub local-IsStore :
      IsStore
        (local_datastore c)
        IsUsable
        (λ disk. HasRecords c disk.files)
        (λ disk. view_files c disk.files)
  unfolding local_datastore
  local-IsStore = record {
    put_sound = λ k body type disk u h.
        subst (HasRecords c) (sym (put_on_disk-files disk (put_answer k body type disk))) (
          effect_HasRecords c law (c.outage disk.clock) k u body type disk.files h
            (put_answer k body type disk)
            (put_effect c (c.outage disk.clock) k body type disk.files law));
    put_settles = λ k body type disk j u w h.
        subst (λ g. Settles k (new_object k body type) (view_files c disk.files) (view_files c g) j)
          (sym (put_on_disk-files disk (put_answer k body type disk)))
          (effect_settles c law (c.outage disk.clock) k u body type disk.files h
            (put_answer k body type disk) j w
            (put_effect c (c.outage disk.clock) k body type disk.files law));
    put_stored = λ k body type disk info u h fine.
        subst
          (λ g.
            (view_files c disk.files k ≡ none) × (view_files c g k ≡ some (new_object k body type)))
          (sym (put_on_disk-files disk (put_answer k body type disk)))
          (effect_stored c law (c.outage disk.clock) k u body type disk.files h
            (put_answer k body type disk) info
            (put_effect c (c.outage disk.clock) k body type disk.files law)
            (sym (put_on_disk-answer disk (put_answer k body type disk)) ∙ fine));
    get_sound = λ k disk h. h;
    get_keeps = λ k j disk. refl;
    get_stored = λ k disk o u h fine. get_files-view (c.outage disk.clock) k disk.files o fine;
  }
