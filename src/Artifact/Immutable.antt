-- ===== src/Artifact/Immutable.antt =====
-- internal/artifact/runtime.go: putImmutable and the order of the writes of PublishJSON, over any
-- store of immutable objects.
use mathlib.Core.Path.{subst, fun_ext}
use massive.Base.{Bytes, bytes_equal_iff, true, Option, some, ◌≡◌, refl, sym, ap, ◌∙◌, arith}
use massive.Base.Results.{Result, good, bad}
use massive.Store.Keys.{Key}
use massive.Store.Contract.{
  StoreError, invalid_key, not_found, access_denied, already_exists, failed, ObjectInfo, Object,
  PutOptions, Datastore, View, IsStore, Settles, new_object, default_content_type,
}
use massive.Artifact.Publish.{
  ArtifactError, Documents, compare_existing, after_get, after_put, put_immutable,
}

-- an object with a body and a content type
pub record Holds (o : Option Object) (body type : Bytes) : Type 0 where
  pub object : Object
  pub there : o ≡ some object
  pub same_body : object.body ≡ body
  pub same_type : object.info.content_type ≡ default_content_type type

module _ (c : Documents) {S : Type 0} (d : Datastore S) {IsUsable : Key → Type 0}
    {IsSound : S → Type 0} {view : S → View} (store : IsStore d IsUsable IsSound view) where
  compare_same :
      (body type : Bytes) (conflict : ArtifactError) (o : Object)
      → compare_existing c d body type conflict o ≡ good tt
      → (o.body ≡ body) × (o.info.content_type ≡ type)
  unfolding compare_existing
  compare_same body type conflict o h =
      ((bytes_equal_iff _ _).0 (ground arith), (bytes_equal_iff _ _).0 (ground arith))

  after_get_state :
      (body type : Bytes) (conflict : ArtifactError) (m : S × Result StoreError Object)
      → (after_get c d body type conflict m).0 ≡ m.0
  after_get_state body type conflict (s, good o) = refl
  after_get_state body type conflict (s, bad e) = refl

  after_put_view :
      (k : Key) (body type : Bytes) (conflict : ArtifactError)
      (m : S × Result StoreError ObjectInfo) (j : Key)
      → view (after_put c d k body type conflict m).0 j ≡ view m.0 j
  unfolding after_put
  after_put_view k body type conflict (s, good info) j = refl
  after_put_view k body type conflict (s, bad invalid_key) j = refl
  after_put_view k body type conflict (s, bad not_found) j = refl
  after_put_view k body type conflict (s, bad access_denied) j = refl
  after_put_view k body type conflict (s, bad (failed e)) j = refl
  after_put_view k body type conflict (s, bad already_exists) j =
      ap (λ t. view t j) (after_get_state body type conflict (d.get k s)) ∙ store.get_keeps k j s

  after_put-IsSound :
      (k : Key) (body type : Bytes) (conflict : ArtifactError)
      (m : S × Result StoreError ObjectInfo)
      → IsSound m.0
      → IsSound (after_put c d k body type conflict m).0
  unfolding after_put
  after_put-IsSound k body type conflict (s, good info) h = h
  after_put-IsSound k body type conflict (s, bad invalid_key) h = h
  after_put-IsSound k body type conflict (s, bad not_found) h = h
  after_put-IsSound k body type conflict (s, bad access_denied) h = h
  after_put-IsSound k body type conflict (s, bad (failed e)) h = h
  after_put-IsSound k body type conflict (s, bad already_exists) h =
      subst IsSound (sym (after_get_state body type conflict (d.get k s))) (store.get_sound k s h)

  module _ (k : Key) (body type : Bytes) (conflict : ArtifactError) (s : S) (usable : IsUsable k)
      (sound : IsSound s) where
    abbrev options : PutOptions
    options = record { content_type = type; if_absent = true }

    pub put_immutable-IsSound : IsSound (put_immutable c d k body type conflict s).0
    unfolding put_immutable
    put_immutable-IsSound =
        after_put-IsSound k body type conflict (d.put k body options s)
          (store.put_sound k body type s usable sound)

    -- Whatever it answers, it changes no object that is there.
    pub put_immutable-Settles :
        (j : Key)
        → IsUsable j
        → Settles k
            (new_object k body type)
            (view s)
            (view (put_immutable c d k body type conflict s).0)
            j
    unfolding put_immutable
    put_immutable-Settles j w =
        let same = after_put_view k body type conflict (d.put k body options s) in
        subst (λ v. Settles k (new_object k body type) (view s) v j) (sym (fun_ext same))
          (store.put_settles k body type s j usable w sound)

    new-Holds : (o : Option Object) → o ≡ some (new_object k body type) → Holds o body type
    unfolding new_object
    new-Holds o e = record {
      object = new_object k body type;
      there = e;
      same_body = refl;
      same_type = refl;
    }

    after_get-Holds :
        (m : S × Result StoreError Object)
        → ((o : Object) → m.1 ≡ good o → view m.0 k ≡ some o)
        → default_content_type type ≡ type
        → (after_get c d body type conflict m).1 ≡ good tt
        → Holds (view m.0 k) body type
    after_get-Holds (t, bad e) seen plain h = cc
    after_get-Holds (t, good o) seen plain h =
        let (same, typed) = compare_same body type conflict o h in
        record { object = o; there = seen o refl; same_body = same; same_type = typed ∙ sym plain }

    after_put-Holds :
        (m : S × Result StoreError ObjectInfo)
        → IsSound m.0
        → ((info : ObjectInfo) → m.1 ≡ good info → view m.0 k ≡ some (new_object k body type))
        → default_content_type type ≡ type
        → (after_put c d k body type conflict m).1 ≡ good tt
        → Holds (view (after_put c d k body type conflict m).0 k) body type
    unfolding after_put
    after_put-Holds (t, good info) fine put plain h = new-Holds (view t k) (put info refl)
    after_put-Holds (t, bad invalid_key) fine put plain h = cc
    after_put-Holds (t, bad not_found) fine put plain h = cc
    after_put-Holds (t, bad access_denied) fine put plain h = cc
    after_put-Holds (t, bad (failed e)) fine put plain h = cc
    after_put-Holds (t, bad already_exists) fine put plain h =
        subst (λ u. Holds (view u k) body type)
          (sym (after_get_state body type conflict (d.get k t)))
          (after_get-Holds (d.get k t)
            (λ o e. store.get_keeps k k t ∙ store.get_stored k t o usable fine e) plain h)

    -- Where it succeeds, the object is there with the body and the type.
    pub put_immutable-Holds :
        default_content_type type ≡ type
        → (put_immutable c d k body type conflict s).1 ≡ good tt
        → Holds (view (put_immutable c d k body type conflict s).0 k) body type
    unfolding put_immutable
    put_immutable-Holds plain h =
        after_put-Holds (d.put k body options s) (store.put_sound k body type s usable sound)
          (λ info e. (store.put_stored k body type s info usable sound e).1) plain h
