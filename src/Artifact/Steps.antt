-- ===== src/Artifact/Steps.antt =====
-- internal/artifact/runtime.go: the answers of the steps of ResolveJSON on what PublishJSON wrote.
use mathlib.Core.Path.{subst}
use massive.Base.{
  Bytes, bytes_equal_refl, true, Option-cases, some, ◌≡◌, inl, inr, refl, ap, ◌∙◌, arith,
}
use massive.Base.Results.{Result, good, bad}
use massive.MapExec.Collect.{is_canonical}
use massive.Store.Keys.{Key}
use massive.Store.Contract.{StoreError, Object, Datastore, View}
use massive.Artifact.Identity.{Producer, Destination, same_producer, blob_key}
use massive.Artifact.SameProducer.{same_producer_iff}
use massive.Artifact.Publish.{
  DataArtifactManifest, Documents, json_type, manifest_type, check_schema, after_schema,
  canonical_manifest, new_manifest, body_ref,
}
use massive.Artifact.Resolve.{
  check_manifest_object, manifest_body_key, check_body_object, after_body, resolve_manifest,
  after_manifest,
}

-- what the program relies on: a manifest is encoded as canonical JSON and decodes to itself
pub record IsDocuments (c : Documents) : Type 0 where
  pub read_back :
      (m : DataArtifactManifest) (text : Bytes)
      → c.manifest_text m ≡ some text
      → c.read_manifest text ≡ some m
  pub canonical :
      (m : DataArtifactManifest) (text : Bytes)
      → c.manifest_text m ≡ some text
      → is_canonical c.canonical text ≡ true

module _ (c : Documents) {S : Type 0} (d : Datastore S) where
  -- a schema that a value was checked against
  pub record Checked (view : S → View) (s : S) (schema body : Bytes) : Type 0 where
    pub fine : is_canonical c.canonical body ≡ true
    pub target : Key
    pub named : blob_key schema ≡ some target
    pub object : Object
    pub there : view s target ≡ some object
    pub satisfied : check_schema c d schema body object ≡ good tt

  pub encoded_manifest :
      (m : DataArtifactManifest) (text : Bytes)
      → canonical_manifest c d m ≡ good text
      → (c.manifest_text m ≡ some text) × (c.is_manifest text ≡ true)
  unfolding canonical_manifest
  encoded_manifest m text h = elim (Option-cases (c.manifest_text m)) [
    | inl e ↦ absurd (ground arith)
    | inr (t, e) ↦
        let same : t ≡ text = ground arith in
        (e ∙ ap some same, subst (λ x. c.is_manifest x ≡ true) same (ground arith))
  ]

  pub after_schema_good :
      (schema body : Bytes) (m : S × Result StoreError Object)
      → (after_schema c d schema body m).1 ≡ good tt
      → (o : Object) × (m.1 ≡ good o) × (check_schema c d schema body o ≡ good tt)
  after_schema_good schema body (s, bad e) h = cc
  after_schema_good schema body (s, good o) h = (o, refl, h)

  pub after_schema_of :
      (schema body : Bytes) (m : S × Result StoreError Object) (o : Object)
      → m.1 ≡ good o
      → (after_schema c d schema body m).1 ≡ check_schema c d schema body o
  after_schema_of schema body (s, bad e) o h = absurd (ground arith)
  after_schema_of schema body (s, good x) o h =
      let same : x ≡ o = ground arith in ap (check_schema c d schema body) same

  module _ (destination : Destination) (producer : Producer) where
    pub after_manifest_of :
        (m : S × Result StoreError Object) (o : Object)
        → m.1 ≡ good o
        → (after_manifest c d destination producer m).1
          ≡ (resolve_manifest c d destination producer o m.0).1
    after_manifest_of (s, bad e) o h = absurd (ground arith)
    after_manifest_of (s, good x) o h =
        let same : x ≡ o = ground arith in
        ap (λ y. (resolve_manifest c d destination producer y s).1) same

    pub after_body_of :
        (m : DataArtifactManifest) (r : S × Result StoreError Object) (o : Object)
        → r.1 ≡ good o
        → (after_body c d destination producer m r).1
          ≡ check_body_object c d destination producer m o
    after_body_of m (s, bad e) o h = absurd (ground arith)
    after_body_of m (s, good x) o h =
        let same : x ≡ o = ground arith in ap (check_body_object c d destination producer m) same

    pub after_body_state :
        (m : DataArtifactManifest) (r : S × Result StoreError Object)
        → (after_body c d destination producer m r).0 ≡ r.0
    after_body_state m (s, bad e) = refl
    after_body_state m (s, good x) = refl

    module _ (k : Key) (body : Bytes) where
      abbrev pub m : DataArtifactManifest
      m = new_manifest c d destination producer k body

      pub own_manifest :
          IsDocuments c
          → (o : Object) (text : Bytes) → canonical_manifest c d m ≡ good text
          → o.body ≡ text
          → o.info.content_type ≡ manifest_type
          → check_manifest_object c d destination producer o ≡ good m
      unfolding check_manifest_object new_manifest
      own_manifest law o text encoded same typed =
          let (written, valid) = encoded_manifest m text encoded in
          let fine : is_canonical c.canonical o.body ≡ true =
            ap (is_canonical c.canonical) same ∙ law.canonical m text written in
          let decoded : c.read_manifest o.body ≡ some m =
            ap c.read_manifest same ∙ law.read_back m text written in
          let valid_there : c.is_manifest o.body ≡ true = ap c.is_manifest same ∙ valid in
          let one : same_producer producer producer ≡ true =
            (same_producer_iff producer producer).1 refl in
          rw (typed, fine, valid_there, decoded, one, bytes_equal_refl destination.schema) refl

      pub own_key :
          blob_key (c.digest body) ≡ some k → manifest_body_key c d destination producer m ≡ good k
      unfolding manifest_body_key new_manifest body_ref
      own_key named = rw (named, bytes_equal_refl k.value) refl

      pub own_body :
          (o : Object)
          → o.body ≡ body
          → o.info.content_type ≡ json_type
          → check_body_object c d destination producer m o ≡ good body
      unfolding check_body_object new_manifest body_ref
      own_body o same typed = rw (typed, same, bytes_equal_refl (c.digest body)) (ground arith)
