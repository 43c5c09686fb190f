-- ===== src/Artifact/Integrity.antt =====
-- internal/artifact/runtime.go, ResolveJSON: what it returns is what the manifest committed.
use mathlib.Core.Path.{subst}
use massive.Base.{
  Bytes, bytes_equal_iff, Bool-cases, true, Option, none, some, length, ◌≡◌, inl, inr, refl, sym,
  ap, ◌∙◌, arith,
}
use massive.Base.Results.{Result, good, bad, resume_good}
use massive.MapExec.Collect.{is_canonical}
use massive.Store.Keys.{Key}
use massive.Store.Contract.{StoreError, Object, Datastore}
use massive.Artifact.Identity.{Producer, Destination, blob_key, validate_destination}
use massive.Artifact.SameProducer.{same_producer_iff}
use massive.Artifact.Publish.{
  manifest_type, json_type, PublishedJson, DataArtifactManifest, ArtifactError, integrity,
  bad_value, Documents, state_with_error, validate_canonical_json, passed, manifest_ref,
}
use massive.Artifact.Resolve.{
  expected, check_manifest_object, key_of_body, manifest_body_key, check_body_object, after_body,
  read_body, validate_body, resolve_manifest, after_manifest, read_manifest_object, resolve_json,
}

good_eq : {A : Type 0} (a b : A) → ◌≡◌ {A = Result ArtifactError A} (good a) (good b) → a ≡ b
good_eq a b h = cc h

module _ (c : Documents) {S : Type 0} (d : Datastore S) (destination : Destination)
    (producer : Producer) where
  -- an object that is a manifest of the producer and the schema
  pub record IsManifest (o : Object) (m : DataArtifactManifest) : Type 0 where
    pub content_type : o.info.content_type ≡ manifest_type
    pub canonical : is_canonical c.canonical o.body ≡ true
    pub valid : c.is_manifest o.body ≡ true
    pub decoded : c.read_manifest o.body ≡ some m
    pub by_producer : m.producer ≡ producer
    pub schema : m.schema ≡ destination.schema

  -- an object that is the body of a manifest
  pub record IsBody (m : DataArtifactManifest) (o : Object) : Type 0 where
    pub content_type : o.info.content_type ≡ json_type
    pub size : length o.body ≡ m.body.size
    pub hash : c.digest o.body ≡ m.body.hash

  -- A value that the store's answers commit, from a state on: the object at the manifest key is a
  -- manifest, and the object at the key of the digest that it records is its body.
  pub record Committed (s : S) (p : PublishedJson) (body : Bytes) : Type 0 where
    pub manifest : DataArtifactManifest
    pub manifest_object : Object
    pub manifest_found : (d.get destination.manifest_key s).1 ≡ good manifest_object
    pub manifest_fine : IsManifest manifest_object manifest
    pub body_key : Key
    pub digest_key : blob_key manifest.body.hash ≡ some body_key
    pub recorded_key : body_key.value ≡ manifest.body.key
    pub body_object : Object
    pub body_found : (d.get body_key (d.get destination.manifest_key s).0).1 ≡ good body_object
    pub body_fine : IsBody manifest body_object
    pub body_text : body_object.body ≡ body
    pub canonical : is_canonical c.canonical body ≡ true
    pub answer : p ≡ record {
      manifest = manifest_ref c d destination.manifest_key manifest_object.body;
      body = manifest.body;
      schema = destination.schema;
    }

  expected_good :
      (o : Option DataArtifactManifest) (m : DataArtifactManifest)
      → expected c d destination producer o ≡ good m
      → (o ≡ some m) × (m.producer ≡ producer) × (m.schema ≡ destination.schema)
  expected_good none m h = cc
  expected_good (some n) m h =
      let same : n ≡ m = ground arith in
      let by_producer = (same_producer_iff n.producer producer).0 (ground arith) in
      let schema = (bytes_equal_iff n.schema destination.schema).0 (ground arith) in
      subst
        (λ (x : DataArtifactManifest).
          (some n ≡ some x) × (x.producer ≡ producer) × (x.schema ≡ destination.schema))
        same (refl, by_producer, schema)

  expected-IsManifest :
      (o : Object) (m : DataArtifactManifest)
      → check_manifest_object c d destination producer o ≡ good m
      → IsManifest o m
  unfolding check_manifest_object
  expected-IsManifest o m h =
      let (decoded, by_producer, schema) =
        expected_good (c.read_manifest o.body) m (ground arith) in
      record {
        content_type = (bytes_equal_iff o.info.content_type manifest_type).0 (ground arith);
        canonical = ground arith;
        valid = ground arith;
        decoded = decoded;
        by_producer = by_producer;
        schema = schema;
      }

  key_of_body_good :
      (m : DataArtifactManifest) (o : Option Key) (k : Key)
      → key_of_body c d destination producer m o ≡ good k
      → (o ≡ some k) × (k.value ≡ m.body.key)
  key_of_body_good m none k h = cc
  key_of_body_good m (some j) k h =
      let same : j ≡ k = ground arith in
      let value = (bytes_equal_iff j.value m.body.key).0 (ground arith) in
      (ap some same, subst (λ (x : Key). x.value ≡ m.body.key) same value)

  expected-IsBody :
      (m : DataArtifactManifest) (o : Object) (body : Bytes)
      → check_body_object c d destination producer m o ≡ good body
      → IsBody m o × (o.body ≡ body)
  unfolding check_body_object
  expected-IsBody m o body h = (
    record {
      content_type = (bytes_equal_iff o.info.content_type json_type).0 (ground arith);
      size = ground arith;
      hash = (bytes_equal_iff (c.digest o.body) m.body.hash).0 (ground arith);
    },
    ground arith,
  )

  answered-IsBody :
      (m : DataArtifactManifest) (r : S × Result StoreError Object) (body : Bytes)
      → (after_body c d destination producer m r).1 ≡ good body
      → (o : Object) × (r.1 ≡ good o) × IsBody m o × (o.body ≡ body)
  answered-IsBody m (s, bad e) body h = absurd (cc h)
  answered-IsBody m (s, good o) body h =
      let (fine, text) = expected-IsBody m o body h in (o, refl, fine, text)

  state_with_error_good :
      {A : Type 0} (e : ArtifactError) (r : S × Result ArtifactError A) (a : A)
      → (state_with_error e r).1 ≡ good a
      → r.1 ≡ good a
  state_with_error_good e (s, good b) a h = h
  state_with_error_good e (s, bad x) a h = cc

  validate_canonical :
      (schema body : Bytes) (s : S) (u : Unit {0})
      → (validate_canonical_json c d schema body s).1 ≡ good u
      → is_canonical c.canonical body ≡ true
  unfolding validate_canonical_json
  validate_canonical schema body s u h = elim (Bool-cases (is_canonical c.canonical body)) [
    | inl fine ↦ fine
    | inr other ↦ absurd (ground arith)
  ]

  resolve_manifest-Committed :
      (o : Object) (s : S) (p : PublishedJson) (body : Bytes)
      → (d.get destination.manifest_key s).1 ≡ good o
      → (resolve_manifest c d destination producer o (d.get destination.manifest_key s).0).1
        ≡ good (p, body)
      → Committed s p body
  unfolding resolve_manifest read_body validate_body manifest_body_key
  resolve_manifest-Committed o s p body found h =
      let start = (d.get destination.manifest_key s).0 in
      let (s₁, m, checked, h₁) =
        resume_good (start, check_manifest_object c d destination producer o) _ h in
      let fine = expected-IsManifest o m (ap (λ x. x.1) checked) in
      let (s₂, k, located, h₂) =
        resume_good (s₁, manifest_body_key c d destination producer m) _ h₁ in
      let (digest_key, value) =
        key_of_body_good m (blob_key m.body.hash) k (ap (λ x. x.1) located) in
      let (s₃, b, was_read, h₃) = resume_good (read_body c d destination producer m k s₂) _ h₂ in
      let (b_object, b_found, b_fine, b_text) =
        answered-IsBody m (d.get k s₂) b (ap (λ x. x.1) was_read) in
      let (s₄, u, valid, end) = resume_good (validate_body c d destination producer m b s₃) _ h₃ in
      let canonical = validate_canonical m.schema b s₃ u (
        state_with_error_good (integrity bad_value) (validate_canonical_json c d m.schema b s₃) u
          (ap (λ x. x.1) valid)) in
      let same = good_eq _ (p, body) end in
      let text : b ≡ body = ap (λ (x : PublishedJson × Bytes). x.1) same in
      let state : s₂ ≡ start = sym (ap (λ x. x.0) checked ∙ ap (λ x. x.0) located) in
      record {
        manifest = m;
        manifest_object = o;
        manifest_found = found;
        manifest_fine = fine;
        body_key = k;
        digest_key = digest_key;
        recorded_key = value;
        body_object = b_object;
        body_found = subst (λ x. (d.get k x).1 ≡ good b_object) state b_found;
        body_fine = b_fine;
        body_text = b_text ∙ text;
        canonical = subst (λ x. is_canonical c.canonical x ≡ true) text canonical;
        answer =
            sym (ap (λ (x : PublishedJson × Bytes). x.0) same)
            ∙ ap
                (λ x. record {
                  manifest = manifest_ref c d destination.manifest_key o.body;
                  body = m.body;
                  schema = x;
                })
                fine.schema;
      }

  after_manifest-Committed :
      (r : S × Result StoreError Object) (s : S) (p : PublishedJson) (body : Bytes)
      → d.get destination.manifest_key s ≡ r
      → (after_manifest c d destination producer r).1 ≡ good (p, body)
      → Committed s p body
  after_manifest-Committed (t, bad e) s p body found h = absurd (cc h)
  after_manifest-Committed (t, good o) s p body found h =
      let state : t ≡ (d.get destination.manifest_key s).0 = sym (ap (λ x. x.0) found) in
      resolve_manifest-Committed o s p body (ap (λ x. x.1) found)
        (subst (λ x. (resolve_manifest c d destination producer o x).1 ≡ good (p, body)) state h)

  -- Whatever the store answers, where ResolveJSON returns a body, the object at the manifest key
  -- is a canonical, valid manifest of the expected producer and schema, the object at the key of
  -- the digest that it records has that digest, its length and the type of JSON and is the body,
  -- which is canonical, and the answer names both.
  pub resolve_json-Committed :
      (s : S) (p : PublishedJson) (body : Bytes)
      → (resolve_json c d destination producer s).1 ≡ good (p, body)
      → Committed s p body
  unfolding resolve_json read_manifest_object
  resolve_json-Committed s p body h =
      let (t, u, valid, later) =
        resume_good (s, passed c d (validate_destination c.itoa destination producer)) _ h in
      let start : t ≡ s = sym (ap (λ x. x.0) valid) in
      after_manifest-Committed (d.get destination.manifest_key s) s p body refl (
        subst
          (λ x.
            (after_manifest c d destination producer (d.get destination.manifest_key x)).1
            ≡ good (p, body))
          start later)
