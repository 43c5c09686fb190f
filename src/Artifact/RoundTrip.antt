-- ===== src/Artifact/RoundTrip.antt =====
-- internal/artifact/runtime.go: ResolveJSON returns what PublishJSON published.
use mathlib.Core.Path.{subst}
use massive.Base.{Bytes, Bool-cases, Option, none, some, ◌≡◌, inl, inr, refl, sym, ap, ◌∙◌, arith}
use massive.Base.Results.{Result, good, bad, resume_good, resume-of_good}
use massive.MapExec.Collect.{is_canonical}
use massive.Store.Keys.{Key}
use massive.Store.Contract.{Object, Datastore, View, IsStore, default_content_type}
use massive.Artifact.Identity.{Producer, Destination, blob_key, validate_destination}
use massive.Artifact.Publish.{
  ArtifactError, PublishedJson, Documents, json_type, manifest_type, check_schema, read_schema,
  validate_canonical_json, state_with_error, canonical_manifest, new_manifest, published, body_ref,
  manifest_ref, passed, publish_checked, publish_json, integrity, bad_value,
}
use massive.Artifact.Resolve.{
  check_manifest_object, manifest_body_key, after_body, read_body, validate_body, resolve_manifest,
  read_manifest_object, resolve_json,
}
use massive.Artifact.Immutable.{Holds}
use massive.Artifact.ManifestLast.{publish_json_committed}
use massive.Artifact.Keeps.{Keeps, publish_json-Keeps}
use massive.Artifact.Steps.{
  IsDocuments, Checked, m, after_schema_good, after_schema_of, after_manifest_of, after_body_of,
  after_body_state, own_manifest, own_key, own_body,
}

module _ (c : Documents) {S : Type 0} (d : Datastore S) where
  validate_read :
      (schema body : Bytes) (o : Option Key) (s : S)
      → (read_schema c d schema body o s).1 ≡ good tt
      → (k : Key) × (o ≡ some k)
        × ((x : Object) × ((d.get k s).1 ≡ good x) × (check_schema c d schema body x ≡ good tt))
  validate_read schema body none s h = cc
  validate_read schema body (some k) s h =
      (k, refl, after_schema_good c d schema body (d.get k s) h)

  -- the store serves what it holds, as long as it is only read
  module _ {IsUsable : Key → Type 0} {IsSound : S → Type 0} {view : S → View}
      (store : IsStore d IsUsable IsSound view)
      (usable_blobs : (h : Bytes) (k : Key) → blob_key h ≡ some k → IsUsable k)
      (Serves : S → Type 0)
      (serving : (u : S) (k : Key)
        → Serves u
        → Serves (d.get k u).0 × ((o : Object) → view u k ≡ some o → (d.get k u).1 ≡ good o)) where
    validated-Checked :
        (schema body : Bytes) (s : S)
        → IsSound s
        → (validate_canonical_json c d schema body s).1 ≡ good tt
        → Checked c d view s schema body
    unfolding validate_canonical_json
    validated-Checked schema body s sound h = elim (Bool-cases (is_canonical c.canonical body)) [
      | inr other ↦ absurd (ground arith)
      | inl fine ↦
          let (k, named, (o, got, satisfied)) =
            validate_read schema body (blob_key schema) s (ground arith) in
          record {
            fine = fine;
            target = k;
            named = named;
            object = o;
            there = store.get_stored k s o (usable_blobs schema k named) sound got;
            satisfied = satisfied;
          }
    ]

    validate_of :
        (schema body : Bytes) (s u : S)
        → (w : Checked c d view s schema body) → Serves u
        → view u w.target ≡ some w.object
        → (validate_canonical_json c d schema body u).1 ≡ good tt
    unfolding validate_canonical_json
    validate_of schema body s u w serves there =
        let got = (serving u w.target serves).1 w.object there in
        rw (w.fine, w.named)
          (after_schema_of c d schema body (d.get w.target u) w.object got ∙ w.satisfied)

    state_with_error_of :
        (e : ArtifactError) (m : S × Result ArtifactError (Unit {0}))
        → m.1 ≡ good tt
        → (state_with_error e m).1 ≡ good tt
    state_with_error_of e (s, good u) h = refl
    state_with_error_of e (s, bad x) h = cc

    module _ (destination : Destination) (producer : Producer) (k : Key) (body text : Bytes) (s : S)
        (law : IsDocuments c)
        (encoded : canonical_manifest c d (m c d destination producer k body) ≡ good text)
        (named : blob_key (c.digest body) ≡ some k)
        (w : Checked c d view s destination.schema body) where
      -- the manifest object that was found leads to the body
      resolve_found :
          (om : Object) (t : S)
          → Serves t
          → om.body ≡ text
          → om.info.content_type ≡ manifest_type
          → Holds (view t k) body json_type
          → view t w.target ≡ some w.object
          → (resolve_manifest c d destination producer om t).1
            ≡ good (published c d destination producer k body text, body)
      unfolding resolve_manifest read_body validate_body published default_content_type new_manifest
      resolve_found om t serves same typed held schema =
          let (serves', answers) = serving t k serves in
          let got = answers held.object held.there in
          let found =
            after_body_of c d destination producer (m c d destination producer k body) (d.get k t)
              held.object got
            ∙ own_body c d destination producer k body held.object held.same_body held.same_type in
          let here =
            after_body c d destination producer (m c d destination producer k body) (d.get k t) in
          let state =
            after_body_state c d destination producer (m c d destination producer k body)
              (d.get k t) in
          let schema_there : view here.0 w.target ≡ some w.object =
            ap (λ u. view u w.target) state ∙ store.get_keeps k w.target t ∙ schema in
          let valid =
            state_with_error_of (integrity bad_value)
              (validate_canonical_json c d destination.schema body here.0)
              (validate_of destination.schema body s here.0 w (subst Serves (sym state) serves')
                schema_there) in
          resume-of_good (t, check_manifest_object c d destination producer om) _
            (m c d destination producer k body)
            (own_manifest c d destination producer k body law om text encoded same typed)
            (resume-of_good
              (t, manifest_body_key c d destination producer (m c d destination producer k body)) _
              k (own_key c d destination producer k body named)
              (resume-of_good here _ body found (
                resume-of_good
                  (validate_body c d destination producer (m c d destination producer k body) body
                    here.0)
                  _ tt valid
                  (ap
                    (λ x. good (
                      record {
                        manifest = manifest_ref c d destination.manifest_key x;
                        body = body_ref c d k body;
                        schema = destination.schema;
                      },
                      body,
                    ))
                    same))))

    -- an object in a later state, and after a read there
    Holds-later :
        (s t : S) (k : Key) (body type : Bytes)
        → IsUsable k
        → Keeps c d store s t
        → Holds (view s k) body type
        → Holds (view t k) body type
    Holds-later s t k body type u later h = record {
      object = h.object;
      there = later.there k h.object u h.there;
      same_body = h.same_body;
      same_type = h.same_type;
    }

    Holds-get :
        (t : S) (j k : Key) (body type : Bytes)
        → Holds (view t k) body type
        → Holds (view (d.get j t).0 k) body type
    Holds-get t j k body type h = subst (λ o. Holds o body type) (sym (store.get_keeps j k t)) h

    module _ (destination : Destination) (producer : Producer)
        (slot : IsUsable destination.manifest_key) (law : IsDocuments c) where
      published_checks :
          (body : Bytes) (s : S) (p : PublishedJson)
          → IsSound s
          → (publish_json c d destination producer body s).1 ≡ good p
          → (passed c d (validate_destination c.itoa destination producer) ≡ good tt)
            × Checked c d view s destination.schema body
      unfolding publish_json publish_checked
      published_checks body s p sound h =
          let (s', u, valid, later) =
            resume_good (s, passed c d (validate_destination c.itoa destination producer)) _ h in
          let (s'', v, checked, end) =
            resume_good (validate_canonical_json c d destination.schema body s') _ later in
          let same : s ≡ s' = ap (λ x. x.0) valid in
          let at_start : (validate_canonical_json c d destination.schema body s).1 ≡ good tt =
            ap (λ x. (validate_canonical_json c d destination.schema body x).1) same
            ∙ ap (λ x. x.1) checked in
          (ap (λ x. x.1) valid, validated-Checked destination.schema body s sound at_start)

      -- Over a store of immutable objects on which the manifest key and the keys of blobs are
      -- usable, where manifests are encoded as canonical JSON that decodes to them, what a
      -- successful PublishJSON from a sound state returned, with its body, is what ResolveJSON
      -- for the same destination and producer returns in every later state that keeps the
      -- objects and serves its reads.
      pub resolve_json-publish_json :
          (body : Bytes) (s t : S) (p : PublishedJson)
          → IsSound s
          → (publish_json c d destination producer body s).1 ≡ good p
          → Keeps c d store (publish_json c d destination producer body s).0 t
          → Serves t
          → (resolve_json c d destination producer t).1 ≡ good (p, body)
      unfolding resolve_json read_manifest_object default_content_type
      resolve_json-publish_json body s t p sound h later serves =
          let end = (publish_json c d destination producer body s).0 in
          let slot_key = destination.manifest_key in
          let (k, text, named, encoded, held, manifest, answer) =
            publish_json_committed c d store destination producer usable_blobs slot body s p sound
              h in
          let (valid, w) = published_checks body s p sound h in
          let keeps =
            publish_json-Keeps c d store destination producer usable_blobs slot body s sound in
          let target = usable_blobs destination.schema w.target w.named in
          let schema =
            later.there w.target w.object target (keeps.there w.target w.object target w.there) in
          let om = Holds-later end t slot_key text manifest_type slot later manifest in
          let (serves', answers) = serving t slot_key serves in
          let body_there = Holds-get t slot_key k body json_type (
            Holds-later end t k body json_type (usable_blobs (c.digest body) k named) later held) in
          let found =
            resolve_found destination producer k body text s law encoded named w om.object
              (d.get slot_key t).0 serves' om.same_body om.same_type body_there
              (store.get_keeps slot_key w.target t ∙ schema) in
          resume-of_good (t, passed c d (validate_destination c.itoa destination producer)) _ tt
            valid
            (after_manifest_of c d destination producer (d.get slot_key t) om.object
                (answers om.object om.there)
              ∙ found
              ∙ ap (λ x. good (x, body)) (sym answer))
