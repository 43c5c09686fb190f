-- ===== src/Artifact/ManifestLast.antt =====
-- internal/artifact/runtime.go, PublishJSON: a manifest only becomes visible after its body.
use mathlib.Core.Path.{subst}
use massive.Base.{
  Bytes, Bool-cases, Option, Option-cases, none, some, ◌≡◌, ◌≢◌, ◌⊎◌, inl, inr, refl, sym, ◌∙◌,
}
use massive.Base.Results.{Result, good, bad, resume}
use massive.Store.Keys.{Key}
use massive.Store.Contract.{StoreError, Object, Datastore, View, IsStore}
use massive.MapExec.Collect.{is_canonical}
use massive.Artifact.Identity.{Producer, Destination, IdentityError, blob_key, validate_destination}
use massive.Artifact.Publish.{
  ArtifactError, PublishedJson, Documents, json_type, manifest_type, published, publish_text,
  publish_at, publish_valid, publish_checked, publish_json, validate_canonical_json, read_schema,
  after_schema, passed, with_key, canonical_manifest, new_manifest,
}
use massive.Artifact.Slots.{slot_ne_blob}
use massive.Artifact.Immutable.{Holds}
use massive.Artifact.Commit.{
  resume_cases, manifest_view, Effect, not_visible, has_body, commit-Effect,
}

module _ (c : Documents) {S : Type 0} (d : Datastore S) {IsUsable : Key → Type 0}
    {IsSound : S → Type 0} {view : S → View} (store : IsStore d IsUsable IsSound view)
    (destination : Destination) (producer : Producer) where
  -- reading the schema writes nothing
  after_schema_state :
      (schema body : Bytes) (m : S × Result StoreError Object)
      → (after_schema c d schema body m).0 ≡ m.0
  after_schema_state schema body (s, good o) = refl
  after_schema_state schema body (s, bad e) = refl

  -- a state that a reader leaves
  record IsRead (s t : S) : Type 0 where
    still_sound : IsSound t
    same_view :
        manifest_view c d store destination producer t
        ≡ manifest_view c d store destination producer s

  read_schema-IsRead :
      (schema body : Bytes) (o : Option Key) (s : S)
      → IsSound s
      → IsRead s (read_schema c d schema body o s).0
  read_schema-IsRead schema body none s sound = record { still_sound = sound; same_view = refl }
  read_schema-IsRead schema body (some k) s sound =
      subst (IsRead s) (sym (after_schema_state schema body (d.get k s))) (record {
        still_sound = store.get_sound k s sound;
        same_view = store.get_keeps k destination.manifest_key s;
      })

  validate-IsRead :
      (schema body : Bytes) (s : S)
      → IsSound s
      → IsRead s (validate_canonical_json c d schema body s).0
  unfolding validate_canonical_json
  validate-IsRead schema body s sound = elim (Bool-cases (is_canonical c.canonical body)) [
    | inr other ↦ rw other (record { still_sound = sound; same_view = refl })
    | inl fine ↦ rw fine (read_schema-IsRead schema body (blob_key schema) s sound)
  ]

  module _ (usable_blobs : (h : Bytes) (k : Key) → blob_key h ≡ some k → IsUsable k)
      (slot : IsUsable destination.manifest_key) where
    publish_at-Effect :
        (body : Bytes) (k : Key) (s : S)
        → destination.manifest_key ≢ k
        → blob_key (c.digest body) ≡ some k
        → IsSound s
        → Effect c d store destination producer s body
            (publish_at c d destination producer body k s)
    unfolding publish_at publish_text
    publish_at-Effect body k s apart digest_key sound =
        let m = canonical_manifest c d (new_manifest c d destination producer k body) in
        elim (resume_cases (s, m) (publish_text c d destination producer body k)) [
          | inl (e, stopped, whole) ↦
              subst (Effect c d store destination producer s body) (sym whole)
                (not_visible refl (λ p h. cc h))
          | inr (text, encoded, whole) ↦
              subst (Effect c d store destination producer s body) (sym whole) (
                commit-Effect c d store destination producer s body k text digest_key encoded
                  (usable_blobs (c.digest body) k digest_key) slot apart sound)
        ]

    publish_valid-Effect :
        (body : Bytes) (s : S)
        → ((k : Key) → blob_key (c.digest body) ≡ some k → destination.manifest_key ≢ k)
        → IsSound s
        → Effect c d store destination producer s body
            (publish_valid c d destination producer body s)
    unfolding publish_valid
    publish_valid-Effect body s apart sound = elim (Option-cases (blob_key (c.digest body))) [
      | inl e ↦ rw e (not_visible refl (λ p h. cc h))
      | inr (k, e) ↦
          subst
            (λ o.
              Effect c d store destination producer s body
                (resume (s, with_key c d o) (publish_at c d destination producer body)))
            (sym e) (publish_at-Effect body k s (apart k e) e sound)
    ]

    passed-none : {u : Unit {0}} (o : Option IdentityError) → passed c d o ≡ good u → o ≡ none
    passed-none none h = refl
    passed-none (some e) h = cc

    -- from a state that reads led to
    from_read :
        (s t : S) (body : Bytes) (out : S × Result ArtifactError PublishedJson)
        → IsRead s t
        → Effect c d store destination producer t body out
        → Effect c d store destination producer s body out
    from_read s t body out r (not_visible same refused) = not_visible (same ∙ r.same_view) refused
    from_read s t body out r (has_body k text digest_key encoded there visible) =
        has_body k text digest_key encoded there visible

    publish_json-Effect :
        (body : Bytes) (s : S)
        → IsSound s
        → Effect c d store destination producer s body
            (publish_json c d destination producer body s)
    unfolding publish_json publish_checked
    publish_json-Effect body s sound =
        let read = validate-IsRead destination.schema body s sound in
        elim (resume_cases (s, passed c d (validate_destination c.itoa destination producer))
          (λ _. publish_checked c d destination producer body)) [
            | inl (e, stopped, whole) ↦
                subst (Effect c d store destination producer s body) (sym whole)
                  (not_visible refl (λ p h. cc h))
            | inr (u, fine, whole) ↦
                subst (Effect c d store destination producer s body) (sym whole)
                  (elim (resume_cases (validate_canonical_json c d destination.schema body s)
                    (λ _. publish_valid c d destination producer body)) [
                      | inl (e, stopped, inner) ↦
                          subst (Effect c d store destination producer s body) (sym inner)
                            (not_visible read.same_view (λ p h. cc h))
                      | inr (v, valid, inner) ↦
                          subst (Effect c d store destination producer s body) (sym inner) (
                            from_read s _ body _ read (
                              publish_valid-Effect body _
                                (λ k e.
                                  slot_ne_blob c.itoa destination producer (c.digest body) k
                                    (passed-none _ fine) e)
                                read.still_sound))
                    ])
          ]

    -- Over a store of immutable objects in a sound state, on which the manifest key and the keys
    -- of blobs are usable, whatever fails in PublishJSON, afterwards the manifest key has the
    -- object that it had before, or the body is stored under the key of its digest as JSON.
    pub publish_json_manifest_last :
        (body : Bytes) (s : S)
        → IsSound s
        → (manifest_view c d store destination producer
              (publish_json c d destination producer body s).0
            ≡ manifest_view c d store destination producer s)
          ⊎ ((k : Key) × (blob_key (c.digest body) ≡ some k)
              × Holds (view (publish_json c d destination producer body s).0 k) body json_type)
    publish_json_manifest_last body s sound = elim (publish_json-Effect body s sound) [
      | not_visible same refused ↦ inl same
      | has_body k text digest_key encoded there visible ↦ inr (k, digest_key, there)
    ]

    -- Over a store of immutable objects in a sound state, on which the manifest key and the keys
    -- of blobs are usable, where PublishJSON succeeds, the body is stored under the key of its
    -- digest as JSON, the encoded manifest of the producer, the schema and that body is stored
    -- under the manifest key, and the answer names both.
    pub publish_json_committed :
        (body : Bytes) (s : S) (p : PublishedJson)
        → IsSound s
        → (publish_json c d destination producer body s).1 ≡ good p
        → (k : Key) × (text : Bytes) × (blob_key (c.digest body) ≡ some k)
          × (canonical_manifest c d (new_manifest c d destination producer k body) ≡ good text)
          × Holds (view (publish_json c d destination producer body s).0 k) body json_type
          × Holds
              (manifest_view c d store destination producer
                (publish_json c d destination producer body s).0)
              text
              manifest_type
          × (p ≡ published c d destination producer k body text)
    publish_json_committed body s p sound h = elim (publish_json-Effect body s sound) [
      | not_visible same refused ↦ absurd (refused p h)
      | has_body k text digest_key encoded there visible ↦
          let (manifest, answer) = visible p h in
          (k, text, digest_key, encoded, there, manifest, answer)
    ]
