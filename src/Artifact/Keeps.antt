-- ===== src/Artifact/Keeps.antt =====
-- internal/artifact/runtime.go: PublishJSON changes no object that is there.
use mathlib.Core.Path.{subst}
use massive.Base.{Bytes, Bool-cases, Option, Option-cases, none, some, ◌≡◌, inl, inr, sym, ◌∙◌}
use massive.Base.Results.{Result, good, bad, Stateful, resume, give}
use massive.MapExec.Collect.{is_canonical}
use massive.Store.Keys.{Key}
use massive.Store.Contract.{StoreError, Object, Datastore, View, IsStore, Settles, kept, created}
use massive.Artifact.Identity.{Producer, Destination, blob_key, validate_destination}
use massive.Artifact.Publish.{
  ArtifactError, Documents, published, json_type, manifest_type, body_conflict, manifest_conflict,
  canonical_manifest, new_manifest, with_key, passed, put_immutable, commit, publish_text,
  publish_at, publish_valid, publish_checked, publish_json, validate_canonical_json, read_schema,
  after_schema,
}
use massive.Artifact.Immutable.{put_immutable-IsSound, put_immutable-Settles}

module _ (c : Documents) {S : Type 0} (d : Datastore S) {IsUsable : Key → Type 0}
    {IsSound : S → Type 0} {view : S → View} (store : IsStore d IsUsable IsSound view) where
  -- a later state of the store
  pub record Keeps (s t : S) : Type 0 where
    pub still_sound : IsSound t
    pub there : (k : Key) (o : Object) → IsUsable k → view s k ≡ some o → view t k ≡ some o

  Keeps-refl : (s : S) → IsSound s → Keeps s s
  Keeps-refl s sound = record { still_sound = sound; there = λ k o u h. h }

  Keeps-trans : (s t w : S) → Keeps s t → Keeps t w → Keeps s w
  Keeps-trans s t w a b = record {
    still_sound = b.still_sound;
    there = λ k o u h. b.there k o u (a.there k o u h);
  }

  resume-Keeps :
      {E A B : Type 0} (s : S) (first : S × Result E A) (later : A → Stateful S E B)
      → Keeps s first.0
      → ((a : A) → IsSound first.0 → Keeps first.0 (later a first.0).0)
      → Keeps s (resume first later).0
  resume-Keeps s (t, good a) later k next = Keeps-trans s t _ k (next a k.still_sound)
  resume-Keeps s (t, bad e) later k next = k

  settled_there :
      (k j : Key) (o fresh : Object) (before after : View)
      → Settles k fresh before after j
      → before j ≡ some o
      → after j ≡ some o
  settled_there k j o fresh before after (kept e) h = e ∙ h
  settled_there k j o fresh before after (created same absent new) h =
      absurd (let clash : none ≡ some o = sym absent ∙ h in cc clash)

  put_immutable-Keeps :
      (k : Key) (body type : Bytes) (conflict : ArtifactError) (s : S)
      → IsUsable k
      → IsSound s
      → Keeps s (put_immutable c d k body type conflict s).0
  put_immutable-Keeps k body type conflict s usable sound = record {
    still_sound = put_immutable-IsSound c d store k body type conflict s usable sound;
    there = λ j o u h.
        settled_there k j o _ (view s) _
          (put_immutable-Settles c d store k body type conflict s usable sound j u) h;
  }

  after_schema-Keeps :
      (schema body : Bytes) (s : S) (m : S × Result StoreError Object)
      → Keeps s m.0
      → Keeps s (after_schema c d schema body m).0
  after_schema-Keeps schema body s (t, good o) k = k
  after_schema-Keeps schema body s (t, bad e) k = k

  pub get-Keeps : (k : Key) (s : S) → IsSound s → Keeps s (d.get k s).0
  get-Keeps k s sound = record {
    still_sound = store.get_sound k s sound;
    there = λ j o u h. store.get_keeps k j s ∙ h;
  }

  read_schema-Keeps :
      (schema body : Bytes) (o : Option Key) (s : S)
      → IsSound s
      → Keeps s (read_schema c d schema body o s).0
  read_schema-Keeps schema body none s sound = Keeps-refl s sound
  read_schema-Keeps schema body (some k) s sound =
      after_schema-Keeps schema body s (d.get k s) (get-Keeps k s sound)

  pub validate-Keeps :
      (schema body : Bytes) (s : S)
      → IsSound s
      → Keeps s (validate_canonical_json c d schema body s).0
  unfolding validate_canonical_json
  validate-Keeps schema body s sound = elim (Bool-cases (is_canonical c.canonical body)) [
    | inr other ↦ rw other (Keeps-refl s sound)
    | inl fine ↦ rw fine (read_schema-Keeps schema body (blob_key schema) s sound)
  ]

  module _ (destination : Destination) (producer : Producer)
      (usable_blobs : (h : Bytes) (k : Key) → blob_key h ≡ some k → IsUsable k)
      (slot : IsUsable destination.manifest_key) where
    publish_text-Keeps :
        (body : Bytes) (k : Key) (text : Bytes) (s : S)
        → IsUsable k
        → IsSound s
        → Keeps s (publish_text c d destination producer body k text s).0
    unfolding publish_text commit
    publish_text-Keeps body k text s usable sound =
        resume-Keeps s (commit c d destination producer k body text s)
          (λ _. give (published c d destination producer k body text))
          (resume-Keeps s (put_immutable c d k body json_type body_conflict s)
            (λ _. put_immutable c d destination.manifest_key text manifest_type manifest_conflict)
            (put_immutable-Keeps k body json_type body_conflict s usable sound)
            (λ a fine.
              put_immutable-Keeps destination.manifest_key text manifest_type manifest_conflict _
                slot fine))
          (λ a fine. Keeps-refl _ fine)

    publish_at-Keeps :
        (body : Bytes) (k : Key) (s : S)
        → IsUsable k
        → IsSound s
        → Keeps s (publish_at c d destination producer body k s).0
    unfolding publish_at
    publish_at-Keeps body k s usable sound =
        resume-Keeps s (s, canonical_manifest c d (new_manifest c d destination producer k body))
          (publish_text c d destination producer body k) (Keeps-refl s sound)
          (λ text fine. publish_text-Keeps body k text s usable fine)

    publish_valid-Keeps :
        (body : Bytes) (s : S)
        → IsSound s
        → Keeps s (publish_valid c d destination producer body s).0
    unfolding publish_valid
    publish_valid-Keeps body s sound = elim (Option-cases (blob_key (c.digest body))) [
      | inl e ↦ rw e (Keeps-refl s sound)
      | inr (k, e) ↦
          subst
            (λ o. Keeps s (resume (s, with_key c d o) (publish_at c d destination producer body)).0)
            (sym e) (publish_at-Keeps body k s (usable_blobs (c.digest body) k e) sound)
    ]

    publish_checked-Keeps :
        (body : Bytes) (s : S)
        → IsSound s
        → Keeps s (publish_checked c d destination producer body s).0
    unfolding publish_checked
    publish_checked-Keeps body s sound =
        resume-Keeps s (validate_canonical_json c d destination.schema body s)
          (λ _. publish_valid c d destination producer body)
          (validate-Keeps destination.schema body s sound)
          (λ a fine. publish_valid-Keeps body _ fine)

    -- Over a store of immutable objects in a sound state, on which the manifest key and the keys
    -- of blobs are usable, whatever fails in PublishJSON, the state stays sound and every object
    -- that was there is there unchanged.
    pub publish_json-Keeps :
        (body : Bytes) (s : S)
        → IsSound s
        → Keeps s (publish_json c d destination producer body s).0
    unfolding publish_json
    publish_json-Keeps body s sound =
        resume-Keeps s (s, passed c d (validate_destination c.itoa destination producer))
          (λ _. publish_checked c d destination producer body) (Keeps-refl s sound)
          (λ a fine. publish_checked-Keeps body s fine)
