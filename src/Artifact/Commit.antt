-- ===== src/Artifact/Commit.antt =====
-- internal/artifact/runtime.go, PublishJSON: the two writes that commit an artifact.
use mathlib.Core.Path.{subst}
use massive.Base.{Bytes, Option, some, ◌≡◌, ◌≢◌, ◌⊎◌, inl, inr, refl, sym}
use massive.Base.Results.{Result, good, bad, Stateful, resume, give}
use massive.Store.Keys.{Key}
use massive.Store.Contract.{
  Object, Datastore, View, IsStore, Settles, kept, created, default_content_type,
}
use massive.Artifact.Identity.{Producer, Destination, blob_key}
use massive.Artifact.Publish.{
  ArtifactError, PublishedJson, Documents, body_conflict, manifest_conflict, json_type,
  manifest_type, put_immutable, commit, published, canonical_manifest, new_manifest,
}
use massive.Artifact.Immutable.{
  Holds, put_immutable-IsSound, put_immutable-Settles, put_immutable-Holds,
}

-- the first part failed, or the second ran after it
pub resume_cases :
    {S E A B : Type 0} (first : S × Result E A) (later : A → Stateful S E B)
    → ((e : E) × (first.1 ≡ bad e) × (resume first later ≡ (first.0, bad e)))
      ⊎ ((a : A) × (first.1 ≡ good a) × (resume first later ≡ later a first.0))
resume_cases (s, good a) later = inr (a, refl, refl)
resume_cases (s, bad e) later = inl (e, refl, refl)

-- An object that is there stays, and another key is not written.
stays :
    {target : Key} {fresh : Object} {before after : View} {k : Key}
    → Settles target fresh before after k
    → k ≢ target
    → after k ≡ before k
stays (kept e) other = e
stays (created same absent new) other = absurd (other same)

module _ (c : Documents) {S : Type 0} (d : Datastore S) {IsUsable : Key → Type 0}
    {IsSound : S → Type 0} {view : S → View} (store : IsStore d IsUsable IsSound view)
    (destination : Destination) (producer : Producer) where
  abbrev pub manifest_view : S → Option Object
  manifest_view s = view s destination.manifest_key

  module _ (body_key : Key) (body text : Bytes) (s : S) (usable : IsUsable body_key)
      (slot : IsUsable destination.manifest_key) (other : destination.manifest_key ≢ body_key)
      (sound : IsSound s) where
    abbrev put_body : S × Result ArtifactError (Unit {0})
    put_body = put_immutable c d body_key body json_type body_conflict s

    body_first : manifest_view put_body.0 ≡ manifest_view s
    body_first =
        stays
          (put_immutable-Settles c d store body_key body json_type body_conflict s usable sound
            destination.manifest_key slot)
          other

    -- a Put of the manifest after a Put of the body
    module _ (done : put_body.1 ≡ good tt) where
      put_body-IsSound : IsSound put_body.0
      put_body-IsSound =
          put_immutable-IsSound c d store body_key body json_type body_conflict s usable sound

      abbrev put_manifest : S × Result ArtifactError (Unit {0})
      put_manifest =
          put_immutable c d destination.manifest_key text manifest_type manifest_conflict put_body.0

      body_stays : Holds (view put_manifest.0 body_key) body json_type
      body_stays =
          subst (λ o. Holds o body json_type)
            (sym (
              stays
                (put_immutable-Settles c d store destination.manifest_key text manifest_type
                  manifest_conflict put_body.0 slot put_body-IsSound body_key usable)
                (λ e. other (sym e))))
            (put_immutable-Holds c d store body_key body json_type body_conflict s usable sound
              (unfold default_content_type in refl) done)

      manifest_there :
          put_manifest.1 ≡ good tt → Holds (manifest_view put_manifest.0) text manifest_type
      manifest_there h =
          put_immutable-Holds c d store destination.manifest_key text manifest_type
            manifest_conflict put_body.0 slot put_body-IsSound (unfold default_content_type in refl)
            h

  -- what PublishJSON may have done when it returns
  pub data Effect (s : S) (body : Bytes) (out : S × Result ArtifactError PublishedJson)
      : Type 0 where
    not_visible :
        manifest_view out.0 ≡ manifest_view s
        → ((p : PublishedJson) → out.1 ≢ good p)
        → Effect s body out
    has_body :
        (k : Key) (text : Bytes)
        → blob_key (c.digest body) ≡ some k
        → canonical_manifest c d (new_manifest c d destination producer k body) ≡ good text
        → Holds (view out.0 k) body json_type
        → ((p : PublishedJson)
            → out.1 ≡ good p
            → Holds (manifest_view out.0) text manifest_type
              × (p ≡ published c d destination producer k body text))
        → Effect s body out

  has_body_of :
      (s : S) (body : Bytes) (k : Key) (text : Bytes) (m : S × Result ArtifactError (Unit {0}))
      → blob_key (c.digest body) ≡ some k
      → canonical_manifest c d (new_manifest c d destination producer k body) ≡ good text
      → Holds (view m.0 k) body json_type
      → (m.1 ≡ good tt → Holds (manifest_view m.0) text manifest_type)
      → Effect s body (resume m (λ _. give (published c d destination producer k body text)))
  has_body_of s body k text (t, good u) digest_key encoded there visible =
      has_body k text digest_key encoded there (λ p h. (visible refl, sym (cc h)))
  has_body_of s body k text (t, bad e) digest_key encoded there visible =
      has_body k text digest_key encoded there (λ p h. absurd (cc h))

  -- the writes, and the answer after them
  pub commit-Effect :
      (s : S) (body : Bytes) (k : Key) (text : Bytes)
      → blob_key (c.digest body) ≡ some k
      → canonical_manifest c d (new_manifest c d destination producer k body) ≡ good text
      → IsUsable k
      → IsUsable destination.manifest_key
      → destination.manifest_key ≢ k
      → IsSound s
      → Effect s body (
          resume
            (commit c d destination producer k body text s)
            (λ _. give (published c d destination producer k body text)))
  unfolding commit
  commit-Effect s body k text digest_key encoded usable slot other sound =
      let answer = published c d destination producer k body text in
      elim (resume_cases (put_body k body text s usable slot other sound)
        (λ _. put_immutable c d destination.manifest_key text manifest_type manifest_conflict)) [
          | inl (e, stopped, whole) ↦
              subst (λ m. Effect s body (resume m (λ _. give answer))) (sym whole)
                (not_visible (body_first k body text s usable slot other sound) (λ p h. cc h))
          | inr (u, done, whole) ↦
              subst (λ m. Effect s body (resume m (λ _. give answer))) (sym whole)
                (has_body_of s body k text _ digest_key encoded
                  (body_stays k body text s usable slot other sound done)
                  (manifest_there k body text s usable slot other sound done))
        ]
