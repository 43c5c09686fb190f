-- ===== src/Artifact/SlotsDistinct.antt =====
-- internal/artifact/runtime.go: the identity of a producer is determined by its slot.
use massive.Base.{
  ◌+◌, Bytes, codes, bytes_equal, bytes_equal_iff, cut_prefix, has_byte, all_bytes, is_hex_byte,
  List, [], ◌∷◌, ◌++◌, Bool, Bool-cases, true, false, not, ◌==◌, Option, Option-cases, none, some,
  ℤ, ◌≡◌, inl, inr, refl, sym, ap, ◌∙◌, arith, length, ⨾_passes, fail_if_passes, first_error_passes,
  All,
}
use massive.Store.PathClean.{split_slash}
use massive.Store.Keys.{Key}
use massive.Store.KeyLaws.{no_byte-hex}
use massive.Artifact.Slots.{validate_destination_slot}
use massive.Artifact.Identity.{
  ScopeFrame, Producer, Destination, IdentityError, validate_destination, is_safe_path_segment,
  is_lower_hex, hex_after, is_safe_project_key, scope_path, output_path, validate_producer_identity,
  validate_execution_scope, check_frame,
}
use massive.Artifact.SlotNames.{
  IsPlain, PlainFrame, IsItoa, both_true, safe-IsPlain, split-plain, last_part, segments,
  node_segments, PlainScope, split-scope, segments-injective,
}

not-false : (b : Bool) → not b ≡ false → b ≡ true
not-false true h = refl
not-false false h = cc

check_frame-PlainFrame : (f : ScopeFrame) → check_frame f ≡ none → PlainFrame f
unfolding check_frame
check_frame-PlainFrame f h =
    let fine = (fail_if_passes _ IdentityError.bad_frame).0 h in
    let kind : bytes_equal f.kind (codes "map-item") ≡ true = ground arith in
    let safe : is_safe_path_segment f.map_id ≡ true = ground arith in
    (safe-IsPlain f.map_id safe, (bytes_equal_iff f.kind (codes "map-item")).0 kind)

All-PlainFrame :
    (frames : List ScopeFrame) → All (λ f. check_frame f ≡ none) frames → All PlainFrame frames
All-PlainFrame [] h = tt
All-PlainFrame (f ∷ frames) (first, rest) =
    (check_frame-PlainFrame f first, All-PlainFrame frames rest)

validate-PlainScope :
    (itoa : ℤ → Bytes) (law : IsItoa itoa) (scope : Option (List ScopeFrame))
    → validate_execution_scope scope ≡ none
    → PlainScope itoa law scope
unfolding validate_execution_scope
validate-PlainScope itoa law none h = tt
validate-PlainScope itoa law (some frames) h =
    All-PlainFrame frames ((first_error_passes check_frame frames).0 ((⨾_passes _ _).0 h).1)

cut_prefix-eq : (p s rest : Bytes) → cut_prefix p s ≡ some rest → s ≡ p ++ rest
cut_prefix-eq [] s rest h = cc h
cut_prefix-eq (a ∷ p) [] rest h = cc
cut_prefix-eq (a ∷ p) (c ∷ s) rest h = elim (Bool-cases (a == c)) [
  | inr other ↦ absurd (ground arith)
  | inl same ↦
      let ih = cut_prefix-eq p s rest (ground arith) in
      let e : c ≡ a = ground arith in λ i. e i ∷ ih i
]

project_key-IsPlain : (s : Bytes) → is_safe_project_key s ≡ true → IsPlain s
unfolding is_safe_project_key is_lower_hex
project_key-IsPlain s h =
    let (_, after) =
      both_true (length s == 7 + 64) (hex_after (cut_prefix (codes "sha256-") s)) h in
    elim (Option-cases (cut_prefix (codes "sha256-") s)) [
      | inl e ↦ absurd (let never = ap hex_after (sym e) ∙ after in cc never)
      | inr (rest, e) ↦
          let hex : all_bytes is_hex_byte rest ≡ true = ap hex_after (sym e) ∙ after in
          ap (has_byte b'/') (cut_prefix-eq (codes "sha256-") s rest e)
          ∙ no_byte-hex b'/' rest refl hex
    ]

-- the parts of a slot that have no slash
record IsPlainProducer (itoa : ℤ → Bytes) (law : IsItoa itoa) (p : Producer) : Type 0 where
  project : IsPlain p.project_key
  run : IsPlain p.run_id
  node : IsPlain p.node_id
  scope : PlainScope itoa law p.scope

validate-IsPlainProducer :
    (itoa : ℤ → Bytes) (law : IsItoa itoa) (p : Producer)
    → validate_producer_identity p ≡ none
    → IsPlainProducer itoa law p
unfolding validate_producer_identity
validate-IsPlainProducer itoa law p h =
    let (a, h₁) = (⨾_passes _ _).0 h in
    let (b, h₂) = (⨾_passes _ _).0 h₁ in
    let (e, h₃) = (⨾_passes _ _).0 h₂ in
    let (g, h₄) = (⨾_passes _ _).0 h₃ in
    let (i, h₅) = (⨾_passes _ _).0 h₄ in
    record {
      project =
          project_key-IsPlain p.project_key
            (not-false _ ((fail_if_passes _ IdentityError.bad_project).0 a));
      run = safe-IsPlain p.run_id (not-false _ ((fail_if_passes _ IdentityError.bad_run).0 e));
      node = safe-IsPlain p.node_id (not-false _ ((fail_if_passes _ IdentityError.bad_node).0 g));
      scope = validate-PlainScope itoa law p.scope h₅;
    }

module _ (itoa : ℤ → Bytes) (law : IsItoa itoa) where
  split-output_path :
      (p : Producer)
      → IsPlainProducer itoa law p
      → split_slash (output_path itoa p)
        ≡ codes "projects"
          ∷ p.project_key
          ∷ codes "runs"
          ∷ p.run_id
          ∷ codes "steps"
          ∷ node_segments itoa law p.node_id p.scope p.attempt
  unfolding output_path
  split-output_path p h =
      let node = p.node_id ++ (scope_path itoa p.scope ++ last_part itoa law p.attempt) in
      let run = p.run_id ++ (codes "/steps/" ++ node) in
      split-plain (codes "projects") (p.project_key ++ (codes "/runs/" ++ run)) refl
      ∙ ap (λ l. codes "projects" ∷ l) (split-plain p.project_key (codes "runs/" ++ run) h.project)
      ∙ ap (λ l. codes "projects" ∷ p.project_key ∷ l) (split-plain (codes "runs") run refl)
      ∙ ap (λ l. codes "projects" ∷ p.project_key ∷ codes "runs" ∷ l)
          (split-plain p.run_id (codes "steps/" ++ node) h.run
            ∙ ap (λ l. p.run_id ∷ l)
                (split-plain (codes "steps") node refl
                  ∙ ap (λ l. codes "steps" ∷ l)
                      (split-scope itoa law p.node_id p.scope p.attempt h.node h.scope)))

  node_segments-injective :
      (m n : Bytes) (a b : Option (List ScopeFrame)) (i j : ℤ)
      → PlainScope itoa law a
      → PlainScope itoa law b
      → node_segments itoa law m a i ≡ node_segments itoa law n b j
      → (m ≡ n) × (a ≡ b) × (i ≡ j)
  node_segments-injective m n none none i j u v h = (cc h, refl, law.distinct i j (cc h))
  node_segments-injective m n none (some []) i j u v h = absurd (cc h)
  node_segments-injective m n none (some (g ∷ b)) i j u v h = absurd (cc h)
  node_segments-injective m n (some []) none i j u v h = absurd (cc h)
  node_segments-injective m n (some (f ∷ a)) none i j u v h = absurd (cc h)
  node_segments-injective m n (some a) (some b) i j u v h =
      let later : segments itoa law a i ≡ segments itoa law b j = cc h in
      let (same, attempts) = segments-injective itoa law a b i j u v later in
      (cc h, ap some same, attempts)

  output_path-determines :
      (p q : Producer)
      → validate_producer_identity p ≡ none
      → validate_producer_identity q ≡ none
      → output_path itoa p ≡ output_path itoa q
      → (p.project_key ≡ q.project_key)
        × (p.run_id ≡ q.run_id)
        × (p.node_id ≡ q.node_id)
        × (p.scope ≡ q.scope)
        × (p.attempt ≡ q.attempt)
  output_path-determines p q valid_p valid_q same =
      let plain_p = validate-IsPlainProducer itoa law p valid_p in
      let plain_q = validate-IsPlainProducer itoa law q valid_q in
      let parts =
        sym (split-output_path p plain_p) ∙ ap split_slash same ∙ split-output_path q plain_q in
      let tail : node_segments itoa law p.node_id p.scope p.attempt
          ≡ node_segments itoa law q.node_id q.scope q.attempt =
        cc parts in
      let (node, scope, attempt) =
        node_segments-injective p.node_id q.node_id p.scope q.scope p.attempt q.attempt
          plain_p.scope plain_q.scope tail in
      (cc parts, cc parts, node, scope, attempt)

  -- Where the digits of an integer have no slash and determine it, two producers whose
  -- destinations are both valid and have the same manifest key have the same project, run, node,
  -- map frames and attempt.
  pub manifest_key-determines :
      (a b : Destination) (p q : Producer)
      → validate_destination itoa a p ≡ none
      → validate_destination itoa b q ≡ none
      → a.manifest_key ≡ b.manifest_key
      → (p.project_key ≡ q.project_key)
        × (p.run_id ≡ q.run_id)
        × (p.node_id ≡ q.node_id)
        × (p.scope ≡ q.scope)
        × (p.attempt ≡ q.attempt)
  unfolding validate_destination
  manifest_key-determines a b p q valid_a valid_b same =
      output_path-determines p q ((⨾_passes _ _).0 valid_a).0 ((⨾_passes _ _).0 valid_b).0 (
        sym (validate_destination_slot itoa a p valid_a)
        ∙ ap (λ (k : Key). k.value) same
        ∙ validate_destination_slot itoa b q valid_b)
