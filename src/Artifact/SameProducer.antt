-- ===== src/Artifact/SameProducer.antt =====
-- internal/artifact/runtime.go, sameProducer: the comparison field by field is equality.
use massive.Base.{
  bytes_equal_iff, List, [], ◌∷◌, true, Option, none, some, ℤ, pos, negsuc, ◌≡◌, ◌↔◌, refl, ap,
  arith,
}
use massive.Artifact.Identity.{
  ScopeFrame, Producer, same_index, same_frame, same_frames, same_scope, same_producer,
}

same_index_iff : (a b : ℤ) → (same_index a b ≡ true) ↔ (a ≡ b)
same_index_iff (pos m) (pos n) = (λ h. ground arith, λ h. ground arith)
same_index_iff (pos m) (negsuc n) = (λ h. ground arith, λ h. ground arith)
same_index_iff (negsuc m) (pos n) = (λ h. ground arith, λ h. ground arith)
same_index_iff (negsuc m) (negsuc n) = (λ h. ground arith, λ h. ground arith)

same_frame_iff : (a b : ScopeFrame) → (same_frame a b ≡ true) ↔ (a ≡ b)
unfolding same_frame
same_frame_iff a b =
    let kinds = bytes_equal_iff a.kind b.kind in
    let maps = bytes_equal_iff a.map_id b.map_id in
    let indices = same_index_iff a.index b.index in
    (
      λ h. ground (arith, kinds.0, maps.0, indices.0),
      λ h. ground (arith, kinds.1, maps.1, indices.1),
    )

same_frames_iff : (a b : List ScopeFrame) → (same_frames a b ≡ true) ↔ (a ≡ b)
unfolding same_frames
same_frames_iff [] [] = (λ h. refl, λ h. refl)
same_frames_iff [] (y ∷ ys) = (λ h. ground arith, λ h. ground arith)
same_frames_iff (x ∷ xs) [] = (λ h. ground arith, λ h. ground arith)
same_frames_iff (x ∷ xs) (y ∷ ys) =
    let heads = same_frame_iff x y in
    let tails = same_frames_iff xs ys in
    (λ h. ground (arith, heads.0, tails.0), λ h. ground (arith, heads.1, tails.1))

same_scope_iff : (a b : Option (List ScopeFrame)) → (same_scope a b ≡ true) ↔ (a ≡ b)
unfolding same_scope
same_scope_iff none none = (λ h. refl, λ h. refl)
same_scope_iff none (some b) = (λ h. ground arith, λ h. ground arith)
same_scope_iff (some a) none = (λ h. ground arith, λ h. ground arith)
same_scope_iff (some a) (some b) =
    let frames = same_frames_iff a b in (λ h. ap some (frames.0 h), λ h. frames.1 (ground arith))

-- The comparison of two producers field by field and frame by frame holds exactly if they are
-- equal.
pub same_producer_iff : (a b : Producer) → (same_producer a b ≡ true) ↔ (a ≡ b)
unfolding same_producer
same_producer_iff a b =
    let projects = bytes_equal_iff a.project_key b.project_key in
    let plans = bytes_equal_iff a.plan_hash b.plan_hash in
    let runs = bytes_equal_iff a.run_id b.run_id in
    let nodes = bytes_equal_iff a.node_id b.node_id in
    let attempts = same_index_iff a.attempt b.attempt in
    let scopes = same_scope_iff a.scope b.scope in
    (
      λ h. ground (arith, projects.0, plans.0, runs.0, nodes.0, attempts.0, scopes.0),
      λ h. ground (arith, projects.1, plans.1, runs.1, nodes.1, attempts.1, scopes.1),
    )
