-- ===== src/Artifact/SlotNames.antt =====
-- internal/artifact/runtime.go, outputManifestKey: different producers of a plan have different slots.
use mathlib.Core.List.{append_assoc}
use massive.Base.{
  ℕ, Bytes, codes, has_byte, all_bytes, List, [], ◌∷◌, ◌++◌, Bool, Bool-cases, true, false, ◌&&◌,
  ◌==◌, Option, none, some, ℤ, ◌≡◌, inl, inr, refl, sym, ap, ◌∙◌, arith, All,
}
use massive.Store.PathClean.{split_slash, push_first}
use massive.Artifact.Identity.{
  ScopeFrame, is_segment_byte, is_safe_path_segment, frames_path, scope_path,
}

regroup : (a p b c d : Bytes) → (a ++ (p ++ (b ++ c))) ++ d ≡ a ++ (p ++ (b ++ (c ++ d)))
regroup a p b c d = simp append_assoc

-- text without a slash
abbrev pub IsPlain : Bytes → Type 0
IsPlain s = has_byte b'/' s ≡ false

-- Splitting a plain text before a slash gives the text first.
pub split-plain :
    (s rest : Bytes) → IsPlain s → split_slash (s ++ b'/' ∷ rest) ≡ s ∷ split_slash rest
unfolding split_slash push_first
split-plain [] rest h = refl
split-plain (c ∷ s) rest h =
    let here : (c == b'/') ≡ false = ground arith in
    let ih : split_slash (s ++ b'/' ∷ rest) ≡ s ∷ split_slash rest =
      split-plain s rest (ground arith) in
    rw (here, ih) refl

segment_byte-plain : (c : ℕ) → is_segment_byte c ≡ true → (c == b'/') ≡ false
segment_byte-plain c h = elim (Bool-cases (c == b'/')) [
  | inr other ↦ other
  | inl same ↦
      let e : c ≡ b'/' = ground arith in let never = ap is_segment_byte (sym e) ∙ h in cc never
]

pub both_true : (a b : Bool) → (a && b) ≡ true → (a ≡ true) × (b ≡ true)
both_true true true h = (refl, refl)
both_true true false h = cc
both_true false b h = cc

all_segment-IsPlain : (s : Bytes) → all_bytes is_segment_byte s ≡ true → IsPlain s
all_segment-IsPlain [] h = refl
all_segment-IsPlain (c ∷ s) h =
    let (first, rest) = both_true (is_segment_byte c) (all_bytes is_segment_byte s) h in
    rw (segment_byte-plain c first) (all_segment-IsPlain s rest)

pub safe-IsPlain : (s : Bytes) → is_safe_path_segment s ≡ true → IsPlain s
unfolding is_safe_path_segment
safe-IsPlain s h = all_segment-IsPlain s (both_true _ (all_bytes is_segment_byte s) h).1

abbrev pub PlainFrame : ScopeFrame → Type 0
PlainFrame f = IsPlain f.map_id × (f.kind ≡ codes "map-item")

-- what the program relies on: the digits of an integer have no slash and determine it
pub record IsItoa (itoa : ℤ → Bytes) : Type 0 where
  pub plain : (n : ℤ) → IsPlain (itoa n)
  pub distinct : (m n : ℤ) → itoa m ≡ itoa n → m ≡ n

module _ (itoa : ℤ → Bytes) (law : IsItoa itoa) where
  abbrev pub last_part : ℤ → Bytes
  last_part attempt = codes "/" ++ (itoa attempt ++ codes "/output-manifest.json")

  -- the segments after the node
  abbrev pub segments : List ScopeFrame → ℤ → List Bytes
  segments [] attempt = itoa attempt ∷ codes "output-manifest.json" ∷ []
  segments (f ∷ frames) attempt =
      codes "maps" ∷ f.map_id ∷ codes "items" ∷ itoa f.index ∷ segments frames attempt

  split-frames :
      (text : Bytes) (frames : List ScopeFrame) (attempt : ℤ)
      → IsPlain text
      → All PlainFrame frames
      → split_slash (text ++ (frames_path itoa frames ++ last_part attempt))
        ≡ text ∷ segments frames attempt
  unfolding frames_path split_slash push_first
  split-frames text [] attempt plain fine =
      split-plain text (itoa attempt ++ codes "/output-manifest.json") plain
      ∙ ap (λ l. text ∷ l)
          (split-plain (itoa attempt) (codes "output-manifest.json") (law.plain attempt))
  split-frames text (f ∷ frames) attempt plain ((id_plain, kind), fine) =
      let later = itoa f.index ++ (frames_path itoa frames ++ last_part attempt) in
      let ih = split-frames (itoa f.index) frames attempt (law.plain f.index) fine in
      ap (λ x. split_slash (text ++ (codes "/maps/" ++ x)))
        (regroup f.map_id (codes "/items/") (itoa f.index) (frames_path itoa frames)
          (last_part attempt))
      ∙ split-plain text (codes "maps/" ++ (f.map_id ++ (codes "/items/" ++ later))) plain
      ∙ ap (λ l. text ∷ l)
          (split-plain (codes "maps") (f.map_id ++ (codes "/items/" ++ later)) refl)
      ∙ ap (λ l. text ∷ codes "maps" ∷ l) (split-plain f.map_id (codes "items/" ++ later) id_plain)
      ∙ ap (λ l. text ∷ codes "maps" ∷ f.map_id ∷ l) (split-plain (codes "items") later refl)
      ∙ ap (λ l. text ∷ codes "maps" ∷ f.map_id ∷ codes "items" ∷ l) ih

  -- the segments after the word for steps
  abbrev pub node_segments : Bytes → Option (List ScopeFrame) → ℤ → List Bytes
  node_segments node none attempt = node ∷ segments [] attempt
  node_segments node (some frames) attempt = node ∷ codes "scopes" ∷ segments frames attempt

  abbrev pub PlainScope : Option (List ScopeFrame) → Type 0
  PlainScope none = Unit {0}
  PlainScope (some frames) = All PlainFrame frames

  pub split-scope :
      (node : Bytes) (scope : Option (List ScopeFrame)) (attempt : ℤ)
      → IsPlain node
      → PlainScope scope
      → split_slash (node ++ (scope_path itoa scope ++ last_part attempt))
        ≡ node_segments node scope attempt
  split-scope node none attempt plain fine =
      split-plain node (itoa attempt ++ codes "/output-manifest.json") plain
      ∙ ap (λ l. node ∷ l)
          (split-plain (itoa attempt) (codes "output-manifest.json") (law.plain attempt)
            ∙ ap (λ l. itoa attempt ∷ l) (unfold split_slash push_first in refl))
  split-scope node (some frames) attempt plain fine =
      split-plain node (codes "scopes" ++ (frames_path itoa frames ++ last_part attempt)) plain
      ∙ ap (λ l. node ∷ l) (split-frames (codes "scopes") frames attempt refl fine)

  pub segments-injective :
      (a b : List ScopeFrame) (m n : ℤ)
      → All PlainFrame a
      → All PlainFrame b
      → segments a m ≡ segments b n
      → (a ≡ b) × (m ≡ n)
  segments-injective [] [] m n u v h = (refl, law.distinct m n (cc h))
  segments-injective [] (g ∷ b) m n u v h = absurd (cc h)
  segments-injective (f ∷ a) [] m n u v h = absurd (cc h)
  segments-injective (f ∷ a) (g ∷ b) m n (u, us) (v, vs) h =
      let later : segments a m ≡ segments b n = cc h in
      let (same, attempts) = segments-injective a b m n us vs later in
      let ids : f.map_id ≡ g.map_id = cc h in
      let numbers : itoa f.index ≡ itoa g.index = cc h in
      let index = law.distinct f.index g.index numbers in
      let kinds : f.kind ≡ g.kind = u.1 ∙ sym v.1 in
      let heads : f ≡ g = ground (arith, kinds, ids, index) in (λ i. heads i ∷ same i, attempts)
