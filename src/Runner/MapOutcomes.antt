-- ===== src/Runner/MapOutcomes.antt =====
-- internal/orchestrator/orchestrator.go, `mapOutcomesByIndex`: one outcome for each dispatched item.
-- The map from indexes to outcomes is a list of pairs, in the order of the insertions.
use mathlib.Core.Path.{subst}
use massive.Base.{
  ◌⊎◌, ℕ, String, ◌≡◌, refl, sym, ◌∙◌, ap, Option, none, some, List, [], ◌∷◌, Bool, Bool-cases,
  true, false, not, ◌&&◌, ◌||◌, ◌==◌, ◌=ₛ◌, =ₛ_iff, inl, inr, arith, if◌then◌else◌, length, pos,
  negsuc,
}
use massive.Retry.Outcome.{Outcome, MapItemScopeFrame}

pub data ProtocolError : Type 0 where
  wrong_count omitted : ProtocolError
  unexpected_identity outside_scope : ProtocolError
  duplicate : ℕ → ProtocolError

abbrev pub Indexed : Type 0
Indexed = List (ℕ × Outcome)

pub data Matched : Type 0 where
  ok : Indexed → Matched
  err : ProtocolError → Matched

abbrev found_or : Indexed → Matched → Indexed
found_or default (ok found) = found
found_or default (err e) = default

ok_injective : {a b : Indexed} → ok a ≡ ok b → a ≡ b
ok_injective {a} h = ap (found_or a) h

Matched-cases :
    (m : Matched) → ((found : Indexed) × (m ≡ ok found)) ⊎ ((e : ProtocolError) × (m ≡ err e))
Matched-cases (ok found) = inl (found, refl)
Matched-cases (err e) = inr (e, refl)

-- `wanted[index]`
abbrev pub is_wanted : ℕ → List ℕ → Bool
is_wanted i [] = false
is_wanted i (j ∷ rest) = i == j || is_wanted i rest

-- `_, exists := byIndex[index]`
abbrev pub has_index : ℕ → Indexed → Bool
has_index i [] = false
has_index i (p ∷ rest) = p.0 == i || has_index i rest

-- the index of a frame of the map item scope
unfoldable pub frame_item : String → List ℕ → MapItemScopeFrame → Option ℕ
frame_item map_id dispatched frame = elim frame.index [
  | negsuc n ↦ none
  | pos i ↦
      if not (frame.kind =ₛ "map-item")
        || not (frame.map_id =ₛ map_id)
        || not (is_wanted i dispatched)
      then none
      else some i
]

module _ (map_id : String) (attempt : ℕ) (dispatched : List ℕ) where
  unfoldable pub match_item : Outcome → Option ℕ → Indexed → Matched
  match_item o none found = err outside_scope
  match_item o (some i) found = if has_index i found then err (duplicate i) else ok ((i, o) ∷ found)

  unfoldable pub match_frames : Outcome → Option (List MapItemScopeFrame) → Indexed → Matched
  match_frames o none found = err unexpected_identity
  match_frames o (some []) found = err unexpected_identity
  match_frames o (some (frame ∷ [])) found = match_item o (frame_item map_id dispatched frame) found
  match_frames o (some (frame ∷ other ∷ rest)) found = err unexpected_identity

  -- the body of the loop
  unfoldable pub match_outcome : Outcome → Indexed → Matched
  match_outcome o found =
      if not (o.node_id =ₛ map_id) || not (o.attempt == attempt)
      then err unexpected_identity
      else match_frames o o.scope found

  unfoldable pub match_outcomes : List Outcome → Indexed → Matched
  match_outcomes [] found = ok found
  match_outcomes (o ∷ rest) found = elim (match_outcome o found) [
    | ok found' ↦ match_outcomes rest found'
    | err e ↦ err e
  ]

  unfoldable pub completed : Bool → Matched → Matched
  completed require_complete (err e) = err e
  completed require_complete (ok found) =
      if require_complete && not (length found == length dispatched) then err omitted else ok found

  unfoldable pub map_outcomes_by_index : Bool → List Outcome → Matched
  map_outcomes_by_index require_complete outcomes =
      if require_complete && not (length outcomes == length dispatched)
      then err wrong_count
      else completed require_complete (match_outcomes outcomes [])

  -- An entry is an outcome of the attempt at the dispatched item that its one frame names.
  pub record IsReported (p : ℕ × Outcome) : Type 0 where
    pub frame : MapItemScopeFrame
    pub one_frame : p.1.scope ≡ some (frame ∷ [])
    pub kind : frame.kind ≡ "map-item"
    pub frame_map : frame.map_id ≡ map_id
    pub frame_index : frame.index ≡ pos p.0
    pub wanted : is_wanted p.0 dispatched ≡ true
    pub node : p.1.node_id ≡ map_id
    pub own_attempt : p.1.attempt ≡ attempt

  abbrev pub AreReported : Indexed → Type 0
  AreReported [] = Unit
  AreReported (p ∷ rest) = IsReported p × (has_index p.0 rest ≡ false) × AreReported rest

  -- the outcomes of the entries, the first that was entered in front
  abbrev pub entered : Indexed → List Outcome → List Outcome
  entered [] later = later
  entered (p ∷ rest) later = entered rest (p.1 ∷ later)

  -- the entry that an outcome adds
  record Entry (o : Outcome) (found after : Indexed) : Type 0 where
    item : ℕ
    reported : IsReported (item, o)
    fresh : has_index item found ≡ false
    added : after ≡ (item, o) ∷ found

  record InScope (frame : MapItemScopeFrame) (i : ℕ) : Type 0 where
    kind : frame.kind ≡ "map-item"
    frame_map : frame.map_id ≡ map_id
    frame_index : frame.index ≡ pos i
    wanted : is_wanted i dispatched ≡ true

  frame_item-InScope :
      (frame : MapItemScopeFrame) (i : ℕ)
      → frame_item map_id dispatched frame ≡ some i
      → InScope frame i
  unfolding frame_item
  frame_item-InScope frame i h = record {
    kind = (=ₛ_iff frame.kind "map-item").0 (ground arith);
    frame_map = (=ₛ_iff frame.map_id map_id).0 (ground arith);
    frame_index = ground arith;
    wanted = ground arith;
  }

  match_item-added :
      (o : Outcome) (slot : Option ℕ) (found after : Indexed)
      → match_item o slot found ≡ ok after
      → (i : ℕ) × (slot ≡ some i) × (has_index i found ≡ false) × (after ≡ (i, o) ∷ found)
  unfolding match_item
  match_item-added o none found after h = absurd (ground arith)
  match_item-added o (some i) found after h = elim (Bool-cases (has_index i found)) [
    | inl taken ↦ absurd (ground arith)
    | inr fresh ↦ (i, refl, fresh, sym (ok_injective (rw fresh at h)))
  ]

  match_frames-Entry :
      (o : Outcome) (frames : Option (List MapItemScopeFrame)) (found after : Indexed)
      → o.scope ≡ frames
      → o.node_id ≡ map_id
      → o.attempt ≡ attempt
      → match_frames o frames found ≡ ok after
      → Entry o found after
  unfolding match_frames
  match_frames-Entry o none found after scope node own h = absurd (ground arith)
  match_frames-Entry o (some []) found after scope node own h = absurd (ground arith)
  match_frames-Entry o (some (frame ∷ [])) found after scope node own h =
      let (i, at, fresh, added) =
        match_item-added o (frame_item map_id dispatched frame) found after h in
      let inside = frame_item-InScope frame i at in
      record {
        item = i;
        reported = record {
          frame = frame;
          one_frame = scope;
          kind = inside.kind;
          frame_map = inside.frame_map;
          frame_index = inside.frame_index;
          wanted = inside.wanted;
          node = node;
          own_attempt = own;
        };
        fresh = fresh;
        added = added;
      }
  match_frames-Entry o (some (frame ∷ other ∷ rest)) found after scope node own h =
      absurd (ground arith)

  match_outcome-Entry :
      (o : Outcome) (found after : Indexed) → match_outcome o found ≡ ok after → Entry o found after
  unfolding match_outcome
  match_outcome-Entry o found after h =
      elim (Bool-cases (not (o.node_id =ₛ map_id) || not (o.attempt == attempt))) [
        | inl foreign ↦ absurd (ground arith)
        | inr own ↦
            match_frames-Entry o o.scope found after refl
              ((=ₛ_iff o.node_id map_id).0 (ground arith)) (ground arith) (ground arith)
      ]

  match_outcomes-AreReported :
      (outcomes : List Outcome) (found after : Indexed)
      → AreReported found
      → match_outcomes outcomes found ≡ ok after
      → AreReported after × (entered after [] ≡ entered found outcomes)
  unfolding match_outcomes
  match_outcomes-AreReported [] found after good h =
      let same = ok_injective h in (subst AreReported same good, ap (λ l. entered l []) (sym same))
  match_outcomes-AreReported (o ∷ rest) found after good h =
      elim (Matched-cases (match_outcome o found)) [
        | inl (next, e) ↦
            let entry = match_outcome-Entry o found next e in
            let ready = subst AreReported (sym entry.added) (entry.reported, entry.fresh, good) in
            let (all, order) = match_outcomes-AreReported rest next after ready (ground arith) in
            (all, order ∙ ap (λ l. entered l rest) entry.added)
        | inr (e, bad) ↦ absurd (ground arith)
      ]

-- Where the outcomes of a round of map items are accepted, the entries in the order of their
-- insertion hold exactly the given outcomes, each under the dispatched index that its one frame,
-- a map-item frame of that map, names, and is of that map and attempt, no two entries have the
-- same index, and unless a partial answer is allowed there are as many entries as dispatched
-- items.
pub map_outcomes_by_index-AreReported :
    (map_id : String) (attempt : ℕ) (dispatched : List ℕ) (require_complete : Bool)
    (outcomes : List Outcome) (found : Indexed)
    → map_outcomes_by_index map_id attempt dispatched require_complete outcomes ≡ ok found
    → AreReported map_id attempt dispatched found
      × (entered map_id attempt dispatched found [] ≡ outcomes)
      × ((require_complete ≡ false) ⊎ (length found ≡ length dispatched))
unfolding map_outcomes_by_index completed
map_outcomes_by_index-AreReported map_id attempt dispatched require_complete outcomes found h =
    elim (Matched-cases (match_outcomes map_id attempt dispatched outcomes [])) [
      | inl (all, e) ↦
          let same : ok all ≡ ok found = ground arith in
          let (reported, order) =
            match_outcomes-AreReported map_id attempt dispatched outcomes [] found tt (e ∙ same) in
          (
            reported,
            order,
            elim (Bool-cases require_complete) [
              | inl complete ↦ inr (ground arith)
              | inr partial ↦ inl partial
            ],
          )
      | inr (e, bad) ↦ absurd (ground arith)
    ]
