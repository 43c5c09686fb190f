-- ===== src/Artifact/Identity.antt =====
-- internal/artifact/runtime.go: who produces an artifact, and the key of its manifest.
use massive.Base.{
  ℕ, ◌+◌, Bytes, codes, bytes_equal, cut_prefix, has_byte, all_bytes, is_hex_byte, List, [], ◌∷◌,
  ◌++◌, Bool, true, false, not, ◌&&◌, ◌||◌, ltb, leb, ◌==◌, Option, none, some, ℤ, pos, negsuc,
  length, fail_if, ◌⨾◌, first_error,
}
use massive.Store.Keys.{Key, Parsed, key, invalid, parse_key, blob_key_sha256_hex}

abbrev pub max_json_safe_integer : ℕ
max_json_safe_integer = 9007199254740991

pub record ScopeFrame : Type 0 where
  pub kind : Bytes
  pub map_id : Bytes
  pub index : ℤ

-- an ExecutionScope is its frames
pub record Producer : Type 0 where
  pub project_key : Bytes
  pub plan_hash : Bytes
  pub run_id : Bytes
  pub node_id : Bytes
  pub attempt : ℤ
  pub scope : Option (List ScopeFrame)

pub record Destination : Type 0 where
  pub manifest_key : Key
  pub schema : Bytes

pub data IdentityError : Type 0 where
  bad_project bad_plan bad_run bad_node bad_attempt empty_scope bad_frame : IdentityError
  bad_schema bad_key wrong_slot : IdentityError

-- a byte of a path segment
abbrev pub is_segment_byte : ℕ → Bool
is_segment_byte c =
    leb b'a' c && leb c b'z'
    || leb b'A' c && leb c b'Z'
    || leb b'0' c && leb c b'9'
    || has_byte c (codes "_.@:#-")

unfoldable pub is_safe_path_segment : Bytes → Bool
is_safe_path_segment value =
    not (
      length value == 0
      || ltb 128 (length value)
      || bytes_equal value (codes ".")
      || bytes_equal value (codes ".."))
    && all_bytes is_segment_byte value

unfoldable pub is_lower_hex : Bytes → Bool
is_lower_hex value = all_bytes is_hex_byte value

abbrev pub hex_after : Option Bytes → Bool
hex_after none = false
hex_after (some rest) = is_lower_hex rest

unfoldable pub is_safe_project_key : Bytes → Bool
is_safe_project_key value = length value == 7 + 64 && hex_after (cut_prefix (codes "sha256-") value)

unfoldable pub is_hash_ref : Bytes → Bool
is_hash_ref value = length value == 7 + 64 && hex_after (cut_prefix (codes "sha256:") value)

-- an index below zero or above the exact integers of JSON
abbrev pub is_bad_index : ℤ → Bool
is_bad_index (pos n) = ltb max_json_safe_integer n
is_bad_index (negsuc n) = true

abbrev pub is_bad_attempt : ℤ → Bool
is_bad_attempt (pos n) = ltb n 1 || ltb max_json_safe_integer n
is_bad_attempt (negsuc n) = true

unfoldable pub check_frame : ScopeFrame → Option IdentityError
check_frame frame =
    fail_if
      (not (bytes_equal frame.kind (codes "map-item"))
        || not (is_safe_path_segment frame.map_id)
        || is_bad_index frame.index)
      bad_frame

unfoldable pub validate_execution_scope : Option (List ScopeFrame) → Option IdentityError
validate_execution_scope none = none
validate_execution_scope (some frames) =
    fail_if (length frames == 0) empty_scope ⨾ first_error check_frame frames

unfoldable pub validate_producer_identity : Producer → Option IdentityError
validate_producer_identity p =
    fail_if (not (is_safe_project_key p.project_key)) bad_project
    ⨾ fail_if (not (is_hash_ref p.plan_hash)) bad_plan
    ⨾ fail_if (not (is_safe_path_segment p.run_id)) bad_run
    ⨾ fail_if (not (is_safe_path_segment p.node_id)) bad_node
    ⨾ fail_if (is_bad_attempt p.attempt) bad_attempt
    ⨾ validate_execution_scope p.scope

-- `frame != other` on the structs
abbrev pub same_index : ℤ → ℤ → Bool
same_index (pos m) (pos n) = m == n
same_index (negsuc m) (negsuc n) = m == n
same_index (pos m) (negsuc n) = false
same_index (negsuc m) (pos n) = false

unfoldable pub same_frame : ScopeFrame → ScopeFrame → Bool
same_frame a b =
    bytes_equal a.kind b.kind && bytes_equal a.map_id b.map_id && same_index a.index b.index

unfoldable pub same_frames : List ScopeFrame → List ScopeFrame → Bool
same_frames [] [] = true
same_frames (a ∷ xs) (b ∷ ys) = same_frame a b && same_frames xs ys
same_frames _ _ = false

unfoldable pub same_scope : Option (List ScopeFrame) → Option (List ScopeFrame) → Bool
same_scope none none = true
same_scope none (some b) = false
same_scope (some a) none = false
same_scope (some a) (some b) = same_frames a b

unfoldable pub same_producer : Producer → Producer → Bool
same_producer a b =
    bytes_equal a.project_key b.project_key
    && bytes_equal a.plan_hash b.plan_hash
    && bytes_equal a.run_id b.run_id
    && bytes_equal a.node_id b.node_id
    && same_index a.attempt b.attempt
    && same_scope a.scope b.scope

abbrev pub parsed_key : Parsed → Option Key
parsed_key (key k) = some k
parsed_key (invalid e) = none

-- artifact.blobKey
abbrev pub hash_key : Option Bytes → Option Key
hash_key none = none
hash_key (some text) = parsed_key (blob_key_sha256_hex text)

unfoldable pub blob_key : Bytes → Option Key
blob_key hash = hash_key (cut_prefix (codes "sha256:") hash)

-- over strconv.Itoa
module _ (itoa : ℤ → Bytes) where
  unfoldable pub frames_path : List ScopeFrame → Bytes
  frames_path [] = []
  frames_path (frame ∷ rest) =
      codes "/maps/"
      ++ (frame.map_id ++ (codes "/items/" ++ (itoa frame.index ++ frames_path rest)))

  abbrev pub scope_path : Option (List ScopeFrame) → Bytes
  scope_path none = []
  scope_path (some frames) = codes "/scopes" ++ frames_path frames

  unfoldable pub output_path : Producer → Bytes
  output_path p =
      codes "projects/"
      ++ (p.project_key
          ++ (codes "/runs/"
              ++ (p.run_id
                  ++ (codes "/steps/"
                      ++ (p.node_id
                          ++ (scope_path p.scope
                              ++ (codes "/"
                                  ++ (itoa p.attempt ++ codes "/output-manifest.json"))))))))

  unfoldable pub output_manifest_key : Producer → Parsed
  output_manifest_key p = parse_key (output_path p)

  abbrev pub check_slot : Key → Parsed → Option IdentityError
  check_slot manifest_key (invalid e) = some bad_key
  check_slot manifest_key (key want) =
      fail_if (not (bytes_equal manifest_key.value want.value)) wrong_slot

  unfoldable pub validate_destination : Destination → Producer → Option IdentityError
  validate_destination destination p =
      validate_producer_identity p
      ⨾ fail_if (not (is_hash_ref destination.schema)) bad_schema
      ⨾ check_slot destination.manifest_key (output_manifest_key p)
