-- ===== src/Store/Keys.antt =====
-- internal/datastore/datastore.go: object keys. filepath.IsAbs is that of a Unix system.
use massive.Base.{
  ℕ, Bytes, codes, List, [], ◌∷◌, ◌++◌, Bool, false, not, ◌&&◌, ◌||◌, ◌==◌, leb, bytes_equal,
  has_byte, all_bytes, is_hex_byte, length, if◌then◌else◌, Option, none, some,
}
use massive.Store.PathClean.{split_slash, path_clean, is_empty, is_dot, is_dots, is_rooted}

pub record Key : Type 0 where
  pub value : Bytes

pub data KeyError : Type 0 where
  empty_key leading_slash absolute_key backslash : KeyError
  bad_segment : Bytes → KeyError
  not_normalized bad_digest : KeyError

pub data Parsed : Type 0 where
  key : Key → Parsed
  invalid : KeyError → Parsed

abbrev pub is_letter : ℕ → Bool
is_letter c = leb b'A' c && leb c b'Z' || leb b'a' c && leb c b'z'

-- a path such as C:/ or C:\ on another system than Windows
unfoldable pub is_windows_abs : Bytes → Bool
is_windows_abs (drive ∷ colon ∷ slash ∷ rest) =
    is_letter drive && (colon == b':') && (slash == b'/' || slash == b'\\')
is_windows_abs _ = false

-- a segment that is refused
abbrev pub is_bad_segment : Bytes → Bool
is_bad_segment segment = is_empty segment || is_dot segment || is_dots segment

unfoldable pub find_bad_segment : List Bytes → Option Bytes
find_bad_segment [] = none
find_bad_segment (segment ∷ rest) =
    if is_bad_segment segment then some segment else find_bad_segment rest

-- the checks after the one for a backslash
unfoldable pub check_segments : Bytes → Option Bytes → Parsed
check_segments value (some segment) = invalid (bad_segment segment)
check_segments value none =
    if bytes_equal (path_clean value) value
    then key (record { value = value })
    else invalid not_normalized

unfoldable pub parse_key : Bytes → Parsed
unfolding check_segments
parse_key value =
    if is_empty value
    then invalid empty_key
    else if is_rooted value
    then invalid leading_slash
    else if is_rooted value || is_windows_abs value
    then invalid absolute_key
    else if has_byte b'\\' value
    then invalid backslash
    else check_segments value (find_bad_segment (split_slash value))

-- digestHexPattern, ^[0-9a-f]{64}$
unfoldable pub is_digest_hex : Bytes → Bool
is_digest_hex text = length text == 64 && all_bytes is_hex_byte text

unfoldable pub blob_key_sha256_hex : Bytes → Parsed
blob_key_sha256_hex text =
    if not (is_digest_hex text)
    then invalid bad_digest
    else parse_key (codes "blobs/sha256/" ++ text)
