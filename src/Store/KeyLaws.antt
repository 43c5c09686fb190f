-- ===== src/Store/KeyLaws.antt =====
-- internal/datastore/datastore.go: which texts are keys.
use massive.Base.{
  Option, ℕ, Bytes, codes, List, [], ◌∷◌, ◌++◌, Bool, Bool-cases, true, false, Option-cases, ◌≢◌,
  ◌||◌, ◌==◌, bytes_equal_refl, has_byte, all_bytes, is_hex_byte, length, none, some, ◌≡◌, ◌↔◌, inl,
  inr, refl, sym, ap, ◌∙◌, arith,
}
use massive.Store.PathClean.{
  split_slash, path_clean, is_empty, is_dot, is_dots, is_rooted, clean_segments, reverse_onto,
  join_slash, join-split, or_dot, push_first,
}
use massive.Store.Keys.{
  Key, key, is_windows_abs, is_bad_segment, find_bad_segment, check_segments, parse_key,
  is_digest_hex, blob_key_sha256_hex,
}

clean-good :
    (rooted : Bool) (done segments : List Bytes)
    → find_bad_segment segments ≡ none
    → clean_segments rooted done segments ≡ reverse_onto segments done
unfolding clean_segments find_bad_segment
clean-good rooted done [] good = refl
clean-good rooted done (s ∷ rest) good = elim (Bool-cases (is_bad_segment s)) [
  | inl bad ↦ absurd (ground arith)
  | inr fine ↦
      let later : find_bad_segment rest ≡ none = ground arith in
      let here : (is_empty s || is_dot s) ≡ false = ground arith in
      let dots : is_dots s ≡ false = ground arith in
      rw (here, dots) (clean-good rooted (s ∷ done) rest later)
]

reverse_onto-reverse_onto :
    (segments done out : List Bytes)
    → reverse_onto (reverse_onto segments done) out ≡ reverse_onto done (segments ++ out)
reverse_onto-reverse_onto [] done out = refl
reverse_onto-reverse_onto (s ∷ rest) done out = reverse_onto-reverse_onto rest (s ∷ done) out

append_nil : (segments : List Bytes) → segments ++ [] ≡ segments
append_nil [] = refl
append_nil (s ∷ rest) = ap (λ r. s ∷ r) (append_nil rest)

-- path.Clean leaves a relative path alone that has no segment to clean.
path_clean-good :
    (value : Bytes)
    → is_empty value ≡ false
    → is_rooted value ≡ false
    → find_bad_segment (split_slash value) ≡ none
    → path_clean value ≡ value
unfolding path_clean
path_clean-good [] full relative good = cc
path_clean-good (c ∷ s) full relative good =
    let kept : join_slash (reverse_onto (clean_segments false [] (split_slash (c ∷ s))) [])
        ≡ c ∷ s =
      ap (λ l. join_slash (reverse_onto l [])) (clean-good false [] (split_slash (c ∷ s)) good)
      ∙ ap join_slash
          (reverse_onto-reverse_onto (split_slash (c ∷ s)) [] [] ∙ append_nil (split_slash (c ∷ s)))
      ∙ join-split (c ∷ s) in
    rw relative (ap or_dot kept)

-- A leading slash is an empty segment.
rooted_bad :
    (value : Bytes) → is_rooted value ≡ true → find_bad_segment (split_slash value) ≡ some []
unfolding find_bad_segment split_slash
rooted_bad [] h = cc
rooted_bad (c ∷ s) h = rw h refl

check_segments-good :
    (value : Bytes)
    → path_clean value ≡ value
    → check_segments value none ≡ key (record { value = value })
unfolding check_segments
check_segments-good value e = rw (e, bytes_equal_refl value) refl

check_segments-bad : (value segment : Bytes) (k : Key) → check_segments value (some segment) ≢ key k
unfolding check_segments
check_segments-bad value segment k = λ h. cc

accepted :
    (value : Bytes)
    → is_windows_abs value ≡ false
    → has_byte b'\\' value ≡ false
    → find_bad_segment (split_slash value) ≡ none
    → parse_key value ≡ key (record { value = value })
unfolding parse_key
accepted [] drive slash good = absurd (unfold find_bad_segment split_slash in cc)
accepted (c ∷ s) drive slash good = elim (Bool-cases (c == b'/')) [
  | inl rooted ↦ absurd (let bad = rooted_bad (c ∷ s) rooted in cc)
  | inr relative ↦
      let clean = path_clean-good (c ∷ s) refl relative good in
      rw (relative, drive, slash, good) (check_segments-good (c ∷ s) clean)
]

parsed :
    (value : Bytes)
    → parse_key value ≡ key (record { value = value })
    → (is_windows_abs value ≡ false)
      × (has_byte b'\\' value ≡ false)
      × (find_bad_segment (split_slash value) ≡ none)
unfolding parse_key
parsed [] h = absurd (ground arith)
parsed (c ∷ s) h = elim (Option-cases (find_bad_segment (split_slash (c ∷ s)))) [
  | inl good ↦ (ground arith, ground arith, good)
  | inr (segment, bad) ↦
      let never = check_segments-bad (c ∷ s) segment (record { value = c ∷ s }) in
      absurd (ground (arith, never))
]

-- A text is a key, and then the key is the text itself, exactly if it is not a path of a Windows
-- drive, has no backslash, and none of its segments between slashes is empty, one dot or two
-- dots.
pub parse_key_iff :
    (value : Bytes)
    → (parse_key value ≡ key (record { value = value })) ↔ (
        (is_windows_abs value ≡ false)
        × (has_byte b'\\' value ≡ false)
        × (find_bad_segment (split_slash value) ≡ none))
unfolding parse_key
parse_key_iff value = (λ h. parsed value h, λ h. accepted value h.0 h.1 h.2)

-- a text without a slash is one segment
split-one : (s : Bytes) → has_byte b'/' s ≡ false → split_slash s ≡ s ∷ []
unfolding split_slash push_first
split-one [] h = refl
split-one (c ∷ s) h =
    let here : (c == b'/') ≡ false = ground arith in
    let ih : split_slash s ≡ s ∷ [] = split-one s (ground arith) in rw (here, ih) refl

pub no_byte-hex :
    (b : ℕ) (s : Bytes)
    → is_hex_byte b ≡ false
    → all_bytes is_hex_byte s ≡ true
    → has_byte b s ≡ false
no_byte-hex b [] h hex = refl
no_byte-hex b (c ∷ s) h hex = elim (Bool-cases (c == b)) [
  | inl same ↦
      let e : c ≡ b = ground arith in
      let digit : is_hex_byte c ≡ true = ground arith in
      let none_such = sym digit ∙ ap is_hex_byte e ∙ h in cc none_such
  | inr other ↦ rw other (no_byte-hex b s h (ground arith))
]

long_segment : (text : Bytes) → length text ≡ 64 → is_bad_segment text ≡ false
long_segment [] h = absurd (omega arith)
long_segment (a ∷ []) h = absurd (omega arith)
long_segment (a ∷ b ∷ []) h = absurd (omega arith)
long_segment (a ∷ b ∷ c ∷ rest) h = ground arith

digest_path-good :
    (text : Bytes)
    → is_digest_hex text ≡ true
    → find_bad_segment (split_slash (codes "blobs/sha256/" ++ text)) ≡ none
unfolding is_digest_hex find_bad_segment split_slash push_first
digest_path-good text hex =
    let plain : has_byte b'/' text ≡ false = no_byte-hex b'/' text refl (ground arith) in
    let long : is_bad_segment text ≡ false = long_segment text (ground arith) in
    rw (split-one text plain, long) refl

digest_key :
    (text : Bytes)
    → is_digest_hex text ≡ true
    → parse_key (codes "blobs/sha256/" ++ text)
      ≡ key (record { value = codes "blobs/sha256/" ++ text })
unfolding is_digest_hex is_windows_abs
digest_key text hex =
    (parse_key_iff (codes "blobs/sha256/" ++ text)).1
      (refl, no_byte-hex b'\\' text refl (ground arith), digest_path-good text hex)

-- A text has the blob key of its own bytes below blobs/sha256 exactly if it is 64 lower-case
-- hexadecimal digits.
pub blob_key_sha256_hex_iff :
    (text : Bytes)
    → (blob_key_sha256_hex text ≡ key (record { value = codes "blobs/sha256/" ++ text }))
      ↔ (is_digest_hex text ≡ true)
unfolding blob_key_sha256_hex
blob_key_sha256_hex_iff text = elim (Bool-cases (is_digest_hex text)) [
  | inl hex ↦ (λ _. hex, λ _. rw hex (digest_key text hex))
  | inr other ↦ (λ h. ground arith, λ h. cc)
]

check_segments_value :
    (value : Bytes) (o : Option Bytes) (k : Key) → check_segments value o ≡ key k → k.value ≡ value
unfolding check_segments
check_segments_value value (some segment) k h = cc
check_segments_value value none k h = ground arith

-- A key is its text.
pub parse_key_value : (value : Bytes) (k : Key) → parse_key value ≡ key k → k.value ≡ value
unfolding parse_key
parse_key_value value k h =
    let checked = check_segments_value value (find_bad_segment (split_slash value)) k in
    ground (arith, checked)

pub blob_key_value :
    (text : Bytes) (k : Key)
    → blob_key_sha256_hex text ≡ key k
    → k.value ≡ codes "blobs/sha256/" ++ text
unfolding blob_key_sha256_hex
blob_key_value text k h =
    let parsed = parse_key_value (codes "blobs/sha256/" ++ text) k in ground (arith, parsed)
