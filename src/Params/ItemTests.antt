-- ===== src/Params/ItemTests.antt =====
-- A list above the inline limit, the reference to it, and the envelopes of its items.
use mathlib.Core.Path.{subst}
use massive.Base.{
  ℕ, zero, suc, Bytes, List, [], ◌∷◌, ◌==◌, Option, none, some, if◌then◌else◌, length, replicate,
  ◌≡◌, refl, sym, ap, ◌∙◌, ◌+◌, arith,
}
use massive.Base.Results.{good, bad}
use massive.MapExec.Collect.{Item, ok, expand, expand_items, is_canonical, opens_array}
use massive.Store.PathClean.{split_slash, push_first, path_clean, clean_segments, join_slash}
use massive.Store.Keys.{
  blob_key_sha256_hex, is_digest_hex, parse_key, check_segments, find_bad_segment, is_windows_abs,
}
use massive.Store.Contract.{Datastore, not_found}
use massive.Params.Codec.{
  Ref, Value, Json, json_type, decode, decode_reference, parse_ref, above, resolve, resolve_at,
  check_object, read_body, check_body, ref_for, blob_key,
}
use massive.Params.RoundTrip.{IsJson}
use massive.Params.ReadBack.{own_object}
use massive.Params.Envelope.{Envelope, EnvelopeJson}
use massive.Params.Items.{item_envelopes, expand_value, expand_parameter}
use massive.Params.Tests.{texts, texts-IsJson}
use massive.Params.ItemLaws.{value_fields, list_fields, IsEnvelopeJson}
use massive.Params.ItemRoundTrip.{Expanded, decode_item-expand_parameter}

-- A list of texts: each byte is one higher, and each text ends with a zero.
abbrev write_text : Bytes → Bytes → Bytes
write_text [] rest = 0 ∷ rest
write_text (b ∷ text) rest = suc b ∷ write_text text rest

abbrev write_texts : List Bytes → Bytes
write_texts [] = []
write_texts (text ∷ rest) = write_text text (write_texts rest)

abbrev push_byte : ℕ → List Bytes → List Bytes
push_byte b [] = (b ∷ []) ∷ []
push_byte b (text ∷ rest) = (b ∷ text) ∷ rest

abbrev read_texts : Bytes → List Bytes
read_texts [] = []
read_texts (zero ∷ rest) = [] ∷ read_texts rest
read_texts (suc b ∷ rest) = push_byte b (read_texts rest)

abbrev bracketed : Bytes → Option (List Bytes)
bracketed [] = none
bracketed (b ∷ rest) = if b == b'[' then some (read_texts rest) else none

read-write_text : (text rest : Bytes) → read_texts (write_text text rest) ≡ text ∷ read_texts rest
read-write_text [] rest = refl
read-write_text (b ∷ text) rest = ap (push_byte b) (read-write_text text rest)

read-write_texts : (list : List Bytes) → read_texts (write_texts list) ≡ list
read-write_texts [] = refl
read-write_texts (text ∷ rest) =
    read-write_text text (write_texts rest) ∙ ap (λ l. text ∷ l) (read-write_texts rest)

abbrev list_texts : Json
list_texts = record texts {
  canonical = record (texts.canonical) {
    elements = bracketed;
    marshal = λ list. some (b'[' ∷ write_texts list);
  };
}

list_texts-IsJson : IsJson list_texts
unfolding is_canonical ref_for
list_texts-IsJson = record {
  ref_text_canonical = texts-IsJson.ref_text_canonical;
  read-ref_text = texts-IsJson.read-ref_text;
  ref_text-read = texts-IsJson.ref_text-read;
  not_at = texts-IsJson.not_at;
}

abbrev read_fields : Bytes → Option Envelope
read_fields (kind ∷ index ∷ rest) =
    if kind == b'V' then some (value_fields index rest) else some (list_fields index rest)
read_fields _ = none

abbrev envelopes : EnvelopeJson
envelopes = record {
  json = list_texts;
  read_envelope = read_fields;
  read_string = λ b. none;
  empty_list = some (b'E' ∷ []);
  value_item = λ i body. some (b'V' ∷ i ∷ body);
  list_item = λ i ref. some (b'L' ∷ i ∷ texts.ref_text ref);
  ref_item = λ i ref. none;
  failure_item = λ i body. none;
  failure_ref_item = λ i ref. none;
  failure_text = λ f. none;
  read_failure = λ b. none;
}

plain_again :
    (text body : Bytes)
    → texts.canonical.canonicalize text ≡ some body
    → texts.canonical.canonicalize body ≡ some body
plain_again [] body h = let same : [] ≡ body = ground arith in rw⁻¹ same refl
plain_again (b ∷ rest) body h =
    let same : b ∷ rest ≡ body = ground arith in ap texts.canonical.canonicalize (sym same) ∙ h

envelopes-IsEnvelopeJson : IsEnvelopeJson envelopes
envelopes-IsEnvelopeJson = record {
  value_read = λ i body text low fine h.
      let same : b'V' ∷ i ∷ body ≡ text = ground arith in
      subst
        (λ x.
          (list_texts.canonical.canonicalize x ≡ some x)
          × (read_fields x ≡ some (value_fields i body)))
        same (refl, refl);
  list_read = λ i ref text low own h.
      let same : b'L' ∷ i ∷ texts.ref_text ref ≡ text = ground arith in
      subst
        (λ x.
          (list_texts.canonical.canonicalize x ≡ some x)
          × (read_fields x ≡ some (list_fields i (texts.ref_text ref))))
        same (refl, refl);
  elements_back = λ list text fine h.
      let same : b'[' ∷ write_texts list ≡ text = ground arith in
      subst (λ x. bracketed x ≡ some list) same (ap some (read-write_texts list));
  canonical_again = plain_again;
}

-- two texts of 2050 digits
abbrev digits : Bytes
digits = replicate 2050 b'1'

abbrev long_list : Bytes
long_list = b'[' ∷ write_texts (digits ∷ digits ∷ [])

abbrev lists : Datastore ℕ
lists = record {
  put = λ k body o s.
      (s + 1, good (record { key = k; size = length body; content_type = json_type }));
  get = λ k s. (s, bad not_found);
  open_object = λ k s. (s, good (own_object list_texts k long_list));
}

abbrev list_ref : Ref
list_ref = record { hash = texts.digest []; size = 4103 }

abbrev list_parameter : Bytes
list_parameter = b'@' ∷ texts.ref_text list_ref

abbrev listed : ℕ → Bytes
listed i = b'L' ∷ i ∷ texts.ref_text list_ref

abbrev output : Bytes
output = b'[' ∷ write_texts (listed 0 ∷ listed 1 ∷ [])

expanded_list : (expand_parameter envelopes (some lists) list_parameter 0).1 ≡ good output
unfolding expand_parameter expand_value item_envelopes expand expand_items opens_array decode
    decode_reference parse_ref above resolve resolve_at check_object read_body check_body ref_for
    blob_key is_canonical blob_key_sha256_hex is_digest_hex parse_key check_segments
    find_bad_segment split_slash push_first path_clean clean_segments join_slash is_windows_abs
expanded_list = refl

decode_item-expand_parameter_example :
    (v : Value) × (items : List Item) × ((decode list_texts (some lists) list_parameter 0).1
      ≡ good v)
    × (expand list_texts.canonical v.body ≡ ok items)
    × Expanded envelopes envelopes-IsEnvelopeJson list_texts-IsJson (some lists) 0 items output
decode_item-expand_parameter_example =
    decode_item-expand_parameter envelopes envelopes-IsEnvelopeJson list_texts-IsJson (some lists)
      list_parameter 0 output expanded_list
