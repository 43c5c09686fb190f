-- ===== src/Params/Tests.antt =====
-- A store that holds one long value, and JSON text in which everything but @ is canonical.
use mathlib.Core.Path.{subst}
use massive.Base.{
  bytes_equal_refl, ℕ, ◌+◌, ◌≤◌, Bytes, codes, List, [], ◌∷◌, ◌++◌, false, ◌==◌, Option, none, some,
  if◌then◌else◌, length, replicate, ◌≡◌, ◌≢◌, ◌⊎◌, refl, arith, pos,
}
use massive.Base.Results.{good, bad}
use massive.MapExec.Collect.{
  is_canonical, collect_outcomes, entries, entry_body, collect, collect_count, place_all,
  place_result, place,
}
use massive.Store.PathClean.{split_slash, push_first, path_clean, clean_segments, join_slash}
use massive.Store.Keys.{
  blob_key_sha256_hex, is_digest_hex, parse_key, check_segments, find_bad_segment, is_windows_abs,
}
use massive.Store.Contract.{Datastore, not_found}
use massive.Params.Codec.{
  Ref, Value, Json, panicked, max_value_bytes, json_type, decode, encode, parameter,
  encode_published, ref_for, blob_key, require_canonical, inline_value, encode_canonical, publish,
  publish_at, answer_put, ref_parameter,
}
use massive.Params.RoundTrip.{IsJson, decode-encode_published}
use massive.Params.ReadBack.{own_object, Answers, decode-encode, encode-encode_published}
use massive.Params.Merge.{
  decode_merge, json_array, join_comma, merge_checked, decode_all, sum_sizes, declared_size,
}
use massive.Params.MergeBounds.{Spells, decode_merge_sound}
use massive.Params.Envelope.{
  Envelope, EnvelopeJson, Aggregate, aggregate_envelopes, read_all, unquote, parse_envelope,
  check_envelope, index_of,
}
use massive.Params.Items.{decode_item}
use massive.Params.Panics.{decode_item-IsCalm}
use massive.Params.CollectItems.{
  collect_item_outcomes, collect_aggregate, outcome_list, outcomes_of, outcome_of, indexed_outcome,
  item_value, inline_or_referenced,
}
use massive.Params.Outcomes.{Collected, collect_item_outcomes_sound}

abbrev plain : Bytes → Option Bytes
plain [] = some []
plain (b ∷ rest) = if b == b'@' then none else some (b ∷ rest)

abbrev read_text : Bytes → Option Ref
read_text (open_brace ∷ size ∷ hash) =
    if open_brace == b'{' then some (record { hash = hash; size = size }) else none
read_text _ = none

abbrev pub texts : Json
texts = record {
  canonical = record {
    canonicalize = plain;
    elements = λ b. some (b ∷ []);
    marshal = λ bs. some (json_array bs);
    marshal_value = λ b. some b;
    marshal_failure = λ f. none;
  };
  digest = λ b. codes "sha256:" ++ replicate 64 b'0';
  ref_text = λ r. b'{' ∷ r.size ∷ r.hash;
  read_ref = read_text;
}

read_text-back :
    (text : Bytes) (ref : Ref) → read_text text ≡ some ref → b'{' ∷ ref.size ∷ ref.hash ≡ text
read_text-back [] ref h = cc
read_text-back (a ∷ []) ref h = cc
read_text-back (a ∷ size ∷ hash) ref h = ground arith

pub texts-IsJson : IsJson texts
unfolding is_canonical ref_for
texts-IsJson = record {
  ref_text_canonical = λ ref. bytes_equal_refl (texts.ref_text ref);
  read-ref_text = λ body low high. refl;
  ref_text-read = λ text ref fine h. read_text-back text ref h;
  not_at = λ rest. refl;
}

abbrev seven : Bytes
seven = codes "7"

-- a store that answers every Open with the long value
abbrev long_value : Bytes
long_value = replicate 4097 b'1'

abbrev archive : Datastore ℕ
archive = record {
  put = λ k body o s.
      (s + 1, good (record { key = k; size = length body; content_type = json_type }));
  get = λ k s. (s, bad not_found);
  open_object = λ k s. (s, good (own_object texts k long_value));
}

decoded_seven : (decode texts (some archive) seven 0).1 ≡ good (record { body = seven; ref = none })
unfolding decode require_canonical inline_value is_canonical
decoded_seven = refl

decode-encode_published_example :
    (encode_published texts seven ≡ good seven)
    × (parameter texts (record { body = seven; ref = none }) ≡ seven)
decode-encode_published_example =
    decode-encode_published texts texts-IsJson (some archive) seven 0
      (record { body = seven; ref = none }) decoded_seven

long_text : Bytes
long_text = b'@' ∷ texts.ref_text (record { hash = texts.digest []; size = 4097 })

encoded_long : (encode texts (some archive) long_value 0).1 ≡ good long_text
unfolding encode encode_canonical publish publish_at answer_put ref_parameter ref_for blob_key
    require_canonical is_canonical blob_key_sha256_hex is_digest_hex parse_key check_segments
    find_bad_segment split_slash push_first path_clean clean_segments join_slash is_windows_abs
    long_text
encoded_long = refl

archive-Answers : Answers texts (some archive) long_value 0
archive-Answers d k same there =
    let e : archive ≡ d = cc same in
    subst (λ (x : Datastore ℕ). (x.open_object k 0).1 ≡ good (own_object texts k long_value)) e refl

decode-encode_example :
    (v : Value) × ((decode texts (some archive) long_text 0).1 ≡ good v) × (v.body ≡ long_value)
decode-encode_example =
    decode-encode texts texts-IsJson (some archive) long_value long_text 0 0 encoded_long
      archive-Answers

encode-encode_published_example : encode_published texts long_value ≡ good long_text
encode-encode_published_example =
    encode-encode_published texts (some archive) long_value long_text 0 encoded_long

merged : (decode_merge texts (some archive) (seven ∷ seven ∷ []) 0).1 ≡ good (codes "[7,7]")
unfolding decode_merge merge_checked decode_all sum_sizes declared_size decode require_canonical
    inline_value is_canonical json_array join_comma
merged = refl

decode_merge_sound_example :
    (length (codes "[7,7]") ≤ max_value_bytes)
    × ((bodies : List Bytes) × (codes "[7,7]" ≡ json_array bodies)
        × Spells texts (seven ∷ seven ∷ []) bodies)
decode_merge_sound_example =
    decode_merge_sound texts texts-IsJson (some archive) (seven ∷ seven ∷ []) 0 (codes "[7,7]")
      merged

-- an envelope of item 0 with the text as its value
abbrev item_of_text : Bytes → Envelope
item_of_text text = record {
  index = some (pos 0);
  value = some text;
  ref = none;
  list_ref = none;
  empty = false;
  failure = none;
  failure_ref = none;
  fatal = false;
  lost = "";
}

abbrev envelopes : EnvelopeJson
envelopes = record {
  json = texts;
  read_envelope = λ b. some (item_of_text b);
  read_string = λ b. none;
  empty_list = none;
  value_item = λ i b. some b;
  list_item = λ i r. none;
  ref_item = λ i r. none;
  failure_item = λ i b. some b;
  failure_ref_item = λ i r. none;
  failure_text = λ f. none;
  read_failure = λ b. none;
}

decode_item-IsCalm_example : (decode_item envelopes (some archive) seven 0).1 ≢ bad panicked
decode_item-IsCalm_example = decode_item-IsCalm envelopes (some archive) seven 0

collected : (collect_item_outcomes envelopes (some archive) 3 [] seven 0).1 ≡ good (codes "[7]")
unfolding collect_item_outcomes aggregate_envelopes read_all unquote parse_envelope check_envelope
    collect_aggregate outcome_list outcomes_of outcome_of index_of indexed_outcome item_value
    inline_or_referenced collect_outcomes entries entry_body collect collect_count place_all
    place_result place is_canonical encode encode_canonical require_canonical json_array join_comma
collected = refl

collect_item_outcomes_sound_example :
    (a : Aggregate) × (aggregate_envelopes envelopes seven ≡ good a)
    × ((a.markers ≡ 1) × (codes "[7]" ≡ codes "[]")
        ⊎ Collected envelopes (some archive) 3 [] a.envelopes (codes "[7]"))
collect_item_outcomes_sound_example =
    collect_item_outcomes_sound envelopes (some archive) 3 [] seven 0 (codes "[7]") collected
