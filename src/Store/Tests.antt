-- ===== src/Store/Tests.antt =====
-- A key, a blob key, and a local store on a machine whose calls succeed.
use massive.Base.{codes, ◌++◌, ◌≡◌, ◌↔◌, refl, none, some, false, true, has_byte, arith}
use massive.Store.Keys.{
  key, parse_key, is_windows_abs, find_bad_segment, blob_key_sha256_hex, is_digest_hex,
}
use massive.Store.PathClean.{split_slash}
use massive.Store.KeyLaws.{parse_key_iff, blob_key_sha256_hex_iff}
use massive.Store.Contract.{IsStore}
use massive.Store.Local.{Platform, local_datastore}
use massive.Store.LocalReads.{IsPlatform, IsUsable, HasRecords, view_files}
use massive.Store.LocalStore.{local-IsStore}

parse_key_iff_example : (parse_key (codes "runs/7") ≡ key (record { value = codes "runs/7" })) ↔ (
    (is_windows_abs (codes "runs/7") ≡ false)
    × (has_byte b'\\' (codes "runs/7") ≡ false)
    × (find_bad_segment (split_slash (codes "runs/7")) ≡ none))
parse_key_iff_example = parse_key_iff (codes "runs/7")

blob_key_sha256_hex_iff_example :
    (blob_key_sha256_hex (codes "9f86d081884c7d659a2feaa0c55ad015a3bf4f1b2b0b822cd15d6c15b0f00a08")
      ≡ key (record {
        value =
            codes "blobs/sha256/"
            ++ codes "9f86d081884c7d659a2feaa0c55ad015a3bf4f1b2b0b822cd15d6c15b0f00a08";
      }))
    ↔ (is_digest_hex (codes "9f86d081884c7d659a2feaa0c55ad015a3bf4f1b2b0b822cd15d6c15b0f00a08")
        ≡ true)
blob_key_sha256_hex_iff_example =
    blob_key_sha256_hex_iff
      (codes "9f86d081884c7d659a2feaa0c55ad015a3bf4f1b2b0b822cd15d6c15b0f00a08")

abbrev machine : Platform
machine = record {
  localize = λ p. some p;
  digest_hex = λ k. k;
  encode_metadata = λ t. t;
  decode_metadata = λ t. some t;
  outage = λ n call. none;
}

machine-IsPlatform : IsPlatform machine
machine-IsPlatform = record {
  localize_same = λ p q h. ground arith;
  digest_distinct = λ a b h. h;
  decode-encode = λ t. refl;
}

local-IsStore_example :
    IsStore
      (local_datastore machine)
      IsUsable
      (λ disk. HasRecords machine disk.files)
      (λ disk. view_files machine disk.files)
local-IsStore_example = local-IsStore machine machine-IsPlatform
