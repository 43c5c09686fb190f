-- ===== src/Store/Contract.antt =====
-- internal/datastore/datastore.go: the interface of an object store, and what the program relies
-- on: an object that was put if absent is never changed.
use massive.Base.{ℕ, Bytes, codes, Bool, true, String, [], ◌∷◌, Option, none, some, ◌≡◌, length}
use massive.Base.Results.{Result, good}
use massive.Store.Keys.{Key}

pub data StoreError : Type 0 where
  invalid_key not_found access_denied already_exists : StoreError
  failed : String → StoreError

pub record PutOptions : Type 0 where
  pub content_type : Bytes
  pub if_absent : Bool

pub record ObjectInfo : Type 0 where
  pub key : Key
  pub size : ℕ
  pub content_type : Bytes

pub record Object : Type 0 where
  pub info : ObjectInfo
  pub body : Bytes

unfoldable pub default_content_type : Bytes → Bytes
default_content_type [] = codes "application/octet-stream"
default_content_type (c ∷ s) = c ∷ s

-- what Open answers: the declared size and type, and what the reader yields
pub record Opened : Type 0 where
  pub info : ObjectInfo
  pub stream : Option Bytes

-- Put, Get and Open on the state of a store
pub record Datastore (S : Type 0) : Type 0 where
  pub put : Key → Bytes → PutOptions → S → S × Result StoreError ObjectInfo
  pub get : Key → S → S × Result StoreError Object
  pub open_object : Key → S → S × Result StoreError Opened

-- the object that a Put stores
unfoldable pub new_object : Key → Bytes → Bytes → Object
new_object key body content_type = record {
  info = record { key = key; size = length body; content_type = default_content_type content_type };
  body = body;
}

abbrev pub View : Type 0
View = Key → Option Object

-- one key of the store before and after a Put of `fresh` at `target` if absent
pub data Settles (target : Key) (fresh : Object) (before after : View) (k : Key) : Type 0 where
  kept : after k ≡ before k → Settles target fresh before after k
  created :
      k ≡ target → before k ≡ none → after k ≡ some fresh → Settles target fresh before after k

module _ {S : Type 0} (d : Datastore S) (IsUsable : Key → Type 0) (IsSound : S → Type 0)
    (view : S → View) where
  abbrev pub put_absent : Key → Bytes → Bytes → S → S × Result StoreError ObjectInfo
  put_absent k body type s = d.put k body (record { content_type = type; if_absent = true }) s

  -- The objects of a store are immutable, and reads answer with them.
  pub record IsStore : Type 0 where
    pub put_sound :
        (k : Key) (body type : Bytes) (s : S)
        → IsUsable k
        → IsSound s
        → IsSound (put_absent k body type s).0
    pub put_settles :
        (k : Key) (body type : Bytes) (s : S) (j : Key)
        → IsUsable k
        → IsUsable j
        → IsSound s
        → Settles k (new_object k body type) (view s) (view (put_absent k body type s).0) j
    pub put_stored :
        (k : Key) (body type : Bytes) (s : S) (info : ObjectInfo)
        → IsUsable k
        → IsSound s
        → (put_absent k body type s).1 ≡ good info
        → (view s k ≡ none) × (view (put_absent k body type s).0 k ≡ some (new_object k body type))
    pub get_sound : (k : Key) (s : S) → IsSound s → IsSound (d.get k s).0
    pub get_keeps : (k j : Key) (s : S) → view (d.get k s).0 j ≡ view s j
    pub get_stored :
        (k : Key) (s : S) (o : Object)
        → IsUsable k
        → IsSound s
        → (d.get k s).1 ≡ good o
        → view s k ≡ some o
