-- ===== src/Store/Memory.antt =====
-- The reference of internal/datastore's contract: a store that is a map from keys to objects.
use massive.Base.{
  Bytes, bytes_equal, bytes_equal_iff, bytes_equal_refl, Bool-cases, Option, none, some,
  if◌then◌else◌, ◌≡◌, inl, inr, refl, sym, ap, ◌∙◌, arith,
}
use massive.Base.Results.{Result, good, bad}
use massive.Store.Keys.{Key}
use massive.Store.Contract.{
  StoreError, not_found, already_exists, ObjectInfo, Object, Opened, Datastore, View, IsStore,
  Settles, kept, created, new_object,
}

abbrev pub Objects : Type 0
Objects = Bytes → Option Object

unfoldable pub write_object : Key → Object → Objects → Objects
write_object k o s p = if bytes_equal k.value p then some o else s p

abbrev pub put_object :
    Key → Object → Objects → Option Object → Objects × Result StoreError ObjectInfo
put_object k fresh s none = (write_object k fresh s, good fresh.info)
put_object k fresh s (some o) = (s, bad already_exists)

abbrev pub found_object : Option Object → Result StoreError Object
found_object none = bad not_found
found_object (some o) = good o

abbrev pub opened_object : Option Object → Result StoreError Opened
opened_object none = bad not_found
opened_object (some o) = good (record { info = o.info; stream = some o.body })

-- every Put is one if absent
unfoldable pub memory : Datastore Objects
memory = record {
  put = λ k body options s. put_object k (new_object k body options.content_type) s (s k.value);
  get = λ k s. (s, found_object (s k.value));
  open_object = λ k s. (s, opened_object (s k.value));
}

abbrev pub memory_view : Objects → View
memory_view s k = s k.value

write-settles :
    (k j : Key) (fresh : Object) (s : Objects)
    → s k.value ≡ none
    → Settles k fresh (memory_view s) (memory_view (write_object k fresh s)) j
unfolding write_object
write-settles k j fresh s absent = elim (Bool-cases (bytes_equal k.value j.value)) [
  | inr other ↦ kept (rw other refl)
  | inl same ↦
      let e : k.value ≡ j.value = (bytes_equal_iff k.value j.value).0 same in
      created (ap (λ v. record { value = v }) (sym e)) (ap s (sym e) ∙ absent) (rw same refl)
]

put_object-settles :
    (k j : Key) (fresh : Object) (s : Objects) (o : Option Object)
    → s k.value ≡ o
    → Settles k fresh (memory_view s) (memory_view (put_object k fresh s o).0) j
put_object-settles k j fresh s none e = write-settles k j fresh s e
put_object-settles k j fresh s (some o) e = kept refl

put_object-stored :
    (k : Key) (fresh : Object) (s : Objects) (o : Option Object) (info : ObjectInfo)
    → s k.value ≡ o
    → (put_object k fresh s o).1 ≡ good info
    → (s k.value ≡ none) × ((put_object k fresh s o).0 k.value ≡ some fresh)
unfolding write_object
put_object-stored k fresh s none info e h = (e, rw (bytes_equal_refl k.value) refl)
put_object-stored k fresh s (some o) info e h = cc

found_object_good : (o : Option Object) (x : Object) → found_object o ≡ good x → o ≡ some x
found_object_good none x h = cc
found_object_good (some o) x h = ground arith

-- The map is a store of immutable objects.
pub memory-IsStore : IsStore memory (λ k. Unit {0}) (λ s. Unit {0}) memory_view
unfolding memory
memory-IsStore = record {
  put_sound = λ k body type s u h. tt;
  put_settles =
      λ k body type s j u w h. put_object-settles k j (new_object k body type) s (s k.value) refl;
  put_stored = λ k body type s info u h fine.
      put_object-stored k (new_object k body type) s (s k.value) info refl fine;
  get_sound = λ k s h. tt;
  get_keeps = λ k j s. refl;
  get_stored = λ k s o u h fine. found_object_good (s k.value) o fine;
}

pub memory-serves :
    (s : Objects) (k : Key) (o : Object) → memory_view s k ≡ some o → (memory.get k s).1 ≡ good o
unfolding memory
memory-serves s k o h = ap found_object h
