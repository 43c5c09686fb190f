-- ===== src/Store/Local.antt =====
-- internal/datastore/local.go: Put, Get and Open of the store in a directory. A file is its path
-- below the root and its bytes. Every system call may fail, by the clock of the operations. Objects
-- and their metadata records are installed by a link or a rename of a temporary file; temporary
-- files carry fresh names and are not in the state.
use massive.Base.{
  ℕ, suc, Bytes, codes, bytes_equal, List, [], ◌∷◌, ◌++◌, Bool, true, false, String, Option, none,
  some, if◌then◌else◌, ◌⨾◌, length,
}
use massive.Base.Results.{Result, good, bad}
use massive.Store.Keys.{Key}
use massive.Store.Contract.{
  StoreError, invalid_key, not_found, already_exists, failed, PutOptions, ObjectInfo, Object,
  Opened, Datastore, default_content_type,
}

abbrev pub Files : Type 0
Files = Bytes → Option Bytes

unfoldable pub write_file : Bytes → Bytes → Files → Files
write_file path body files p = if bytes_equal path p then some body else files p

pub data Call : Type 0 where
  context create_root open_root create_parent write_temporary : Call
  create_metadata_parent encode_record write_record link_record rename_record read_record : Call
  link_body rename_body remove_temporary read_body open_body stat_body stream_body : Call

-- the directory and the number of operations so far
pub record Disk : Type 0 where
  pub files : Files
  pub clock : ℕ

-- Go's libraries and the machine
pub record Platform : Type 0 where
  -- filepath.Localize
  pub localize : Bytes → Option Bytes
  -- hex.EncodeToString of sha256.Sum256
  pub digest_hex : Bytes → Bytes
  -- json.Marshal of localMetadata and json.Unmarshal
  pub encode_metadata : Bytes → Bytes
  pub decode_metadata : Bytes → Option Bytes
  -- the error of a call in the operation with that number
  pub outage : ℕ → Call → Option String

abbrev pub metadata_dir : Bytes
metadata_dir = codes ".massive-datastore-metadata/"

-- `existing, err := os.ReadFile(path)` without another error than os.ErrNotExist
abbrev pub exists_file : Option Bytes → Bool
exists_file none = false
exists_file (some b) = true

-- the first call that fails
abbrev pub attempt_calls : (Call → Option String) → List Call → Option String
attempt_calls fails [] = none
attempt_calls fails (c ∷ rest) = fails c ⨾ attempt_calls fails rest

abbrev pub to_error {ℓ} : {A : Type ℓ} → Option String → Result StoreError A → Result StoreError A
to_error none r = r
to_error (some e) r = bad (failed e)

-- the files after an operation and its answer
abbrev pub Answer : Type 0 → Type 0
Answer A = Files × Result StoreError A

-- a call that fails leaves the files
abbrev pub guarded : {A : Type 0} → Option String → Files → Answer A → Answer A
guarded none files next = next
guarded (some e) files next = (files, bad (failed e))

-- content of a metadata record, decoded
abbrev pub record_type : Option Bytes → Result StoreError Bytes
record_type none = bad (failed "decode metadata")
record_type (some type) = good (default_content_type type)

module _ (c : Platform) where
  abbrev pub local_path : Option Bytes → Result StoreError Bytes
  local_path none = bad invalid_key
  local_path (some path) = if bytes_equal path (codes ".") then bad invalid_key else good path

  unfoldable pub path_for_key : Key → Result StoreError Bytes
  path_for_key key = local_path (c.localize key.value)

  unfoldable pub metadata_path : Key → Bytes
  metadata_path key = metadata_dir ++ (c.digest_hex key.value ++ codes ".json")

  abbrev pub content_type_of : Option Bytes → Result StoreError Bytes
  content_type_of none = good (default_content_type [])
  content_type_of (some body) = record_type (c.decode_metadata body)

  module _ (fails : Call → Option String) where
    unfoldable pub read_content_type : Key → Files → Result StoreError Bytes
    read_content_type key files =
        to_error (fails read_record) (content_type_of (files (metadata_path key)))

    -- before a metadata record is linked or renamed into place
    abbrev pub prepare_record : Option String
    prepare_record =
        attempt_calls fails (create_metadata_parent ∷ encode_record ∷ write_record ∷ [])

    unfoldable pub write_metadata : Key → Bytes → Files → Answer (Unit {0})
    write_metadata key type files = guarded prepare_record files (
        guarded (fails rename_record) files
          (write_file (metadata_path key) (c.encode_metadata type) files, good tt))

    -- the link of the record, where it may exist
    unfoldable pub link_metadata : Key → Bytes → Files → Bool → Answer Bool
    link_metadata key type files true = (files, good false)
    link_metadata key type files false =
        (write_file (metadata_path key) (c.encode_metadata type) files, good true)

    unfoldable pub write_metadata_if_absent : Key → Bytes → Files → Answer Bool
    write_metadata_if_absent key type files = guarded prepare_record files (
        guarded (fails link_record) files
          (link_metadata key type files (exists_file (files (metadata_path key)))))

    abbrev pub same_type : Bytes → Result StoreError Bytes → Result StoreError (Unit {0})
    same_type type (bad e) = bad e
    same_type type (good found) = if bytes_equal found type then good tt else bad already_exists

    -- the metadata record that was there has to have the type
    unfoldable pub check_type : Key → Bytes → Bool → Files → Result StoreError (Unit {0})
    check_type key type true files = good tt
    check_type key type false files = same_type type (read_content_type key files)

    module _ (key : Key) (body type : Bytes) where
      abbrev pub stored_info : ObjectInfo
      stored_info = record { key = key; size = length body; content_type = type }

      -- the link of the body, where it may exist
      unfoldable pub link_object : Bytes → Files → Bool → Answer ObjectInfo
      link_object target files true = (files, bad already_exists)
      link_object target files false =
          guarded (fails remove_temporary) (write_file target body files)
            (write_file target body files, good stored_info)

      unfoldable pub install_body : Bytes → Files → Result StoreError (Unit {0}) → Answer ObjectInfo
      install_body target files (bad e) = (files, bad e)
      install_body target files (good _) =
          guarded (fails link_body) files (link_object target files (exists_file (files target)))

      unfoldable pub after_record : Bytes → Answer Bool → Answer ObjectInfo
      after_record target (files, bad e) = (files, bad e)
      after_record target (files, good installed) =
          install_body target files (check_type key type installed files)

      unfoldable pub with_info : Answer (Unit {0}) → Answer ObjectInfo
      with_info (files, bad e) = (files, bad e)
      with_info (files, good _) = (files, good stored_info)

      unfoldable pub replace_object : Bytes → Files → Answer ObjectInfo
      replace_object target files =
          guarded (fails rename_body) files
            (with_info (write_metadata key type (write_file target body files)))

      unfoldable pub install : Bool → Bytes → Files → Answer ObjectInfo
      install true target files = after_record target (write_metadata_if_absent key type files)
      install false target files = replace_object target files

      unfoldable pub put_at : Bool → Files → Result StoreError Bytes → Answer ObjectInfo
      put_at if_absent files (bad e) = (files, bad e)
      put_at if_absent files (good target) =
          guarded (attempt_calls fails (create_parent ∷ write_temporary ∷ [])) files
            (install if_absent target files)

    unfoldable pub put_files : Key → Bytes → PutOptions → Files → Answer ObjectInfo
    put_files key body options files =
        guarded (attempt_calls fails (context ∷ create_root ∷ open_root ∷ [])) files (
          put_at key body (default_content_type options.content_type) options.if_absent files
            (path_for_key key))

    unfoldable pub with_type : Key → Bytes → Result StoreError Bytes → Result StoreError Object
    with_type key body (bad e) = bad e
    with_type key body (good type) = good (record { info = stored_info key body type; body = body })

    unfoldable pub read_object : Key → Files → Option Bytes → Result StoreError Object
    read_object key files none = bad not_found
    read_object key files (some body) = with_type key body (read_content_type key files)

    unfoldable pub get_at : Key → Files → Result StoreError Bytes → Result StoreError Object
    get_at key files (bad e) = bad e
    get_at key files (good target) =
        to_error (fails read_body) (read_object key files (files target))

    unfoldable pub get_files : Key → Files → Result StoreError Object
    get_files key files =
        to_error (attempt_calls fails (context ∷ open_root ∷ []))
          (get_at key files (path_for_key key))

    -- the open file, and what a read of it yields
    unfoldable pub streamed : Option String → Object → Opened
    streamed none o = record { info = o.info; stream = some o.body }
    streamed (some e) o = record { info = o.info; stream = none }

    abbrev pub opened : Result StoreError Object → Result StoreError Opened
    opened (bad e) = bad e
    opened (good o) = good (streamed (fails stream_body) o)

    unfoldable pub open_read : Key → Files → Option Bytes → Result StoreError Opened
    open_read key files none = bad not_found
    open_read key files (some body) =
        to_error (fails stat_body) (opened (with_type key body (read_content_type key files)))

    unfoldable pub open_at : Key → Files → Result StoreError Bytes → Result StoreError Opened
    open_at key files (bad e) = bad e
    open_at key files (good target) =
        to_error (fails open_body) (open_read key files (files target))

    unfoldable pub open_files : Key → Files → Result StoreError Opened
    open_files key files =
        to_error (attempt_calls fails (context ∷ open_root ∷ []))
          (open_at key files (path_for_key key))

  abbrev pub next_disk : Disk → Files → Disk
  next_disk disk files = record { files = files; clock = suc disk.clock }

  abbrev pub put_on_disk : Disk → Answer ObjectInfo → Disk × Result StoreError ObjectInfo
  put_on_disk disk (files, r) = (next_disk disk files, r)

  -- LocalDatastore
  unfoldable pub local_datastore : Datastore Disk
  local_datastore = record {
    put = λ key body options disk.
        put_on_disk disk (put_files (c.outage disk.clock) key body options disk.files);
    get = λ key disk. (next_disk disk disk.files, get_files (c.outage disk.clock) key disk.files);
    open_object =
        λ key disk. (next_disk disk disk.files, open_files (c.outage disk.clock) key disk.files);
  }
