-- ===== src/Bridge/Files/Grant.antt =====
-- `FileGrantManager` of files/grant.rs. A file system is given to each call, since files change between
-- calls. Times are seconds, read by an argument; the random token is an argument too.
use agent_console.Base.{
  Bool, List, Option, String, [], false, if◌then◌else◌, insert, is_some, leb, length, lookup,
  nat_eq, none, not, remove, retain, some, string_eq, true, ltb, ℕ, ◌&&◌, ◌+◌, ◌++◌, ◌-◌, ◌==◌,
  ◌||◌, ◌∷◌, eqb,
}
use agent_console.Bridge.Files.State.{
  Component, FileGrantManager, FileHandle, FilePath, FileSystem, GrantAction, GrantActions,
  GrantEntry, GrantSource, Metadata, Result, allows, changed, err, handle_invalid, internal, io,
  is_empty, max_active_transfers_per_device, max_grant_ttl, normal, ok, outside_scope,
  session_reference, transfer_expired,
}

abbrev pub starts_with : FilePath → FilePath → Bool
starts_with path [] = true
starts_with [] (c ∷ base) = false
starts_with (d ∷ path) (c ∷ base) = d == c && starts_with path base

abbrev pub names_of : List Component → Option (List String)
names_of [] = some []
names_of (normal name ∷ cs) = elim (names_of cs) [ none ↦ none | some names ↦ some (name ∷ names) ]
names_of (_ ∷ cs) = none

-- No components is the empty path; an absolute one begins with its root.
unfoldable pub normalize_relative : List Component → Option FilePath
normalize_relative [] = none
normalize_relative (c ∷ cs) = names_of (c ∷ cs)

abbrev pub min : ℕ → ℕ → ℕ
min a b = if leb a b then a else b

abbrev pub is_blank_reference : GrantSource → Bool
is_blank_reference (session_reference blank) = blank
is_blank_reference _ = false

-- The canonical root and what the path below it resolves to, which must stay below it.
unfoldable pub resolve_below : FileSystem → FilePath → FilePath → Result (FilePath × FilePath)
resolve_below fs root relative = elim (fs.canonicalize root) [
  | none ↦ err handle_invalid
  | some root_c ↦ elim (fs.canonicalize (root_c ++ relative)) [
    | none ↦ err handle_invalid
    | some target_c ↦
        if starts_with target_c root_c then ok (root_c, target_c) else err outside_scope
  ]
]

pub record Request : Type 0 where
  pub device_id : String
  pub session : String
  pub root : FilePath
  pub relative : List Component
  pub actions : GrantActions
  pub source : GrantSource
  pub ttl : ℕ

abbrev pub refuses_request : Request → Bool
refuses_request q =
    (q.device_id == "" || q.session == "") || (is_empty q.actions || is_blank_reference q.source)

abbrev pub handle_of : String → Request → FilePath → FilePath → Metadata → FileHandle
handle_of token q root_c relative meta = record {
  token = token;
  device_id = q.device_id;
  session = q.session;
  root = root_c;
  relative_path = relative;
  actions = q.actions;
  source_kind = q.source;
  identity = meta.identity;
  size = meta.size;
  mtime_ns = meta.mtime_ns;
}

-- The directory test comes before the path is looked at.
abbrev pub locate : FileSystem → Request → Result (FilePath × FilePath × FilePath)
locate fs q = elim (fs.canonicalize q.root) [
  | none ↦ err handle_invalid
  | some root_c ↦
      if not (fs.is_dir root_c) then err handle_invalid else elim (normalize_relative q.relative) [
        | none ↦ err handle_invalid
        | some relative ↦ elim (fs.canonicalize (root_c ++ relative)) [
          | none ↦ err handle_invalid
          | some target_c ↦
              if starts_with target_c root_c
              then ok (root_c, relative, target_c)
              else err outside_scope
        ]
      ]
]

abbrev pub grant :
    String
    → ℕ
    → Request
    → FilePath × FilePath × FilePath
    → Option Metadata
    → FileGrantManager
    → Result FileHandle × FileGrantManager
grant token now q (root_c, relative, target_c) none m = (err io, m)
grant token now q (root_c, relative, target_c) (some meta) m =
    if not meta.is_file
    then (err handle_invalid, m)
    else (let handle = handle_of token q root_c relative meta in
        let entry : GrantEntry = record {
          handle = handle;
          deadline = now + min q.ttl max_grant_ttl;
        } in
        (ok handle, record m { grants = insert token entry m.grants }))

abbrev pub issue_at :
    FileSystem
    → String
    → ℕ
    → Request
    → Result (FilePath × FilePath × FilePath)
    → FileGrantManager
    → Result FileHandle × FileGrantManager
issue_at fs token now q (err e) m = (err e, m)
issue_at fs token now q (ok (root_c, relative, target_c)) m =
    grant token now q (root_c, relative, target_c) (fs.metadata target_c) m

unfoldable pub issue :
    FileSystem → String → ℕ → Request → FileGrantManager → Result FileHandle × FileGrantManager
unfolding insert normalize_relative
issue fs token now q m =
    if refuses_request q then (err internal, m) else issue_at fs token now q (locate fs q) m

abbrev pub check_entry : String → String → GrantAction → FileHandle → Result FileHandle
check_entry device_id session action handle =
    if not (handle.device_id == device_id) || not (handle.session == session)
    then err handle_invalid
    else if not (allows handle.actions action)
    then err handle_invalid
    else ok handle

abbrev pub lookup_at :
    ℕ
    → String
    → String
    → String
    → GrantAction
    → Option GrantEntry
    → FileGrantManager
    → Result FileHandle × FileGrantManager
lookup_at now device_id session token action none m = (err handle_invalid, m)
lookup_at now device_id session token action (some entry) m =
    if leb entry.deadline now
    then (err transfer_expired, record m { grants = remove token m.grants })
    else (check_entry device_id session action entry.handle, m)

unfoldable pub lookup_valid :
    ℕ
    → String
    → String
    → String
    → GrantAction
    → FileGrantManager
    → Result FileHandle × FileGrantManager
unfolding lookup remove
lookup_valid now device_id session token action m =
    lookup_at now device_id session token action (lookup token m.grants) m

abbrev pub same_file : FileHandle → Metadata → Bool
same_file handle meta =
    (handle.identity.dev == meta.identity.dev && handle.identity.ino == meta.identity.ino)
    && (handle.size == meta.size && handle.mtime_ns == meta.mtime_ns)

-- The file that was opened: its path, what the descriptor says of it, and its handle.
pub record VerifiedFile : Type 0 where
  pub root_c : FilePath
  pub target_c : FilePath
  pub meta : Metadata
  pub handle : FileHandle

abbrev pub verify : FileHandle → FilePath × FilePath → Option Metadata → Result VerifiedFile
verify handle (root_c, target_c) none = err io
verify handle (root_c, target_c) (some meta) =
    if same_file handle meta
    then ok (record { root_c = root_c; target_c = target_c; meta = meta; handle = handle })
    else err changed

abbrev pub open_below : FileSystem → FileHandle → Result (FilePath × FilePath) → Result VerifiedFile
open_below fs handle (err e) = err e
open_below fs handle (ok (root_c, target_c)) =
    verify handle (root_c, target_c) (fs.open_file target_c)

abbrev pub read_with : FileSystem → Result FileHandle → Result VerifiedFile
read_with fs (err e) = err e
read_with fs (ok handle) = open_below fs handle (resolve_below fs handle.root handle.relative_path)

unfoldable pub resolve_for_read :
    FileSystem
    → ℕ
    → String
    → String
    → String
    → GrantAction
    → FileGrantManager
    → Result VerifiedFile × FileGrantManager
unfolding lookup_valid resolve_below
resolve_for_read fs now device_id session token action m =
    let (found, m') = lookup_valid now device_id session token action m in (read_with fs found, m')

unfoldable pub revoke : String → FileGrantManager → Bool × FileGrantManager
unfolding lookup remove
revoke token m = (is_some (lookup token m.grants), record m { grants = remove token m.grants })

unfoldable pub sweep_expired : ℕ → FileGrantManager → ℕ × FileGrantManager
unfolding retain
sweep_expired now m =
    let left = retain (λ e. ltb now e.deadline) m.grants in
    (length m.grants - length left, record m { grants = left })

abbrev pub active : Option ℕ → ℕ
active none = 0
active (some count) = count

-- A slot that is taken, or none; the guard's drop gives it back.
unfoldable pub acquire_transfer_slot : String → FileGrantManager → Bool × FileGrantManager
unfolding lookup insert
acquire_transfer_slot device_id m =
    let count = active (lookup device_id m.transfers) in
    if leb max_active_transfers_per_device count
    then (false, record m { transfers = insert device_id count m.transfers })
    else (true, record m { transfers = insert device_id (count + 1) m.transfers })

abbrev pub release_at : String → Option ℕ → FileGrantManager → FileGrantManager
release_at device_id none m = m
release_at device_id (some count) m =
    if eqb (count - 1) 0
    then record m { transfers = remove device_id m.transfers }
    else record m { transfers = insert device_id (count - 1) m.transfers }

unfoldable pub release_transfer_slot : String → FileGrantManager → FileGrantManager
unfolding lookup insert remove
release_transfer_slot device_id m = release_at device_id (lookup device_id m.transfers) m
