-- ===== src/Bridge/Files/State.antt =====
-- The types of files/grant.rs. A path is the list of its components, and the joined text of a relative
-- path is kept as its parts. What the file system answers is a record of functions. The bits of
-- `GrantActions` are its three fields.
use agent_console.Base.{Bool, List, Option, String, Table, nat_eq, not, string_eq, ℕ, ◌||◌}

pub data GrantAction : Type 0 where
  preview download upload : GrantAction

pub record GrantActions : Type 0 where
  pub may_preview : Bool
  pub may_download : Bool
  pub may_upload : Bool

abbrev pub allows : GrantActions → GrantAction → Bool
allows actions preview = actions.may_preview
allows actions download = actions.may_download
allows actions upload = actions.may_upload

abbrev pub is_empty : GrantActions → Bool
is_empty actions = not (actions.may_preview || (actions.may_download || actions.may_upload))

-- Of the evidence, only whether it is blank is read.
pub data GrantSource : Type 0 where
  session_upload user_opened : GrantSource
  session_reference : (blank : Bool) → GrantSource

pub record FileIdentity : Type 0 where
  pub dev : ℕ
  pub ino : ℕ

pub record Metadata : Type 0 where
  pub is_file : Bool
  pub identity : FileIdentity
  pub size : ℕ
  pub mtime_ns : ℕ

abbrev pub FilePath : Type 0
FilePath = List String

-- `std::fs`, at one moment.
pub record FileSystem : Type 0 where
  pub canonicalize : FilePath → Option FilePath
  pub is_dir : FilePath → Bool
  pub metadata : FilePath → Option Metadata
  pub open_file : FilePath → Option Metadata

pub data Component : Type 0 where
  normal : String → Component
  parent_dir cur_dir root_dir prefix : Component

pub data FilesError : Type 0 where
  handle_invalid outside_scope changed transfer_expired io too_many_transfers internal : FilesError

pub data Result {ℓ} (A : Type ℓ) : Type ℓ where
  ok : A → Result A
  err : FilesError → Result A

pub record FileHandle : Type 0 where
  pub token : String
  pub device_id : String
  pub session : String
  pub root : FilePath
  pub relative_path : FilePath
  pub actions : GrantActions
  pub source_kind : GrantSource
  pub identity : FileIdentity
  pub size : ℕ
  pub mtime_ns : ℕ

-- `deadline` is also the handle's `expires_at`.
pub record GrantEntry : Type 0 where
  pub handle : FileHandle
  pub deadline : ℕ

pub record FileGrantManager : Type 0 where
  pub grants : Table String GrantEntry
  pub transfers : Table String ℕ

abbrev pub max_grant_ttl : ℕ
max_grant_ttl = 3600

abbrev pub max_active_transfers_per_device : ℕ
max_active_transfers_per_device = 2
