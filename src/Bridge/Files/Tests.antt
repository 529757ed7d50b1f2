-- ===== src/Bridge/Files/Tests.antt =====
-- The theorems on files/grant.rs at a concrete file.
use agent_console.Base.{List, [], arith, false, lookup, refl, some, string_eq, true, ◌≡◌, ◌∷◌}
use agent_console.Bridge.Files.State.{
  FileGrantManager, FileHandle, FileSystem, GrantEntry, Metadata, download, err, handle_invalid,
  normal, ok, parent_dir, preview, session_upload,
}
use agent_console.Bridge.Files.Grant.{
  Request, VerifiedFile, handle_of, issue, lookup_valid, normalize_relative, resolve_below,
  resolve_for_read, revoke,
}
use agent_console.Bridge.Files.Reading.{IsAuthorized, resolve_for_read-IsAuthorized}
use agent_console.Bridge.Files.Revoking.{grant_run, resolving, revoke_forever, sweeping}
use agent_console.Bridge.Files.Issuing.{issue-resolve_for_read}
use agent_console.Bridge.Files.Slots.{
  IsCounted, SlotCall, acquiring, dropping, slot_run, slot_run-IsCounted,
}

abbrev meta : Metadata
meta = record { is_file = true; identity = record { dev = 1; ino = 7 }; size = 12; mtime_ns = 100 }

-- No links, and the one file everywhere.
abbrev plain : FileSystem
plain = record {
  canonicalize = λ p. some p;
  is_dir = λ p. true;
  metadata = λ p. some meta;
  open_file = λ p. some meta;
}

abbrev empty_manager : FileGrantManager
empty_manager = record { grants = []; transfers = [] }

abbrev request : Request
request = record {
  device_id = "dev";
  session = "s";
  root = "work" ∷ [];
  relative = normal "a" ∷ normal "b" ∷ [];
  actions = record { may_preview = true; may_download = false; may_upload = false };
  source = session_upload;
  ttl = 600;
}

abbrev handle : FileHandle
handle = handle_of "token" request ("work" ∷ []) ("a" ∷ "b" ∷ []) meta

abbrev granted : FileGrantManager
granted = record {
  grants = ("token", record { handle = handle; deadline = 600 }) ∷ [];
  transfers = [];
}

abbrev verified : VerifiedFile
verified = record {
  root_c = "work" ∷ [];
  target_c = "work" ∷ "a" ∷ "b" ∷ [];
  meta = meta;
  handle = handle;
}

resolve_for_read-IsAuthorized_example :
    (e : GrantEntry) × (lookup "token" granted.grants ≡ some e)
    × IsAuthorized plain 5 "dev" "s" preview e verified
unfolding resolve_for_read lookup_valid resolve_below
resolve_for_read-IsAuthorized_example =
    resolve_for_read-IsAuthorized plain 5 "dev" "s" "token" preview granted verified refl

revoke_forever_example :
    (resolve_for_read plain 5 "dev" "s" "token" preview (
      grant_run
        (sweeping 3 ∷ resolving plain 4 "dev" "s" "token" preview ∷ [])
        (revoke "token" granted).1)).0
    ≡ err handle_invalid
revoke_forever_example =
    revoke_forever (sweeping 3 ∷ resolving plain 4 "dev" "s" "token" preview ∷ []) plain 5 "dev" "s"
      "token" preview granted refl

issue-resolve_for_read_example :
    (v : VerifiedFile) × ((resolve_for_read plain 5 "dev" "s" "token" preview
        (issue plain "token" 0 request empty_manager).1).0
      ≡ ok v)
    × (v.handle ≡ handle)
unfolding issue normalize_relative
issue-resolve_for_read_example =
    issue-resolve_for_read plain (λ p r e. refl) "token" 0 5 request empty_manager handle preview
      (λ r l c e. refl) refl (omega arith) refl

abbrev slots : List SlotCall
slots =
    acquiring "dev" ∷ acquiring "dev" ∷ acquiring "dev" ∷ dropping "dev" ∷ acquiring "other" ∷ []

slot_run-IsCounted_example : IsCounted "dev" (slot_run slots (empty_manager, []))
slot_run-IsCounted_example = slot_run-IsCounted slots empty_manager "dev" refl

-- Runs: a path above the root is refused, and so is another action.
traversal_is_refused :
    (issue plain "token" 0
      (record request { relative = normal "a" ∷ parent_dir ∷ [] })
      empty_manager).0
    ≡ err handle_invalid
unfolding issue normalize_relative
traversal_is_refused = refl

download_is_refused :
    (resolve_for_read plain 5 "dev" "s" "token" download granted).0 ≡ err handle_invalid
unfolding resolve_for_read lookup_valid lookup
download_is_refused = refl
