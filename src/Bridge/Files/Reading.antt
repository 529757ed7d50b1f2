-- ===== src/Bridge/Files/Reading.antt =====
-- What `resolve_for_read` of files/grant.rs opens.
use agent_console.Base.{
  String, ap, lookup, nat_eq, refl, some, string_eq, sym, true, ℕ, ◌++◌, ◌<◌, ◌≡◌, ◌∙◌,
}
use agent_console.Bridge.Files.State.{
  FileGrantManager, FileHandle, FileSystem, GrantAction, GrantEntry, FilePath, Result, allows, err,
  ok,
}
use agent_console.Bridge.Files.Grant.{
  VerifiedFile, lookup_valid, open_below, read_with, resolve_below, resolve_for_read, starts_with,
}
use agent_console.Bridge.Files.Checks.{check_entry-ok, resolve_below-ok, lookup_valid-ok, verify-ok}

-- A handle that a token stands for, and an open file below its root that is the one it was issued for.
pub record IsAuthorized (fs : FileSystem) (now : ℕ) (device_id session : String)
    (action : GrantAction) (e : GrantEntry) (v : VerifiedFile) : Type 0 where
  pub in_time : now < e.deadline
  pub same_device : e.handle.device_id ≡ device_id
  pub same_session : e.handle.session ≡ session
  pub allowed : allows e.handle.actions action ≡ true
  pub same_handle : v.handle ≡ e.handle
  pub root : fs.canonicalize e.handle.root ≡ some v.root_c
  pub target : fs.canonicalize (v.root_c ++ e.handle.relative_path) ≡ some v.target_c
  pub below : starts_with v.target_c v.root_c ≡ true
  pub opened : fs.open_file v.target_c ≡ some v.meta
  pub same_dev : v.meta.identity.dev ≡ e.handle.identity.dev
  pub same_ino : v.meta.identity.ino ≡ e.handle.identity.ino
  pub same_size : v.meta.size ≡ e.handle.size
  pub same_mtime : v.meta.mtime_ns ≡ e.handle.mtime_ns

-- A file is opened only for a token that is registered and in time, for the device, the session and
-- an action that it was issued for, below the root that it was issued for, and only if the open file
-- is the one that was there when it was issued, with its size and its time of modification.
pub resolve_for_read-IsAuthorized :
    (fs : FileSystem) (now : ℕ) (device_id session token : String) (action : GrantAction)
    (m : FileGrantManager) (v : VerifiedFile)
    → (resolve_for_read fs now device_id session token action m).0 ≡ ok v
    → (e : GrantEntry) × (lookup token m.grants ≡ some e)
      × IsAuthorized fs now device_id session action e v
unfolding resolve_for_read
resolve_for_read-IsAuthorized fs now device_id session token action m v =
    read (lookup_valid now device_id session token action m).0 refl
  where
    read :
        (r : Result FileHandle)
        → (lookup_valid now device_id session token action m).0 ≡ r
        → read_with fs r ≡ ok v
        → (e : GrantEntry) × (lookup token m.grants ≡ some e)
          × IsAuthorized fs now device_id session action e v
    read (err e) q h = cc
    read (ok handle) q h = below (resolve_below fs handle.root handle.relative_path) refl h
      where
        below :
            (b : Result (FilePath × FilePath))
            → resolve_below fs handle.root handle.relative_path ≡ b
            → open_below fs handle b ≡ ok v
            → (e : GrantEntry) × (lookup token m.grants ≡ some e)
              × IsAuthorized fs now device_id session action e v
        below (err e) k h' = cc
        below (ok (root_c, target_c)) k h' =
            let (e, found, in_time, checked) =
              lookup_valid-ok now device_id session token action m handle q in
            let (same_device, same_session, allowed, is_handle) =
              check_entry-ok device_id session action e.handle handle checked in
            let (at_root, at_target, under) =
              resolve_below-ok fs handle.root handle.relative_path root_c target_c k in
            let (root_v, target_v, handle_v, meta_v, same) =
              verify-ok handle root_c target_c (fs.open_file target_c) v h' in
            (
              e,
              found,
              record {
                in_time = in_time;
                same_device = same_device;
                same_session = same_session;
                allowed = allowed;
                same_handle = handle_v ∙ sym is_handle;
                root = ap (λ x. fs.canonicalize x.root) is_handle ∙ at_root ∙ ap some (sym root_v);
                target =
                    ap (λ x. fs.canonicalize (x ++ e.handle.relative_path)) root_v
                    ∙ ap (λ x. fs.canonicalize (root_c ++ x.relative_path)) is_handle
                    ∙ at_target
                    ∙ ap some (sym target_v);
                below =
                    ap (λ x. starts_with x v.root_c) target_v
                    ∙ ap (λ x. starts_with target_c x) root_v
                    ∙ under;
                opened = ap fs.open_file target_v ∙ meta_v;
                same_dev = same.0 ∙ ap (λ x. x.identity.dev) (sym is_handle);
                same_ino = same.1 ∙ ap (λ x. x.identity.ino) (sym is_handle);
                same_size = same.2 ∙ ap (λ x. x.size) (sym is_handle);
                same_mtime = same.3 ∙ ap (λ x. x.mtime_ns) (sym is_handle);
              },
            )
