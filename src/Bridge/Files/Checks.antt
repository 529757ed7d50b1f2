-- ===== src/Bridge/Files/Checks.antt =====
-- What each check of `resolve_for_read` in files/grant.rs says when it passes.
use agent_console.Base.{
  Bool-cases, Option, Option-cases, String, ap, remove, if_cases, if◌then◌else◌, inl, inr, leb,
  lookup, nat_eq, not, none, refl, some, string_eq, sym, true, ℕ, arith, ◌++◌, ◌<◌, ◌==◌, ◌≡◌, ◌∙◌,
  ◌||◌,
}
use agent_console.Bridge.Files.State.{
  FileGrantManager, FileHandle, FileSystem, GrantAction, GrantEntry, Metadata, FilePath, Result,
  allows, changed, err, handle_invalid, ok, outside_scope, transfer_expired,
}
use agent_console.Bridge.Files.Grant.{
  VerifiedFile, check_entry, lookup_at, lookup_valid, resolve_below, same_file, starts_with, verify,
}

-- What `ok` holds.
pub result-ok : {A : Type 0} (a b : A) → ok a ≡ ok b → a ≡ b
result-ok a b h = cc

pub check_entry-ok :
    (device_id session : String) (action : GrantAction) (handle h : FileHandle)
    → check_entry device_id session action handle ≡ ok h
    → (handle.device_id ≡ device_id)
      × (handle.session ≡ session)
      × (allows handle.actions action ≡ true)
      × (handle ≡ h)
check_entry-ok device_id session action handle h =
    if_cases P (not (handle.device_id == device_id) || not (handle.session == session))
      (err handle_invalid)
      (if not (allows handle.actions action) then err handle_invalid else ok handle) (λ b e. cc)
      (λ b.
        if_cases P (not (allows handle.actions action)) (err handle_invalid) (ok handle) (λ c e. cc)
          (λ c e. (
            (string_eq.equals_iff handle.device_id device_id).0 (ground (arith, b)),
            (string_eq.equals_iff handle.session session).0 (ground (arith, b)),
            ground (arith, c),
            result-ok handle h e,
          )))
  where
    P : Result FileHandle → Type 0
    P r =
        r ≡ ok h
        → (handle.device_id ≡ device_id)
          × (handle.session ≡ session)
          × (allows handle.actions action ≡ true)
          × (handle ≡ h)

pub resolve_below-ok :
    (fs : FileSystem) (root relative root_c target_c : FilePath)
    → resolve_below fs root relative ≡ ok (root_c, target_c)
    → (fs.canonicalize root ≡ some root_c)
      × (fs.canonicalize (root_c ++ relative) ≡ some target_c)
      × (starts_with target_c root_c ≡ true)
unfolding resolve_below
resolve_below-ok fs root relative root_c target_c h = elim (Option-cases (fs.canonicalize root)) [
  | inl q ↦
      let fails : resolve_below fs root relative ≡ err handle_invalid =
        rw (resolve_below, q) refl in
      cc
  | inr (r, q) ↦ elim (Option-cases (fs.canonicalize (r ++ relative))) [
    | inl q' ↦
        let fails : resolve_below fs root relative ≡ err handle_invalid =
          rw (resolve_below, q, q') refl in
        cc
    | inr (t, q') ↦ elim (Bool-cases (starts_with t r)) [
      | inr out ↦
          let fails : resolve_below fs root relative ≡ err outside_scope =
            rw (resolve_below, q, q', out) refl in
          cc
      | inl below ↦
          let found : resolve_below fs root relative ≡ ok (r, t) =
            rw (resolve_below, q, q', below) refl in
          let is_r : r ≡ root_c = cc in
          let is_t : t ≡ target_c = cc in
          (
            q ∙ ap some is_r,
            ap (λ x. fs.canonicalize (x ++ relative)) (sym is_r) ∙ q' ∙ ap some is_t,
            ap (λ x. starts_with x root_c) (sym is_t)
                ∙ ap (λ x. starts_with t x) (sym is_r)
                ∙ below,
          )
    ]
  ]
]

pub lookup_valid-ok :
    (now : ℕ) (device_id session token : String) (action : GrantAction) (m : FileGrantManager)
    (h : FileHandle)
    → (lookup_valid now device_id session token action m).0 ≡ ok h
    → (e : GrantEntry) × (lookup token m.grants ≡ some e)
      × (now < e.deadline)
      × (check_entry device_id session action e.handle ≡ ok h)
unfolding lookup_valid
lookup_valid-ok now device_id session token action m h = go (lookup token m.grants) refl
  where
    go :
        (o : Option GrantEntry)
        → lookup token m.grants ≡ o
        → (lookup_at now device_id session token action o m).0 ≡ ok h
        → (e : GrantEntry) × (lookup token m.grants ≡ some e)
          × (now < e.deadline)
          × (check_entry device_id session action e.handle ≡ ok h)
    go none q = λ k. cc
    go (some e) q =
        if_cases
          (λ (r : Result FileHandle × FileGrantManager).
            r.0 ≡ ok h
            → (e : GrantEntry) × (lookup token m.grants ≡ some e)
              × (now < e.deadline)
              × (check_entry device_id session action e.handle ≡ ok h))
          (leb e.deadline now) (err transfer_expired, record m { grants = remove token m.grants })
          (check_entry device_id session action e.handle, m) (λ b k. cc)
          (λ b k. (e, q, ground (arith, b), k))

-- What the check of the open file says.
abbrev pub Same : FileHandle → Metadata → Type 0
Same handle meta =
    (meta.identity.dev ≡ handle.identity.dev)
    × (meta.identity.ino ≡ handle.identity.ino)
    × (meta.size ≡ handle.size)
    × (meta.mtime_ns ≡ handle.mtime_ns)

pub same_file-Same :
    (handle : FileHandle) (meta : Metadata) → same_file handle meta ≡ true → Same handle meta
same_file-Same handle meta h = ground arith

pub verify-ok :
    (handle : FileHandle) (root_c target_c : FilePath) (o : Option Metadata) (v : VerifiedFile)
    → verify handle (root_c, target_c) o ≡ ok v
    → (v.root_c ≡ root_c)
      × (v.target_c ≡ target_c)
      × (v.handle ≡ handle)
      × (o ≡ some v.meta)
      × Same handle v.meta
verify-ok handle root_c target_c none v h = cc
verify-ok handle root_c target_c (some meta) v h = elim (Bool-cases (same_file handle meta)) [
  | inr differs ↦
      let fails : verify handle (root_c, target_c) (some meta) ≡ err changed = rw differs refl in cc
  | inl b ↦
      let w : VerifiedFile = record {
        root_c = root_c;
        target_c = target_c;
        meta = meta;
        handle = handle;
      } in
      let found : verify handle (root_c, target_c) (some meta) ≡ ok w = rw b refl in
      let is_w : w ≡ v = result-ok w v (sym found ∙ h) in
      rw (sym is_w) (refl, refl, refl, refl, same_file-Same handle meta b)
]
