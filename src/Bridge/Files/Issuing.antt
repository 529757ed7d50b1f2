-- ===== src/Bridge/Files/Issuing.antt =====
-- Issuing a handle by files/grant.rs, and reading with it.
use agent_console.Base.{
  Bool-cases, Option, Option-cases, String, ap, arith, false, if_cases, inl, inr, insert, leb,
  lookup, lookup-insert, nat_eq, none, refl, some, string_eq, sym, true, ℕ, ==_refl, ◌++◌, ◌+◌, ◌<◌,
  ◌≡◌, ◌∙◌, not,
}
use agent_console.Bridge.Files.State.{
  FileGrantManager, FileHandle, FilePath, FileSystem, GrantAction, GrantEntry, Metadata, Result,
  allows, err, handle_invalid, internal, max_grant_ttl, ok, outside_scope,
}
use agent_console.Bridge.Files.Grant.{
  Request, VerifiedFile, check_entry, grant, handle_of, issue, issue_at, locate, lookup_valid, min,
  normalize_relative, open_below, read_with, refuses_request, resolve_below, resolve_for_read,
  starts_with, verify, same_file,
}

-- Where a request leads.
record Located (fs : FileSystem) (root_c relative target_c : FilePath) (q : Request) : Type 0 where
  at_root : fs.canonicalize q.root ≡ some root_c
  at_target : fs.canonicalize (root_c ++ relative) ≡ some target_c
  under : starts_with target_c root_c ≡ true

locate-Located :
    (fs : FileSystem) (q : Request) (root_c relative target_c : FilePath)
    → locate fs q ≡ ok (root_c, relative, target_c)
    → Located fs root_c relative target_c q
locate-Located fs q root_c relative target_c h = elim (Option-cases (fs.canonicalize q.root)) [
  | inl e ↦ let fails : locate fs q ≡ err handle_invalid = rw (locate, e) refl in cc
  | inr (r, e) ↦ elim (Bool-cases (not (fs.is_dir r))) [
    | inl b ↦ let fails : locate fs q ≡ err handle_invalid = rw (locate, e, b) refl in cc
    | inr b ↦ elim (Option-cases (normalize_relative q.relative)) [
      | inl e' ↦ let fails : locate fs q ≡ err handle_invalid = rw (locate, e, b, e') refl in cc
      | inr (l, e') ↦ elim (Option-cases (fs.canonicalize (r ++ l))) [
        | inl k ↦ let fails : locate fs q ≡ err handle_invalid = rw (locate, e, b, e', k) refl in cc
        | inr (c, k) ↦ elim (Bool-cases (starts_with c r)) [
          | inr out ↦
              let fails : locate fs q ≡ err outside_scope = rw (locate, e, b, e', k, out) refl in cc
          | inl under ↦
              let found : locate fs q ≡ ok (r, l, c) = rw (locate, e, b, e', k, under) refl in
              let is_r : r ≡ root_c = cc in
              let is_l : l ≡ relative = cc in
              let is_c : c ≡ target_c = cc in
              record {
                at_root = e ∙ ap some is_r;
                at_target =
                    ap (λ x. fs.canonicalize (x ++ relative)) (sym is_r)
                    ∙ ap (λ x. fs.canonicalize (r ++ x)) (sym is_l)
                    ∙ k
                    ∙ ap some is_c;
                under =
                    ap (λ x. starts_with x root_c) (sym is_c)
                    ∙ ap (λ x. starts_with c x) (sym is_r)
                    ∙ under;
              }
        ]
      ]
    ]
  ]
]

module _ (fs : FileSystem)
    (canonical : (p r : FilePath) → fs.canonicalize p ≡ some r → fs.canonicalize r ≡ some r) where
  read_with-issued :
      (q : Request) (token : String) (root_c relative target_c : FilePath) (meta : Metadata)
      → Located fs root_c relative target_c q
      → fs.metadata target_c ≡ some meta
      → fs.open_file target_c ≡ fs.metadata target_c
      → read_with fs (ok (handle_of token q root_c relative meta))
        ≡ ok (record {
          root_c = root_c;
          target_c = target_c;
          meta = meta;
          handle = handle_of token q root_c relative meta;
        })
  unfolding resolve_below
  read_with-issued q token root_c relative target_c meta l k opens =
      let same : same_file (handle_of token q root_c relative meta) meta ≡ true =
        ground (arith, nat_eq.equals_iff meta.identity.dev meta.identity.dev) in
      rw
        (
          read_with,
          resolve_below,
          canonical q.root root_c l.at_root,
          l.at_target,
          l.under,
          open_below,
          opens,
          k,
          verify,
          same,
        )
        refl

  -- A handle that was issued opens its file while it is in time, for the device and the session that
  -- it was issued for and an action that it allows, if the file system has not changed, a canonical
  -- path stays as it is, and the file that the request leads to can be opened and is then the one
  -- that its metadata told of.
  pub issue-resolve_for_read :
      (token : String) (now later : ℕ) (q : Request) (m : FileGrantManager) (h : FileHandle)
      (action : GrantAction)
      → ((root_c relative target_c : FilePath)
          → locate fs q ≡ ok (root_c, relative, target_c)
          → fs.open_file target_c ≡ fs.metadata target_c)
      → (issue fs token now q m).0 ≡ ok h
      → later < now + min q.ttl max_grant_ttl
      → allows q.actions action ≡ true
      → (v : VerifiedFile) × ((resolve_for_read fs later q.device_id q.session token action
            (issue fs token now q m).1).0
          ≡ ok v)
        × (v.handle ≡ h)
  unfolding issue resolve_for_read lookup_valid
  issue-resolve_for_read token now later q m h action opens issued in_time allowed =
      if_cases P (refuses_request q) (err internal, m) (issue_at fs token now q (locate fs q) m)
        (λ b e. cc) (λ b. at (locate fs q) refl) issued
    where
      Opens : FileGrantManager → Type 0
      Opens m' =
          (v : VerifiedFile) × (read_with fs
              (lookup_valid later q.device_id q.session token action m').0
            ≡ ok v)
          × (v.handle ≡ h)

      P : Result FileHandle × FileGrantManager → Type 0
      P r = r.0 ≡ ok h → Opens r.1

      reads :
          (root_c relative target_c : FilePath) (meta : Metadata)
          → Located fs root_c relative target_c q
          → fs.metadata target_c ≡ some meta
          → fs.open_file target_c ≡ fs.metadata target_c
          → handle_of token q root_c relative meta ≡ h
          → Opens (record m {
            grants =
                insert token
                  (record {
                    handle = handle_of token q root_c relative meta;
                    deadline = now + min q.ttl max_grant_ttl;
                  })
                  m.grants;
          })
      reads root_c relative target_c meta l k can_open is_h =
          let handle = handle_of token q root_c relative meta in
          let entry : GrantEntry = record {
            handle = handle;
            deadline = now + min q.ttl max_grant_ttl;
          } in
          let found : lookup token (insert token entry m.grants) ≡ some entry =
            lookup-insert token token entry m.grants ∙ rw (==_refl token) refl in
          let fresh : leb entry.deadline later ≡ false = ground (arith, in_time) in
          let checked : check_entry q.device_id q.session action handle ≡ ok handle =
            rw (==_refl q.device_id, ==_refl q.session, allowed) refl in
          (
            record { root_c = root_c; target_c = target_c; meta = meta; handle = handle },
            rw (found, fresh, checked)
                (read_with-issued q token root_c relative target_c meta l k can_open),
            is_h,
          )

      granted :
          (root_c relative target_c : FilePath)
          → Located fs root_c relative target_c q
          → fs.open_file target_c ≡ fs.metadata target_c
          → (o : Option Metadata) → fs.metadata target_c ≡ o
          → P (grant token now q (root_c, relative, target_c) o m)
      granted r l c place can_open none k = λ e. cc
      granted r l c place can_open (some meta) k =
          if_cases P (not meta.is_file) (err handle_invalid, m)
            (
              ok (handle_of token q r l meta),
              record m {
                grants =
                    insert token
                      (record {
                        handle = handle_of token q r l meta;
                        deadline = now + min q.ttl max_grant_ttl;
                      })
                      m.grants;
              },
            )
            (λ b e. cc) (λ b e. reads r l c meta place k can_open cc)

      at :
          (o : Result (FilePath × FilePath × FilePath))
          → locate fs q ≡ o
          → P (issue_at fs token now q o m)
      at (err e) k = λ e2. cc
      at (ok (r, l, c)) k =
          granted r l c (locate-Located fs q r l c k) (opens r l c k) (fs.metadata c) refl
