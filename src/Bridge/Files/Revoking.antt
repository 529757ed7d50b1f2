-- ===== src/Bridge/Files/Revoking.antt =====
-- Handles that were revoked, over the histories of the manager of files/grant.rs.
use agent_console.Base.{
  Bool, Bool-cases, List, Option, String, [], any, ap, arith, false, if_cases, inl, inr, insert,
  kept, leb, lookup, lookup-insert, lookup-remove, lookup-retain, ltb, none, refl, remove, some,
  string_eq, ℕ, ==_refl, ◌+◌, ◌==◌, ◌≡◌, ◌∙◌, ◌∷◌, not,
}
use agent_console.Bridge.Files.State.{
  FileGrantManager, FileHandle, FilePath, FileSystem, GrantAction, GrantEntry, Metadata, Result,
  err, handle_invalid, internal, max_grant_ttl, ok, transfer_expired,
}
use agent_console.Bridge.Files.Grant.{
  Request, check_entry, grant, handle_of, issue, issue_at, locate, lookup_at, lookup_valid, min,
  refuses_request, resolve_for_read, revoke, sweep_expired, read_with,
}

pub data GrantCall : Type 0 where
  issuing : FileSystem → String → ℕ → Request → GrantCall
  resolving : FileSystem → ℕ → String → String → String → GrantAction → GrantCall
  revoking : String → GrantCall
  sweeping : ℕ → GrantCall

unfoldable pub grant_step : GrantCall → FileGrantManager → FileGrantManager
unfolding issue resolve_for_read revoke sweep_expired
grant_step (issuing fs token now q) m = (issue fs token now q m).1
grant_step (resolving fs now d s token action) m = (resolve_for_read fs now d s token action m).1
grant_step (revoking token) m = (revoke token m).1
grant_step (sweeping now) m = (sweep_expired now m).1

unfoldable pub grant_run : List GrantCall → FileGrantManager → FileGrantManager
unfolding grant_step
grant_run [] m = m
grant_run (call ∷ calls) m = grant_run calls (grant_step call m)

abbrev pub issues : String → GrantCall → Bool
issues token (issuing fs t now q) = t == token
issues token _ = false

abbrev Unknown : String → FileGrantManager → Type 0
Unknown token m = lookup token m.grants ≡ none

grant-Unknown :
    (token t : String) (now : ℕ) (q : Request) (p : FilePath × FilePath × FilePath)
    (o : Option Metadata) (m : FileGrantManager)
    → (t == token) ≡ false
    → Unknown token m
    → Unknown token (grant t now q p o m).1
grant-Unknown token t now q p none m other u = u
grant-Unknown token t now q (r, l, c) (some meta) m other u =
    let entry : GrantEntry = record {
      handle = handle_of t q r l meta;
      deadline = now + min q.ttl max_grant_ttl;
    } in
    if_cases (λ (x : Result FileHandle × FileGrantManager). Unknown token x.1) (not meta.is_file)
      (err handle_invalid, m)
      (ok (handle_of t q r l meta), record m { grants = insert t entry m.grants }) (λ b. u)
      (λ b. lookup-insert t token entry m.grants ∙ rw other u)

issue-Unknown :
    (fs : FileSystem) (token t : String) (now : ℕ) (q : Request) (m : FileGrantManager)
    → (t == token) ≡ false
    → Unknown token m
    → Unknown token (issue fs t now q m).1
unfolding issue
issue-Unknown fs token t now q m other u =
    if_cases (λ (x : Result FileHandle × FileGrantManager). Unknown token x.1) (refuses_request q)
      (err internal, m) (issue_at fs t now q (locate fs q) m) (λ b. u) (λ b. go (locate fs q))
  where
    go : (r : Result (FilePath × FilePath × FilePath)) → Unknown token (issue_at fs t now q r m).1
    go (err e) = u
    go (ok (a, l, c)) = grant-Unknown token t now q (a, l, c) (fs.metadata c) m other u

remove-Unknown :
    (token t : String) (m : FileGrantManager)
    → Unknown token m
    → Unknown token (record m { grants = remove t m.grants })
remove-Unknown token t m u =
    lookup-remove t token m.grants
    ∙ elim (Bool-cases (t == token)) [ inl b ↦ rw b refl | inr b ↦ rw b u ]

lookup_valid-Unknown :
    (token t : String) (now : ℕ) (d s : String) (action : GrantAction) (m : FileGrantManager)
    → Unknown token m
    → Unknown token (lookup_valid now d s t action m).1
unfolding lookup_valid
lookup_valid-Unknown token t now d s action m u = go (lookup t m.grants)
  where
    go : (o : Option GrantEntry) → Unknown token (lookup_at now d s t action o m).1
    go none = u
    go (some e) =
        if_cases (λ (x : Result FileHandle × FileGrantManager). Unknown token x.1)
          (leb e.deadline now) (err transfer_expired, record m { grants = remove t m.grants })
          (check_entry d s action e.handle, m) (λ b. remove-Unknown token t m u) (λ b. u)

step-Unknown :
    (token : String) (call : GrantCall) (m : FileGrantManager)
    → issues token call ≡ false
    → Unknown token m
    → Unknown token (grant_step call m)
unfolding grant_step resolve_for_read revoke sweep_expired
step-Unknown token (issuing fs t now q) m other u = issue-Unknown fs token t now q m other u
step-Unknown token (resolving fs now d s t action) m other u =
    lookup_valid-Unknown token t now d s action m u
step-Unknown token (revoking t) m other u = remove-Unknown token t m u
step-Unknown token (sweeping now) m other u =
    lookup-retain (λ e. ltb now e.deadline) token m.grants
    ∙ ap (kept (λ (e : GrantEntry). ltb now e.deadline)) u

run-Unknown :
    (token : String) (calls : List GrantCall) (m : FileGrantManager)
    → any (issues token) calls ≡ false
    → Unknown token m
    → Unknown token (grant_run calls m)
unfolding grant_run
run-Unknown token [] m fresh u = u
run-Unknown token (call ∷ calls) m fresh u =
    let first : issues token call ≡ false = ground (arith, fresh) in
    let others : any (issues token) calls ≡ false = ground (arith, fresh) in
    run-Unknown token calls (grant_step call m) others (step-Unknown token call m first u)

-- A token that was revoked opens nothing any more, whatever is called, unless it is issued again.
pub revoke_forever :
    (calls : List GrantCall) (fs : FileSystem) (now : ℕ) (device_id session token : String)
    (action : GrantAction) (m : FileGrantManager)
    → any (issues token) calls ≡ false
    → (resolve_for_read fs now device_id session token action
        (grant_run calls (revoke token m).1)).0
      ≡ err handle_invalid
unfolding revoke resolve_for_read lookup_valid
revoke_forever calls fs now device_id session token action m fresh =
    let gone : Unknown token (revoke token m).1 =
      lookup-remove token token m.grants ∙ rw (==_refl token) refl in
    let after = run-Unknown token calls (revoke token m).1 fresh gone in
    ap
      (λ o.
        read_with fs
          (lookup_at now device_id session token action o (grant_run calls (revoke token m).1)).0)
      after
