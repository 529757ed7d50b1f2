-- ===== src/Relay/Transfers/Limits.antt =====
-- How many transfers the registry of transfers/mod.rs keeps live over its histories.
use agent_console.Base.{
  Bool, Bool-cases, List, String, Table, [], ap, arith, if_cases, inl, inr, insert, leb, not, refl,
  string_eq, true, ℕ, ◌&&◌, ◌+◌, ◌==◌, ◌≡◌, ◌≤◌, ◌∷◌,
}
use agent_console.Relay.Transfers.State.{Transfer, TransferInfo, new_transfer}
use agent_console.Relay.Transfers.Calls.{
  Call, TransferRegistry, create, creating, live, max_concurrent_per_browser,
  max_concurrent_per_device, modify, of_device, of_owner, one_if, perform, run, sweep, sweep_all,
  sweep_one, sweeping, touch, touching,
}
use agent_console.Relay.Transfers.Later.{Later}
use agent_console.Relay.Transfers.Touches.{sweep_one-Later, touch-Later}

-- Whether a transfer counts for a limit.
abbrev counts : (TransferInfo → Bool) → Transfer → Bool
counts p t = t.registered && (not t.terminal && p t.info)

Later-counts :
    (p : TransferInfo → Bool) (t t' : Transfer)
    → Later t t'
    → one_if (counts p t') ≤ one_if (counts p t)
Later-counts p t t' l =
    let same : p t'.info ≡ p t.info = ap p l.same_info in
    elim l.leaves [
      | inl out ↦ ground (arith, out)
      | inr held ↦ elim l.settles [
        | inl open_t ↦ ground (arith, held, open_t, same)
        | inr s ↦ let ended = s.still_terminal in ground (arith, ended)
      ]
    ]

live-modify :
    (p : TransferInfo → Bool) (id : String) (f : Transfer → Transfer) (ts : Table String Transfer)
    → ((t : Transfer) → Later t (f t))
    → live p (modify id f ts) ≤ live p ts
unfolding modify
live-modify p id f [] l = omega arith
live-modify p id f ((j, t) ∷ ts) l =
    if_cases (λ x. live p x ≤ live p ((j, t) ∷ ts)) (j == id) ((j, f t) ∷ ts)
      ((j, t) ∷ modify id f ts) (λ b. omega (arith, Later-counts p t (f t) (l t)))
      (λ b. omega (arith, live-modify p id f ts l))

live-sweep_all :
    (p : TransferInfo → Bool) (now : ℕ) (ts : Table String Transfer)
    → live p (sweep_all now ts) ≤ live p ts
live-sweep_all p now [] = omega arith
live-sweep_all p now ((j, t) ∷ ts) =
    omega
      (arith, Later-counts p t (sweep_one now t) (sweep_one-Later now t), live-sweep_all p now ts)

live-insert :
    (p : TransferInfo → Bool) (id : String) (t : Transfer) (ts : Table String Transfer)
    → live p (insert id t ts) ≤ live p ts + one_if (counts p t)
unfolding insert
live-insert p id t [] = omega arith
live-insert p id t ((j, u) ∷ ts) =
    if_cases (λ x. live p x ≤ live p ((j, u) ∷ ts) + one_if (counts p t)) (j == id) ((id, t) ∷ ts)
      ((j, u) ∷ insert id t ts) (λ b. omega arith) (λ b. omega (arith, live-insert p id t ts))

-- What `create` does: nothing, or one more transfer while both limits leave room.
data Created (id : String) (info : TransferInfo) (now : ℕ) (r : TransferRegistry) : Type 0 where
  full : (create id info now r).1 ≡ r → Created id info now r
  room :
      live (of_owner info.owner) r.transfers ≤ 1
      → live (of_device info.device) r.transfers ≤ 1
      → (create id info now r).1
        ≡ record r { transfers = insert id (new_transfer id info now) r.transfers }
      → Created id info now r

create-Created :
    (id : String) (info : TransferInfo) (now : ℕ) (r : TransferRegistry) → Created id info now r
unfolding create
create-Created id info now r =
    elim (Bool-cases (leb max_concurrent_per_browser (live (of_owner info.owner) r.transfers))) [
      | inl b ↦ full (rw (create, b) refl)
      | inr b ↦
          elim (Bool-cases
            (leb max_concurrent_per_device (live (of_device info.device) r.transfers))) [
              | inl c ↦ full (rw (create, b, c) refl)
              | inr c ↦ room (ground (arith, b)) (ground (arith, c)) (rw (create, b, c) refl)
            ]
    ]

-- A limit that the new transfer counts for had room for it.
insert-limit :
    (p : TransferInfo → Bool) (id : String) (info : TransferInfo) (now : ℕ)
    (ts : Table String Transfer)
    → live p ts ≤ 2
    → (p info ≡ true → live p ts ≤ 1)
    → live p (insert id (new_transfer id info now) ts) ≤ 2
insert-limit p id info now ts le fits =
    let more = live-insert p id (new_transfer id info now) ts in
    elim (Bool-cases (p info)) [
      | inl b ↦ let le' = fits b in omega (arith, more, ap one_if b)
      | inr b ↦ omega (arith, more, ap one_if b)
    ]

-- The transfers that count for an owner and for a device are within both limits.
abbrev pub IsWithinLimits : String → String → TransferRegistry → Type 0
IsWithinLimits owner device r =
    (live (of_owner owner) r.transfers ≤ max_concurrent_per_browser)
    × (live (of_device device) r.transfers ≤ max_concurrent_per_device)

perform-IsWithinLimits :
    (call : Call) (owner device : String) (r : TransferRegistry)
    → IsWithinLimits owner device r
    → IsWithinLimits owner device (perform call r)
unfolding perform sweep
perform-IsWithinLimits (creating id info now) owner device r (o, d) =
    elim (create-Created id info now r) [
      | full q ↦ rw (perform, q) (o, d)
      | room o' d' q ↦
          rw (perform, q)
            (
              insert-limit (of_owner owner) id info now r.transfers o (λ b.
                  let same = (string_eq.equals_iff info.owner owner).0 b in
                  omega (arith, o', ap (λ x. live (of_owner x) r.transfers) same)),
              insert-limit (of_device device) id info now r.transfers d (λ b.
                  let same = (string_eq.equals_iff info.device device).0 b in
                  omega (arith, d', ap (λ x. live (of_device x) r.transfers) same)),
            )
    ]
perform-IsWithinLimits (sweeping now) owner device r (o, d) = (
  omega (arith, o, live-sweep_all (of_owner owner) now r.transfers),
  omega (arith, d, live-sweep_all (of_device device) now r.transfers),
)
perform-IsWithinLimits (touching id what) owner device r (o, d) = (
  omega (
    arith,
    o,
    live-modify (of_owner owner) id (touch r.hub what) r.transfers (touch-Later r.hub what),
  ),
  omega (
    arith,
    d,
    live-modify (of_device device) id (touch r.hub what) r.transfers (touch-Later r.hub what),
  ),
)

-- Over any history no owner and no device has more than two transfers that are registered and not
-- terminal, if that holds at the start.
pub run-IsWithinLimits :
    (calls : List Call) (owner device : String) (r : TransferRegistry)
    → IsWithinLimits owner device r
    → IsWithinLimits owner device (run calls r)
unfolding run
run-IsWithinLimits [] owner device r h = h
run-IsWithinLimits (call ∷ calls) owner device r h =
    run-IsWithinLimits calls owner device (perform call r)
      (perform-IsWithinLimits call owner device r h)
