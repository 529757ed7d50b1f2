-- ===== src/Bridge/Files/Slots.antt =====
-- The slots for transfers of files/grant.rs, and the guards that hold them.
use agent_console.Base.{
  Bool-cases, List, Option, String, Table, [], ap, arith, eqb, if_cases, if◌then◌else◌, inl, inr,
  insert, leb, lookup, lookup-insert, lookup-remove, none, refl, remove, some, string_eq, sym, true,
  ℕ, ◌+◌, ◌-◌, ◌<◌, ◌==◌, ◌≡◌, ◌≤◌, ◌∙◌, ◌∷◌, ltb,
}
use agent_console.Bridge.Files.State.{FileGrantManager, max_active_transfers_per_device}
use agent_console.Bridge.Files.Grant.{
  acquire_transfer_slot, active, release_at, release_transfer_slot,
}

-- The devices whose guards are held, as they come and go.
pub data SlotCall : Type 0 where
  acquiring dropping : String → SlotCall

abbrev pub held : String → List String → ℕ
held device_id [] = 0
held device_id (d ∷ ds) = (if d == device_id then 1 else 0) + held device_id ds

-- One guard of the device less.
abbrev pub give_back : String → List String → List String
give_back device_id [] = []
give_back device_id (d ∷ ds) =
    let rest = give_back device_id ds in if d == device_id then ds else d ∷ rest

-- A guard that is held is dropped once; there is no other.
abbrev pub slot_step : SlotCall → FileGrantManager × List String → FileGrantManager × List String
slot_step (acquiring d) (m, guards) =
    let (got, m') = acquire_transfer_slot d m in (m', if got then d ∷ guards else guards)
slot_step (dropping d) (m, guards) =
    if ltb 0 (held d guards) then (release_transfer_slot d m, give_back d guards) else (m, guards)

unfoldable pub slot_run :
    List SlotCall → FileGrantManager × List String → FileGrantManager × List String
unfolding acquire_transfer_slot release_transfer_slot
slot_run [] s = s
slot_run (call ∷ calls) s = slot_run calls (slot_step call s)

-- The count of a device is that of its guards, and at most two.
pub record IsCounted (device_id : String) (s : FileGrantManager × List String) : Type 0 where
  pub exact : active (lookup device_id s.0.transfers) ≡ held device_id s.1
  pub bounded : held device_id s.1 ≤ max_active_transfers_per_device

-- Every device at once.
AllCounted : FileGrantManager × List String → Type 0
AllCounted s = (j : String) → IsCounted j s

at_device : {A : Type 0} (f : String → A) (d j : String) → (d == j) ≡ true → f j ≡ f d
at_device f d j b = ap f (sym ((string_eq.equals_iff d j).0 b))

active-insert :
    (d j : String) (n : ℕ) (ts : Table String ℕ)
    → active (lookup j (insert d n ts)) ≡ (if d == j then n else active (lookup j ts))
active-insert d j n ts =
    rw (lookup-insert d j n ts)
      (elim (Bool-cases (d == j)) [ inl b ↦ rw b refl | inr b ↦ rw b refl ])

active-remove :
    (d j : String) (ts : Table String ℕ)
    → active (lookup j (remove d ts)) ≡ (if d == j then 0 else active (lookup j ts))
active-remove d j ts =
    rw (lookup-remove d j ts) (elim (Bool-cases (d == j)) [ inl b ↦ rw b refl | inr b ↦ rw b refl ])

acquire-AllCounted :
    (d : String) (s : FileGrantManager × List String)
    → AllCounted s
    → AllCounted (slot_step (acquiring d) s)
unfolding acquire_transfer_slot AllCounted
acquire-AllCounted d (m, guards) c j =
    let count = active (lookup d m.transfers) in
    elim (Bool-cases (leb max_active_transfers_per_device count)) [
      | inl full ↦ rw full (record {
        exact = active-insert d j count m.transfers ∙ elim (Bool-cases (d == j)) [
          | inl b ↦ rw b (sym (at_device (λ k. active (lookup k m.transfers)) d j b) ∙ (c j).exact)
          | inr b ↦ rw b ((c j).exact)
        ];
        bounded = (c j).bounded;
      })
      | inr room ↦ rw room (record {
        exact = active-insert d j (count + 1) m.transfers ∙ elim (Bool-cases (d == j)) [
          | inl b ↦
              let here = at_device (λ k. held k guards) d j b in
              rw b (omega (arith, (c d).exact, here))
          | inr b ↦ rw b (omega (arith, (c j).exact))
        ];
        bounded = elim (Bool-cases (d == j)) [
          | inl b ↦
              let here = at_device (λ k. held k guards) d j b in
              let few : count < 2 = ground (arith, room) in
              rw b (omega (arith, (c d).exact, here, few))
          | inr b ↦ rw b (omega (arith, (c j).bounded))
        ];
      })
    ]

held-give_back :
    (d j : String) (guards : List String)
    → 0 < held d guards
    → held j guards ≡ held j (give_back d guards) + (if d == j then 1 else 0)
held-give_back d j [] h = ground arith
held-give_back d j (g ∷ guards) h = ground (
  arith,
  string_eq.equals_iff g d,
  string_eq.equals_iff g j,
  string_eq.equals_iff d j,
  held-give_back d j guards,
)

release-active :
    (d j : String) (o : Option ℕ) (m : FileGrantManager)
    → 0 < active o
    → active (lookup j (release_at d o m).transfers)
      ≡ (if d == j then active o - 1 else active (lookup j m.transfers))
release-active d j none m h = omega arith
release-active d j (some count) m h =
    if_cases
      (λ x.
        active (lookup j x.transfers)
        ≡ (if d == j then count - 1 else active (lookup j m.transfers)))
      (eqb (count - 1) 0) (record m { transfers = remove d m.transfers })
      (record m { transfers = insert d (count - 1) m.transfers })
      (λ b.
        let last : count - 1 ≡ 0 = ground (arith, b) in
        active-remove d j m.transfers
        ∙ ap (λ n. if d == j then n else active (lookup j m.transfers)) (sym last))
      (λ b. active-insert d j (count - 1) m.transfers)

release-AllCounted :
    (d : String) (s : FileGrantManager × List String)
    → AllCounted s
    → AllCounted (slot_step (dropping d) s)
unfolding release_transfer_slot AllCounted
release-AllCounted d (m, guards) c j =
    if_cases (IsCounted j) (ltb 0 (held d guards)) (release_transfer_slot d m, give_back d guards)
      (m, guards)
      (λ some_held.
        let positive : 0 < held d guards = ground (arith, some_held) in
        let count : 0 < active (lookup d m.transfers) = omega (arith, (c d).exact) in
        let left = held-give_back d j guards positive in
        record {
          exact = release-active d j (lookup d m.transfers) m count ∙ elim (Bool-cases (d == j)) [
            | inl b ↦
                let here = at_device (λ k. held k guards) d j b in
                rw b
                  (omega (arith, (c d).exact, here, left, ap {B = ℕ} (λ x. if x then 1 else 0) b))
            | inr b ↦
                rw b (omega (arith, (c j).exact, left, ap {B = ℕ} (λ x. if x then 1 else 0) b))
          ];
          bounded = omega (arith, (c j).bounded, left);
        })
      (λ none_held. c j)

run-AllCounted :
    (calls : List SlotCall) (s : FileGrantManager × List String)
    → AllCounted s
    → AllCounted (slot_run calls s)
unfolding slot_run
run-AllCounted [] s c = c
run-AllCounted (acquiring d ∷ calls) s c =
    run-AllCounted calls (slot_step (acquiring d) s) (acquire-AllCounted d s c)
run-AllCounted (dropping d ∷ calls) s c =
    run-AllCounted calls (slot_step (dropping d) s) (release-AllCounted d s c)

-- From a manager without slots, whatever is acquired and dropped, the count of a device is the number
-- of its guards that are held, and that is at most two.
pub slot_run-IsCounted :
    (calls : List SlotCall) (m : FileGrantManager) (device_id : String)
    → m.transfers ≡ []
    → IsCounted device_id (slot_run calls (m, []))
unfolding AllCounted lookup
slot_run-IsCounted calls m device_id h =
    run-AllCounted calls (m, [])
      (λ j. record { exact = ap (λ x. active (lookup j x)) h; bounded = omega arith }) device_id
