-- ===== src/Relay/Streams/Replay/Unique.antt =====
-- Ascending lists of numbers: a list has one ascending rearrangement.
use mathlib.Core.Logic.Or
use mathlib.Core.Path.{ap₂}
use mathlib.Core.List.{Mem, Perm, mem-cons, mem-cons_self, not-mem-nil}
use mathlib.Core.List.Perm
use native.Mathlib.Bridge.{le_prop}
use agent_console.Base.{All, arith, List, [], ℕ, ◌∷◌, ◌≡◌, ◌≤◌}

abbrev pub Ascends : List ℕ → Type 0
Ascends [] = Unit
Ascends (x ∷ xs) = All (λ y. x ≤ y) xs × Ascends xs

above_of_mem : (n x : ℕ) (xs : List ℕ) → All (λ y. n ≤ y) xs → Mem x xs → n ≤ x
above_of_mem n x [] a m = absurd (not-mem-nil m)
above_of_mem n x (y ∷ ys) a m =
    Or.elim le_prop (mem-cons.0 m) (λ e. omega (arith, e, a.0)) (above_of_mem n x ys a.1)

head_below : (x y : ℕ) (xs ys : List ℕ) → Ascends (x ∷ xs) → Perm (y ∷ ys) (x ∷ xs) → x ≤ y
head_below x y xs ys a p =
    above_of_mem x y (x ∷ xs) (omega arith, a.0) ((Perm.mem_iff p).0 mem-cons_self)

pub ascending_unique : (xs ys : List ℕ) → Ascends xs → Ascends ys → Perm xs ys → xs ≡ ys
ascending_unique [] ys a b p = Perm.nil-eq p
ascending_unique (x ∷ xs) [] a b p = Perm.eq-nil p
ascending_unique (x ∷ xs) (y ∷ ys) a b p =
    let up = head_below x y xs ys a (Perm.symm p) in
    let down = head_below y x ys xs b p in
    let same : x ≡ y = omega (arith, up, down) in
    let rest = Perm.cons_inv (Perm.trans p (Perm.symm (Perm.cons' same Perm.rfl))) in
    ap₂ ◌∷◌ same (ascending_unique xs ys a.1 b.1 rest)
