-- ===== src/Base/Tables.antt =====
-- Maps as association lists over any key type with an equality test: `HashMap` and the tables of
-- the local database. A key stands at most once in a table built by these operations.
use mathlib.Core.Path.{◌≡◌, refl}
use mathlib.Core.Bool.{Bool}
use mathlib.Core.Option.{Option, none, some}
use mathlib.Core.List.{List, [], ◌∷◌}
use native.Mathlib.Omega.{arith}
use agent_console.Base.Tests.{if◌then◌else◌}
use agent_console.Base.Equality.{Eq, ◌==◌}

abbrev pub Table {ℓ κ} : Type ℓ → Type κ → Type (ℓ ⊔ κ)
Table K V = List (K × V)

-- What such a test leaves of one entry.
abbrev pub kept {κ} : {V : Type κ} → (V → Bool) → Option V → Option V
kept p none = none
kept p (some v) = if p v then some v else none

module _ {ℓ κ} {K : Type ℓ} {V : Type κ} ⦃e : Eq K⦄ where
  unfoldable pub lookup : K → Table K V → Option V
  lookup k [] = none
  lookup k ((j, v) ∷ t) = if j == k then some v else lookup k t

  unfoldable pub insert : K → V → Table K V → Table K V
  insert k v [] = (k, v) ∷ []
  insert k v ((j, w) ∷ t) = if j == k then (k, v) ∷ t else (j, w) ∷ insert k v t

  unfoldable pub remove : K → Table K V → Table K V
  remove k [] = []
  remove k ((j, w) ∷ t) = let rest = remove k t in if j == k then rest else (j, w) ∷ rest

  -- `HashMap::retain`: what the test refuses leaves with its key.
  unfoldable pub retain : (V → Bool) → Table K V → Table K V
  retain p [] = []
  retain p ((j, w) ∷ t) = let rest = retain p t in if p w then (j, w) ∷ rest else remove j rest

  pub lookup-insert :
      (k j : K) (v : V) (t : Table K V)
      → lookup j (insert k v t) ≡ (if k == j then some v else lookup j t)
  unfolding lookup insert
  lookup-insert k j v [] = refl
  lookup-insert k j v ((i, w) ∷ t) =
      ground (arith, e.equals_iff k j, e.equals_iff i k, e.equals_iff i j, lookup-insert k j v t)

  pub lookup-remove :
      (k j : K) (t : Table K V) → lookup j (remove k t) ≡ (if k == j then none else lookup j t)
  unfolding lookup remove
  lookup-remove k j [] = ground arith
  lookup-remove k j ((i, w) ∷ t) =
      ground (arith, e.equals_iff k j, e.equals_iff i k, e.equals_iff i j, lookup-remove k j t)

  pub lookup-retain :
      (p : V → Bool) (j : K) (t : Table K V) → lookup j (retain p t) ≡ kept p (lookup j t)
  unfolding lookup retain
  lookup-retain p j [] = refl
  lookup-retain p j ((i, w) ∷ t) =
      ground (arith, e.equals_iff i j, lookup-remove i j (retain p t), lookup-retain p j t)
