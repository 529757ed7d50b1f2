-- ===== src/Relay/Streams/Invariant/Tables.antt =====
-- What holds of every value of a table, and the invariant of a hub: what holds of every stream.
use mathlib.Core.Path.{subst}
use agent_console.Base.{
  ◌==◌, ◌∷◌, ◌≡◌, All, arith, Bool-cases, Eq, if_cases, inl, inr, insert, lookup, Option-cases,
  some, String, string_eq, Table, [], ℕ,
}
use agent_console.Relay.Frame.Messages.{Event}
use agent_console.Relay.Streams.State.{DKey, DStream, dkey_eq, UpstreamBinding}
use agent_console.Relay.Streams.Hub.{Hub, update}
use agent_console.Relay.Streams.Upstream.{find_upstream}
use agent_console.Relay.Streams.Bindings.{stream_at}
use agent_console.Relay.Streams.Sound.{IsSound, new-IsSound}

module _ {ℓ κ μ} {K : Type ℓ} {V : Type κ} ⦃e : Eq K⦄ (P : V → Type μ) where
  abbrev pub AllValues : Table K V → Type μ
  AllValues t = All (λ r. P r.1) t

  pub insert-AllValues :
      (k : K) (v : V) (t : Table K V) → P v → AllValues t → AllValues (insert k v t)
  unfolding insert
  insert-AllValues k v [] p a = (p, tt)
  insert-AllValues k v ((j, w) ∷ t) p a =
      if_cases AllValues (j == k) _ _ (λ _. (p, a.1)) (λ _. (a.0, insert-AllValues k v t p a.1))

  pub lookup-AllValues : (k : K) (v : V) (t : Table K V) → lookup k t ≡ some v → AllValues t → P v
  unfolding lookup
  lookup-AllValues k v [] h a = cc
  lookup-AllValues k v ((j, w) ∷ t) h a = elim (Bool-cases (j == k)) [
    | inl q ↦ let same : w ≡ v = ground arith in subst P same a.0
    | inr q ↦ let later : lookup k t ≡ some v = ground arith in lookup-AllValues k v t later a.1
  ]

  pub update-AllValues :
      (k : K) (f : V → V) (t : Table K V)
      → ((v : V) → P v → P (f v))
      → AllValues t
      → AllValues (update k f t)
  update-AllValues k f t g a = elim (Option-cases (lookup k t)) [
    | inl q ↦ rw (update, q) a
    | inr (v, q) ↦ rw (update, q) (insert-AllValues k (f v) t (g v (lookup-AllValues k v t q a)) a)
  ]

module _ {M : Type 0} (event_len : Event M → ℕ) where
  -- The invariant of the hub: every stream is sound.
  abbrev pub AreSound : Hub M → Type 0
  AreSound h = AllValues (IsSound event_len) h.streams

  pub find_upstream-IsSound :
      (uid : String) (h : Hub M) (key : DKey) (d : DStream M) (b : UpstreamBinding)
      → find_upstream uid h ≡ some (key, d, b)
      → AreSound h
      → IsSound event_len d
  find_upstream-IsSound uid h key d b e a = elim (Option-cases (lookup uid h.upstream_index)) [
    | inl p ↦ absurd (ground arith)
    | inr (k, p) ↦ elim (Option-cases (lookup k h.streams)) [
      | inl q ↦ absurd (ground arith)
      | inr (c, q) ↦ elim (Option-cases (lookup uid c.upstreams)) [
        | inl r ↦ absurd (ground arith)
        | inr (x, r) ↦
            let same : c ≡ d = ground arith in
            subst (IsSound event_len) same (lookup-AllValues (IsSound event_len) k c h.streams q a)
      ]
    ]
  ]

  pub stream_at-IsSound :
      (fresh : String) (key : DKey) (h : Hub M)
      → AreSound h
      → IsSound event_len (stream_at fresh key h)
  stream_at-IsSound fresh key h a = elim (Option-cases (lookup key h.streams)) [
    | inl q ↦ rw (stream_at, q) (new-IsSound event_len fresh key)
    | inr (d, q) ↦ rw (stream_at, q) (lookup-AllValues (IsSound event_len) key d h.streams q a)
  ]

  -- An entry of the table of streams is replaced.
  pub put-AreSound :
      (key : DKey) (d : DStream M) (t : Table DKey (DStream M))
      → IsSound event_len d
      → AllValues (IsSound event_len) t
      → AllValues (IsSound event_len) (insert key d t)
  put-AreSound key d t s a = insert-AllValues (IsSound event_len) key d t s a
