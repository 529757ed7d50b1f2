-- ===== src/Bridge/Ipc/Stream.antt =====
-- The reader of client.rs on a stream of encoded frames, however the socket cuts it into chunks.
use agent_console.Base.{
  All, List, Option, Option-cases, [], inl, inr, length, map, none, refl, some, ℕ, ◌++◌, ◌<◌, ◌≡◌,
  ◌≤◌, ◌∷◌, arith, true, ap, sym, ◌∙◌, ◌>>=◌, Bool-cases, eqb, ltb, ◌||◌, ◌%◌, >>=-some,
}
use agent_console.Bridge.Ipc.Decoder.{
  Encoded, Json, encode_frame, encode_payload, encoded, refused, new, to_le_bytes, u32_mod,
  encode_too_large, serialize, parse, ok,
}
use agent_console.Bridge.Ipc.Reader.{reader_loop}
use agent_console.Bridge.Ipc.Frames.{Awaits, between, Frame, wire}
use agent_console.Bridge.Ipc.Draining.{concat, dispatch_all, reader_loop-Awaits}

-- What a value's text must do for the value to arrive: it is read back as that value, an object.
pub record Faithful (json : Json) (value : json.Value) : Type 0 where
  pub object : json.is_object value ≡ true
  pub utf8 :
      (text : json.Text)
      → json.to_string value ≡ some text
      → json.from_utf8 (json.as_bytes text) ≡ some text
  pub reads_back :
      (text : json.Text) → json.to_string value ≡ some text → json.from_str text ≡ some value

unfoldable pub encode_all : (json : Json) → ℕ → List json.Value → Option (List ℕ)
encode_all json limit [] = some []
encode_all json limit (v ∷ vs) = elim (encode_frame json v limit) [
  | encoded bytes ↦ encode_all json limit vs >>= λ rest. some (bytes ++ rest)
  | refused e ↦ none
]

encode_payload-encoded :
    (limit : ℕ) (payload bytes : List ℕ)
    → limit < u32_mod
    → encode_payload limit payload ≡ encoded bytes
    → (0 < length payload)
      × (length payload ≤ limit)
      × (bytes ≡ to_le_bytes (length payload) ++ payload)
encode_payload-encoded limit payload bytes small h =
    elim (Bool-cases (eqb (length payload) 0 || ltb limit (length payload))) [
      | inl refusal ↦
          let e : encode_payload limit payload
              ≡ refused (encode_too_large (length payload % u32_mod) limit) =
            rw refusal in
          cc
      | inr fine ↦
          let e : encode_payload limit payload
              ≡ encoded (to_le_bytes (length payload % u32_mod) ++ payload) =
            rw fine in
          let within : length payload ≤ limit = ground (arith, fine) in
          let whole : length payload % u32_mod ≡ length payload = omega arith in
          let found : bytes ≡ to_le_bytes (length payload % u32_mod) ++ payload = cc in
          (ground (arith, fine), within, found ∙ ap (λ k. to_le_bytes k ++ payload) whole)
    ]

wire-nil : {json : Json} {limit : ℕ} (fs : List (Frame json limit)) → wire fs ≡ [] → fs ≡ []
wire-nil [] h = refl
wire-nil (f ∷ fs) h = cc

module _ (json : Json) (limit : ℕ) (small : limit < u32_mod) where
  encode_frame-Frame :
      (v : json.Value) (bytes : List ℕ)
      → Faithful json v
      → encode_frame json v limit ≡ encoded bytes
      → (f : Frame json limit) × (f.value ≡ v)
        × (bytes ≡ to_le_bytes (length f.payload) ++ f.payload)
  unfolding encode_frame parse
  encode_frame-Frame v bytes good h = elim (Option-cases (json.to_string v)) [
    | inl bad ↦ let e : encode_frame json v limit ≡ refused serialize = rw (encode_frame, bad) in cc
    | inr (text, q) ↦
        let payload = json.as_bytes text in
        let e : encode_frame json v limit ≡ encode_payload limit payload = rw (encode_frame, q) in
        let (nonempty, within, found) =
          encode_payload-encoded limit payload bytes small (sym e ∙ h) in
        let reads : parse json payload ≡ ok v =
          rw (parse, good.utf8 text q, good.reads_back text q, good.object) in
        (
          record {
            payload = payload;
            value = v;
            nonempty = nonempty;
            within = within;
            reads = reads;
          },
          refl,
          found,
        )
  ]

  encode_all-wire :
      (vs : List json.Value) (bytes : List ℕ)
      → All (Faithful json) vs
      → encode_all json limit vs ≡ some bytes
      → (fs : List (Frame json limit)) × (map (λ f. f.value) fs ≡ vs) × (wire fs ≡ bytes)
  unfolding encode_all
  encode_all-wire [] bytes good h = ([], refl, cc)
  encode_all-wire (v ∷ vs) bytes good h = go (encode_all-wire vs) (encode_frame json v limit) refl
    where
      go :
          ((rest : List ℕ)
            → All (Faithful json) vs
            → encode_all json limit vs ≡ some rest
            → (fs : List (Frame json limit)) × (map (λ f. f.value) fs ≡ vs) × (wire fs ≡ rest))
          → (e : Encoded) → encode_frame json v limit ≡ e
          → (fs : List (Frame json limit)) × (map (λ f. f.value) fs ≡ v ∷ vs) × (wire fs ≡ bytes)
      go tail_of (refused e) q =
          let none_left : encode_all json limit (v ∷ vs) ≡ none = rw (encode_all, q) in cc
      go tail_of (encoded front) q =
          let e : encode_all json limit (v ∷ vs)
              ≡ (encode_all json limit vs >>= λ rest. some (front ++ rest)) =
            rw (encode_all, q) in
          let (rest, q', h') = >>=-some (encode_all json limit vs) _ (sym e ∙ h) in
          let (f, is_v, found) = encode_frame-Frame v front good.0 q in
          let (fs, are_vs, on_wire) = tail_of rest good.1 q' in
          (f ∷ fs, cc, ap (λ xs. xs ++ wire fs) (sym found) ∙ ap (λ xs. front ++ xs) on_wire ∙ cc)

  -- The values whose encodings are sent arrive in their order, and nothing else does, however the bytes
  -- are cut into chunks: the loop does what dispatching the values one by one does.
  pub reader_loop-encode_all :
      {S E : Type 0} (dispatch : json.Value → S → Option E × S) (s : S) (values : List json.Value)
      (bytes : List ℕ) (chunks : List (List ℕ))
      → All (Faithful json) values
      → encode_all json limit values ≡ some bytes
      → concat chunks ≡ bytes
      → reader_loop json dispatch chunks (new limit) s ≡ some (dispatch_all dispatch values s)
  unfolding new
  reader_loop-encode_all dispatch s values bytes chunks good sent cut =
      let (fs, are, on_wire) = encode_all-wire values bytes good sent in
      let a : Awaits small (concat chunks) (new limit) fs = between [] fs (cut ∙ sym on_wire) in
      reader_loop-Awaits small dispatch chunks (new limit) fs s a
        (λ nil. wire-nil fs (on_wire ∙ sym cut ∙ nil))
      ∙ ap (λ vs. some (dispatch_all dispatch vs s)) are
