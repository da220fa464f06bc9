-- ===== src/Frame/Codec.antt =====
-- What the encoders and the decoder of the inner frames agree on.
use ppo_se_protocol.Common.{
  ℕ, ◌≤◌, ◌<◌, ◌^◌, ◌≡◌, List, [], ◌∷◌, ◌++◌, ok, err, arith, All-take, All-drop,
}
use ppo_se_protocol.Common.Bytes.{
  IsByte, IsBytes, from_be_bytes, from_be_bytes-u16, from_be_bytes-u32, from_be_bytes-u64,
  to_be_bytes-u16, to_be_bytes-u32, to_be_bytes-u64,
}
use ppo_se_protocol.Frame.{
  InnerFrame, data_frame, ack_frame, bad_fragment, encode_data, encode_ack, decode_inner,
}

-- A DATA frame with an index below its total, and a number and identifier in range, is read back,
-- field by field.
pub decode_inner-encode_data :
    (seq frag_id index total : ℕ) (payload : List ℕ)
    → seq < 2 ^ 32
    → frag_id < 2 ^ 16
    → index < total
    → decode_inner (encode_data seq frag_id index total payload)
      ≡ ok (data_frame seq frag_id index total payload)
unfolding encode_data decode_inner
decode_inner-encode_data seq frag_id index total payload hs hf hi =
    ground (arith, from_be_bytes-u32 seq, from_be_bytes-u16 frag_id)

-- One whose index is not below its total is refused.
pub decode_inner-encode_data_bad :
    (seq frag_id index total : ℕ) (payload : List ℕ)
    → total ≤ index
    → decode_inner (encode_data seq frag_id index total payload) ≡ err bad_fragment
unfolding encode_data decode_inner
decode_inner-encode_data_bad seq frag_id index total payload h = ground arith

-- An ACK frame with its fields in range is read back, whatever follows it.
pub decode_inner-encode_ack :
    (base bitmap : ℕ) (rest : List ℕ)
    → base < 2 ^ 32
    → bitmap < 2 ^ 64
    → decode_inner (encode_ack base bitmap ++ rest) ≡ ok (ack_frame base bitmap)
unfolding encode_ack decode_inner
decode_inner-encode_ack base bitmap rest hb hm =
    ground (arith, from_be_bytes-u32 base, from_be_bytes-u64 bitmap)

-- A frame's own encoding.
abbrev pub encode_frame : InnerFrame → List ℕ
encode_frame (data_frame seq frag_id index total payload) =
    encode_data seq frag_id index total payload
encode_frame (ack_frame base bitmap) = encode_ack base bitmap

-- The fields are in range, as their types and the decoder's checks demand.
abbrev pub IsFrame : InnerFrame → Type 0
IsFrame (data_frame seq frag_id index total payload) =
    (seq < 2 ^ 32) × (frag_id < 2 ^ 16) × (index < total) × IsByte total × IsBytes payload
IsFrame (ack_frame base bitmap) = (base < 2 ^ 32) × (bitmap < 2 ^ 64)

u32_of_bytes :
    (a b c d : ℕ) → IsBytes (a ∷ b ∷ c ∷ d ∷ []) → from_be_bytes (a ∷ b ∷ c ∷ d ∷ []) < 2 ^ 32
u32_of_bytes a b c d h = omega arith

u64_of_bytes :
    (a b c d e f g i : ℕ)
    → IsBytes (a ∷ b ∷ c ∷ d ∷ e ∷ f ∷ g ∷ i ∷ [])
    → from_be_bytes (a ∷ b ∷ c ∷ d ∷ e ∷ f ∷ g ∷ i ∷ []) < 2 ^ 64
u64_of_bytes a b c d e f g i h = omega arith

-- Bytes that decode to a DATA frame are exactly the encoding of that frame, whose fields are in
-- range.
decode_inner_data :
    (bytes : List ℕ) (seq frag_id index total : ℕ) (payload : List ℕ)
    → IsBytes bytes
    → decode_inner bytes ≡ ok (data_frame seq frag_id index total payload)
    → IsFrame (data_frame seq frag_id index total payload)
      × (bytes ≡ encode_data seq frag_id index total payload)
unfolding decode_inner encode_data
decode_inner_data (k ∷ a ∷ b ∷ c ∷ d ∷ e ∷ f ∷ g ∷ i ∷ rest) seq frag_id index total payload h eq =
    let hs : IsBytes (a ∷ b ∷ c ∷ d ∷ []) =
      All-take IsByte 4 (a ∷ b ∷ c ∷ d ∷ e ∷ f ∷ g ∷ i ∷ rest) h.1 in
    ground (
      arith,
      u32_of_bytes a b c d hs,
      to_be_bytes-u32 a b c d hs,
      to_be_bytes-u16 e f h.1.1.1.1.1.0 h.1.1.1.1.1.1.0,
    )
decode_inner_data bytes seq frag_id index total payload h eq = absurd (ground arith)

-- Bytes that decode to an ACK frame begin with its encoding; what follows is ignored.
pub decode_inner_ack :
    (bytes : List ℕ) (base bitmap : ℕ)
    → IsBytes bytes
    → decode_inner bytes ≡ ok (ack_frame base bitmap)
    → IsFrame (ack_frame base bitmap) × ((rest : List ℕ) × (bytes ≡ encode_ack base bitmap ++ rest))
unfolding decode_inner encode_ack
decode_inner_ack (k ∷ a ∷ b ∷ c ∷ d ∷ s ∷ t ∷ u ∷ v ∷ w ∷ x ∷ y ∷ z ∷ rest) base bitmap h eq =
    let low = s ∷ t ∷ u ∷ v ∷ w ∷ x ∷ y ∷ z ∷ rest in
    let hs : IsBytes (a ∷ b ∷ c ∷ d ∷ []) = All-take IsByte 4 (a ∷ b ∷ c ∷ d ∷ low) h.1 in
    let ht : IsBytes (s ∷ t ∷ u ∷ v ∷ w ∷ x ∷ y ∷ z ∷ []) =
      All-take IsByte 8 low (All-drop IsByte 4 (a ∷ b ∷ c ∷ d ∷ low) h.1) in
    (
      ground (arith, u32_of_bytes a b c d hs, u64_of_bytes s t u v w x y z ht),
      (rest, ground (arith, to_be_bytes-u32 a b c d hs, to_be_bytes-u64 s t u v w x y z ht)),
    )
decode_inner_ack bytes base bitmap h eq = absurd (ground arith)
