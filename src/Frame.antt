-- ===== src/Frame.antt =====
-- reliability/frame.rs: the inner plaintext frames.
pub mod Codec
use ppo_se_protocol.Common.{
  ℕ, ◌+◌, ◌||◌, not, List, [], ◌∷◌, ◌++◌, Result, ok, err, ltb, leb, ◌==◌, if◌then◌else◌, length,
  get_or, drop, slice,
}
use ppo_se_protocol.Common.Bytes.{to_be_bytes, from_be_bytes}

abbrev pub max_payload : ℕ
max_payload = 1024

abbrev pub data_hdr_len : ℕ
data_hdr_len = 9

abbrev pub ack_len : ℕ
ack_len = 13

-- `data_frame seq frag_id index total payload` and `ack_frame base bitmap`.
pub data InnerFrame : Type 0 where
  data_frame : ℕ → ℕ → ℕ → ℕ → List ℕ → InnerFrame
  ack_frame : ℕ → ℕ → InnerFrame

pub data FrameError : Type 0 where
  truncated bad_kind bad_fragment : FrameError

unfoldable pub encode_data : ℕ → ℕ → ℕ → ℕ → List ℕ → List ℕ
encode_data seq frag_id index total payload =
    0x01 ∷ (to_be_bytes 4 seq ++ (to_be_bytes 2 frag_id ++ (index ∷ total ∷ payload)))

unfoldable pub encode_ack : ℕ → ℕ → List ℕ
encode_ack base bitmap = 0x02 ∷ (to_be_bytes 4 base ++ to_be_bytes 8 bitmap)

decode_data : List ℕ → Result FrameError InnerFrame
decode_data bytes =
    if ltb (length bytes) data_hdr_len
    then err truncated
    else let index = get_or bytes 7 0 in
      let total = get_or bytes 8 0 in
      if total == 0 || leb total index
      then err bad_fragment
      else ok (
          data_frame (from_be_bytes (slice bytes 1 5)) (from_be_bytes (slice bytes 5 7)) index total
            (drop data_hdr_len bytes))

decode_ack : List ℕ → Result FrameError InnerFrame
decode_ack bytes =
    if ltb (length bytes) ack_len
    then err truncated
    else ok (ack_frame (from_be_bytes (slice bytes 1 5)) (from_be_bytes (slice bytes 5 13)))

-- The indices are in range behind the tests of the length.
unfoldable pub decode_inner : List ℕ → Result FrameError InnerFrame
unfolding decode_data decode_ack
decode_inner [] = err truncated
decode_inner (kind ∷ rest) =
    if kind == 0x01
    then decode_data (kind ∷ rest)
    else if kind == 0x02
    then decode_ack (kind ∷ rest)
    else err bad_kind
