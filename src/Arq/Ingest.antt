-- ===== src/Arq/Ingest.antt =====
-- `Arq::ingest`: one decrypted inner frame.
use ppo_se_protocol.Common.{ℕ, true, Option, none, some, List, Result, ok, err}
use ppo_se_protocol.Frame.{InnerFrame, data_frame, ack_frame, FrameError, encode_ack, decode_inner}
use ppo_se_protocol.Arq.{Arq, ArqError, frame}
use ppo_se_protocol.Arq.Receive.{on_data}
use ppo_se_protocol.Arq.Acknowledge.{on_ack}

unfoldable pub ingest_frame :
    Result FrameError InnerFrame → Arq → Arq × Result ArqError (Option (List ℕ))
unfolding on_data on_ack
ingest_frame (err e) s = (s, err (frame e))
ingest_frame (ok (ack_frame base bitmap)) s = (on_ack base bitmap s, ok none)
ingest_frame (ok (data_frame seq frag_id index total payload)) s =
    let s' = record (on_data seq frag_id index total payload s) { pending_ack = true } in
    (s', ok (some (encode_ack s'.recv_base s'.recv_bits)))

-- The state after the frame, and the ACK that should be sent.
unfoldable pub ingest : List ℕ → Arq → Arq × Result ArqError (Option (List ℕ))
unfolding ingest_frame
ingest plaintext s = ingest_frame (decode_inner plaintext) s
