-- ===== src/Session/Round.antt =====
-- A round between two sessions: a flush, what arrives of it, and the answers on their way back.
use ppo_se_protocol.Common.{
  ℕ, ◌+◌, ◌≤◌, ◌≡◌, refl, ap, sym, subst, ◌∙◌, true, none, List, [], ◌∷◌, ◌++◌, append-nil, Result,
  ok, err, arith, length, All, All-append,
}
use ppo_se_protocol.Wire.{max_datagram, SocketAddr}
use ppo_se_protocol.Frame.{InnerFrame, data_frame, ack_frame, FrameError, encode_ack, decode_inner}
use ppo_se_protocol.Crypto.{Primitives}
use ppo_se_protocol.Noise.{Snow}
use ppo_se_protocol.Noise.Ordered.{IsOrdered, Linked}
use ppo_se_protocol.Arq.{Arq}
use ppo_se_protocol.Arq.Receive.{on_data}
use ppo_se_protocol.Arq.Ingest.{ingest, ingest_frame}
use ppo_se_protocol.Arq.Send.{take_new_sends, take_retransmits}
use ppo_se_protocol.Udp.{Host}
use ppo_se_protocol.Session.{UdpSession}
use ppo_se_protocol.Session.Transfer.{flush}
use ppo_se_protocol.Session.Direct.{directly}
use ppo_se_protocol.Session.Carries.{Carries}
use ppo_se_protocol.Session.Flush.{flush-Sealing}
use ppo_se_protocol.Session.Channel.{ingest_all, answers_of, replies, handle_all, handle_all-At}

-- A frame that asks for no answer.
abbrev IsQuiet : List ℕ → Type 0
IsQuiet text = (s : Arq) → (ingest text s).1 ≡ ok none

encode_ack-IsQuiet : (base bitmap : ℕ) → IsQuiet (encode_ack base bitmap)
unfolding encode_ack decode_inner ingest ingest_frame
encode_ack-IsQuiet base bitmap s = refl

reply-IsQuiet :
    (o : Result FrameError InnerFrame) (s : Arq) → All IsQuiet (answers_of (ingest_frame o s).1)
unfolding ingest_frame
reply-IsQuiet (err e) s = tt
reply-IsQuiet (ok (ack_frame base bitmap)) s = tt
reply-IsQuiet (ok (data_frame seq frag_id index total payload)) s =
    let s' = on_data seq frag_id index total payload s in
    (encode_ack-IsQuiet s'.recv_base s'.recv_bits, tt)

replies-IsQuiet : (texts : List (List ℕ)) (s : Arq) → All IsQuiet (replies texts s)
unfolding replies ingest
replies-IsQuiet [] s = tt
replies-IsQuiet (text ∷ texts) s =
    All-append IsQuiet (answers_of (ingest text s).1) (replies texts (ingest text s).0)
      (reply-IsQuiet (decode_inner text) s) (replies-IsQuiet texts (ingest text s).0)

quiet-replies : (texts : List (List ℕ)) (s : Arq) → All IsQuiet texts → replies texts s ≡ []
unfolding replies
quiet-replies [] s h = refl
quiet-replies (text ∷ texts) s h =
    ap (λ x. answers_of x ++ replies texts (ingest text s).0) (h.0 s)
    ∙ quiet-replies texts (ingest text s).0 h.1

Carries-none :
    {snow : Snow} (laws : IsOrdered snow) (key : laws.Key) (hop : SocketAddr) (number : ℕ)
    (ds : List (List ℕ × SocketAddr))
    → Carries laws key hop number [] ds
    → ds ≡ []
Carries-none laws key hop number [] c = refl
Carries-none laws key hop number (d ∷ ds) c = absurd c

module _ {snow : Snow} (laws : IsOrdered snow) where
  -- Each of the two reads with the key with which the other writes, as far as the other has written.
  pub record InStep (a b : snow.TransportState) : Type 0 where
    pub forth : Linked laws a b
    pub back : Linked laws b a
    pub forth_meets : laws.expected b ≡ laws.sent a
    pub back_meets : laws.expected a ≡ laws.sent b

module _ {snow : Snow} (prims : Primitives) (host_s host_r : Host) (laws : IsOrdered snow) where
  -- A round from `a`, `s` and `b`, `r`: what `flush` sends arrives, and the answers arrive.
  pub record Round (a b : snow.TransportState) (s r : UdpSession snow) : Type 0 where
    pub a' : snow.TransportState
    pub a'' : snow.TransportState
    pub b' : snow.TransportState
    pub s' : UdpSession snow
    pub s'' : UdpSession snow
    pub r' : UdpSession snow
    pub datagrams : List (List ℕ × SocketAddr)
    pub answers : List (List ℕ × SocketAddr)
    pub flushes : flush prims host_s (directly a s) ≡ (directly a' s', ok tt)
    pub sends : s'.sock.outbox ≡ s.sock.outbox ++ datagrams
    pub hears : handle_all prims host_r datagrams (directly b r) ≡ directly b' r'
    pub replies_with : r'.sock.outbox ≡ r.sock.outbox ++ answers
    pub learns : handle_all prims host_s answers (directly a' s') ≡ directly a'' s''
    pub rests : s''.sock.outbox ≡ s'.sock.outbox
    pub in_step : InStep laws a'' b'

  -- On direct paths in transport mode, over an ordered transport in which each side has read as far as
  -- the other has written, with sockets that accept every datagram and nothing to be dropped: if the
  -- ARQ of the sender hands out `news` as new and then `due` for retransmission, and these frames fit,
  -- then there is a round, in which `flush` ends without an error, the receiver handles in turn what
  -- was sent, and the sender handles in turn what was answered, sending nothing more. Its effect is
  -- that the receiver's ARQ ingests the frames in this order and the sender's ARQ ingests the answers
  -- of the receiver's ARQ in this order; and again each has read as far as the other has written.
  pub flush-Round :
      (a b : snow.TransportState) (s r : UdpSession snow) (arq1 arq2 : Arq)
      (news due : List (List ℕ))
      → ((i : ℕ) → host_s.delivers i ≡ true)
      → ((i : ℕ) → host_r.delivers i ≡ true)
      → InStep laws a b
      → s.drop_data ≡ 0
      → take_new_sends (host_s.clock s.sock.ticks) s.arq ≡ (arq1, news)
      → take_retransmits (host_s.clock s.sock.ticks) arq1 ≡ (arq2, ok due)
      → All (λ inner. 24 + length inner ≤ max_datagram) news
      → All (λ inner. 24 + length inner ≤ max_datagram) due
      → (w : Round a b s r) × (w.r'.arq ≡ ingest_all (news ++ due) r.arq)
        × (w.s''.arq ≡ ingest_all (replies (news ++ due) r.arq) arq2)
  flush-Round a b s r arq1 arq2 news due goes_s goes_r i none_dropped new again fits fits' =
      let frames = news ++ due in
      let f =
        flush-Sealing prims host_s laws b goes_s a s arq1 arq2 news due i.forth none_dropped new
          again fits fits' in
      let h = handle_all-At prims host_r laws goes_r s.next_hop frames f.datagrams b r (
        subst (λ n. Carries laws (laws.read_key b) s.next_hop n frames f.datagrams)
          (sym i.forth_meets) f.carries) in
      let answers = replies frames r.arq in
      let key : laws.write_key b ≡ laws.read_key f.after = i.back ∙ sym f.same_key in
      let number : laws.sent b ≡ laws.expected f.after = sym (f.same_expected ∙ i.back_meets) in
      let g =
        handle_all-At prims host_s laws goes_s r.next_hop answers h.datagrams f.after f.state (
          subst (λ k. Carries laws k r.next_hop (laws.expected f.after) answers h.datagrams) key
            (subst (λ n. Carries laws (laws.write_key b) r.next_hop n answers h.datagrams) number
              h.carries)) in
      let none_back = quiet-replies answers f.state.arq (replies-IsQuiet frames r.arq) in
      let silent =
        subst
          (λ texts.
            Carries laws (laws.write_key f.after) f.state.next_hop (laws.sent f.after) texts
              g.datagrams)
          none_back g.carries in
      (
        record {
          a' = f.after;
          a'' = g.ts;
          b' = h.ts;
          s' = f.state;
          s'' = g.state;
          r' = h.state;
          datagrams = f.datagrams;
          answers = h.datagrams;
          flushes = f.ends;
          sends = f.out;
          hears = h.is;
          replies_with = h.out;
          learns = g.is;
          rests =
              g.out
              ∙ ap (λ ds. f.state.sock.outbox ++ ds)
                  (Carries-none laws (laws.write_key f.after) f.state.next_hop (laws.sent f.after)
                    g.datagrams silent)
              ∙ append-nil f.state.sock.outbox;
          in_step = record {
            forth = g.write_key ∙ f.linked ∙ sym h.read_key;
            back = h.write_key ∙ key ∙ sym g.read_key;
            forth_meets =
                (let n = h.next in
                  let m = f.sent in
                  let k = g.sent ∙ ap (λ texts. laws.sent f.after + length texts) none_back in
                  let e = i.forth_meets in omega (arith, n, m, k, e));
            back_meets = (let n = g.next in let m = h.sent in omega (arith, n, m, number));
          };
        },
        h.same_arq,
        g.same_arq ∙ ap (ingest_all answers) f.same_arq,
      )
