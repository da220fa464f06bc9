-- ===== src/Session/Loss.antt =====
-- What the loss of a datagram does to a session: `seal_data` numbers the datagrams, and the receiver
-- only opens the number that it expects next.
use ppo_se_protocol.Common.{
  ℕ, suc, ◌+◌, ◌-◌, ◌≤◌, ◌<◌, ◌≡◌, refl, ap, sym, subst, ◌∙◌, Bool, true, false, List, [], ◌∷◌,
  ◌++◌, append-nil, append_assoc, Result, ok, arith, length, ltb, All, All-imp, All-append,
}
use ppo_se_protocol.Common.Action.{and_then}
use ppo_se_protocol.Wire.{max_datagram, SocketAddr}
use ppo_se_protocol.Packet.{data_packet}
use ppo_se_protocol.Crypto.{Primitives}
use ppo_se_protocol.Noise.{Snow, open_sealed, transported}
use ppo_se_protocol.Noise.Ordered.{IsOrdered, Linked, IsFor, writes-IsFor, opens_from}
use ppo_se_protocol.Arq.Ingest.{ingest}
use ppo_se_protocol.Udp.{Host}
use ppo_se_protocol.Session.{SessionError, arq, UdpSession}
use ppo_se_protocol.Session.Transfer.{
  drop_or_seal, seal_data, seal_all, opened, handle_incoming, try_arq, answer,
}
use ppo_se_protocol.Session.Direct.{
  data_datagram, directly, having_sent, seal_and_send-direct, handle_incoming-direct,
}

module _ {snow : Snow} (prims : Primitives) (host : Host) (laws : IsOrdered snow)
    (b : snow.TransportState) (least : ℕ) where
  -- A DATA datagram that carries a message with a number of at least `least`.
  pub record Numbered (d : List ℕ × SocketAddr) : Type 0 where
    pub number : ℕ
    pub text : List ℕ
    pub message : List ℕ
    pub is_data : d.0 ≡ data_datagram message
    pub at_least : least ≤ number
    pub sealed : IsFor laws b number text message

  -- How a call left a session that was at `a` and `s`: it sent numbered datagrams, and no others.
  pub record Sent (a : snow.TransportState) (s : UdpSession snow)
      (x : UdpSession snow × Result SessionError (Unit {0})) : Type 0 where
    pub after : snow.TransportState
    pub state : UdpSession snow
    pub datagrams : List (List ℕ × SocketAddr)
    pub ends : x ≡ (directly after state, ok tt)
    pub out : state.sock.outbox ≡ s.sock.outbox ++ datagrams
    pub linked : Linked laws after b
    pub above : least ≤ laws.sent after
    pub numbered : All Numbered datagrams

  module _ (goes : (i : ℕ) → host.delivers i ≡ true) where
    drop_or_seal-Sent :
        (dropped : Bool) (inner : List ℕ) (a : snow.TransportState) (s : UdpSession snow)
        → Linked laws a b
        → least ≤ laws.sent a
        → 24 + length inner ≤ max_datagram
        → Sent a s (drop_or_seal prims host dropped inner (directly a s))
    unfolding drop_or_seal
    drop_or_seal-Sent true inner a s l h fits = record {
      after = a;
      state = record s { drop_data = s.drop_data - 1 };
      datagrams = [];
      ends = refl;
      out = sym (append-nil s.sock.outbox);
      linked = l;
      above = h;
      numbered = tt;
    }
    drop_or_seal-Sent false inner a s l h fits =
        let (a', message, w, next, same, keeps, l', sealed, size) =
          writes-IsFor laws a b inner max_datagram l (omega (arith, fits)) in
        record {
          after = a';
          state = having_sent data_packet message s;
          datagrams = (data_datagram message, s.next_hop) ∷ [];
          ends =
              seal_and_send-direct prims host inner message a a' s w (omega (arith, fits, size))
                (goes s.sock.sends);
          out = refl;
          linked = l';
          above = omega (arith, h, next);
          numbered = (
            record {
              number = laws.sent a;
              text = inner;
              message = message;
              is_data = refl;
              at_least = h;
              sealed = sealed;
            },
            tt,
          );
        }

    seal_all-Sent :
        (pts : List (List ℕ)) (a : snow.TransportState) (s : UdpSession snow)
        → Linked laws a b
        → least ≤ laws.sent a
        → All (λ inner. 24 + length inner ≤ max_datagram) pts
        → Sent a s (seal_all prims host pts (directly a s))
    unfolding seal_all seal_data
    seal_all-Sent [] a s l h fits = record {
      after = a;
      state = s;
      datagrams = [];
      ends = refl;
      out = sym (append-nil s.sock.outbox);
      linked = l;
      above = h;
      numbered = tt;
    }
    seal_all-Sent (inner ∷ pts) a s l h fits =
        let one = drop_or_seal-Sent (ltb 0 s.drop_data) inner a s l h fits.0 in
        let rest = seal_all-Sent pts one.after one.state one.linked one.above fits.1 in
        record {
          after = rest.after;
          state = rest.state;
          datagrams = one.datagrams ++ rest.datagrams;
          ends = ap (λ x. and_then x (λ _. seal_all prims host pts)) one.ends ∙ rest.ends;
          out =
              rest.out
              ∙ ap (λ sent. sent ++ rest.datagrams) one.out
              ∙ append_assoc s.sock.outbox one.datagrams rest.datagrams;
          linked = rest.linked;
          above = rest.above;
          numbered = All-append Numbered one.datagrams rest.datagrams one.numbered rest.numbered;
        }

  Numbered-ignored :
      (r : UdpSession snow)
      → laws.expected b < least
      → (d : List ℕ × SocketAddr) → Numbered d
      → handle_incoming prims host d.0 (directly b r) ≡ (directly b r, ok tt)
  unfolding opened open_sealed
  Numbered-ignored r ahead d n =
      ap (λ raw. handle_incoming prims host raw (directly b r)) n.is_data
      ∙ handle_incoming-direct prims host n.message b r
      ∙ ap (λ x. opened prims host (transported snow x (directly b r).noise) (directly b r))
          (laws.refuses b n.number n.text n.message (length n.message) n.sealed
            (λ e. let above = n.at_least in absurd (omega (arith, e, ahead, above))))

module _ {snow : Snow} (prims : Primitives) (host : Host) (laws : IsOrdered snow) where
  -- Two sessions on direct paths in transport mode, with a transport that satisfies the laws, sockets
  -- that accept every datagram, and frames that fit one. When the sender has written a message that
  -- the receiver has not opened, then every datagram that it sends for frames from then on is ignored
  -- by the receiver, whichever it gets first: the session of the receiver stays as it is. So a
  -- datagram that is lost, or overtaken, ends the transfer for good, and no retransmission helps.
  pub seal_all-lost :
      (pts : List (List ℕ)) (a b : snow.TransportState) (s r : UdpSession snow)
      → ((i : ℕ) → host.delivers i ≡ true)
      → Linked laws a b
      → laws.expected b < laws.sent a
      → All (λ inner. 24 + length inner ≤ max_datagram) pts
      → (a' : snow.TransportState) × (s' : UdpSession snow) × (datagrams : List
          (List ℕ × SocketAddr))
        × (seal_all prims host pts (directly a s) ≡ (directly a' s', ok tt))
        × (s'.sock.outbox ≡ s.sock.outbox ++ datagrams)
        × All (λ d. handle_incoming prims host d.0 (directly b r) ≡ (directly b r, ok tt)) datagrams
  seal_all-lost pts a b s r goes l lost fits =
      let sent = seal_all-Sent prims host laws b (laws.sent a) goes pts a s l (omega arith) fits in
      (
        sent.after,
        sent.state,
        sent.datagrams,
        sent.ends,
        sent.out,
        All-imp (Numbered-ignored prims host laws b (laws.sent a) r lost) sent.datagrams
            sent.numbered,
      )

  -- Under the same laws, with nothing to be dropped on purpose: when the receiver expects the message
  -- that the sender writes next, the datagram that `seal_data` sends for a frame makes the receiver
  -- hand that frame to its ARQ and answer with what the ARQ asks for.
  pub seal_data-opens :
      (inner : List ℕ) (a b : snow.TransportState) (s r : UdpSession snow)
      → host.delivers s.sock.sends ≡ true
      → Linked laws a b
      → laws.expected b ≡ laws.sent a
      → 24 + length inner ≤ max_datagram
      → s.drop_data ≡ 0
      → (a' b' : snow.TransportState) × (message : List ℕ) × (seal_data prims host inner
            (directly a s)
          ≡ (directly a' (having_sent data_packet message s), ok tt))
        × (handle_incoming prims host (data_datagram message) (directly b r)
            ≡ and_then (try_arq arq (ingest inner) (directly b' r)) (answer prims host))
        × Linked laws a' b'
        × (laws.expected b' ≡ laws.sent a')
  unfolding seal_data drop_or_seal opened open_sealed
  seal_data-opens inner a b s r goes l meet fits none_dropped =
      let (a', message, w, next, same, keeps, l', sealed, size) =
        writes-IsFor laws a b inner max_datagram l (omega (arith, fits)) in
      let (b', opens, next', l'') =
        opens_from laws a' b inner message (length message) l'
          (subst (λ n. IsFor laws b n inner message) (sym meet) sealed) (omega (arith, size)) in
      (
        a',
        b',
        message,
        ap (λ n. drop_or_seal prims host (ltb 0 n) inner (directly a s)) none_dropped
            ∙ seal_and_send-direct prims host inner message a a' s w (omega (arith, fits, size))
                goes,
        handle_incoming-direct prims host message b r
            ∙ ap (λ x. opened prims host (transported snow x (directly b r).noise) (directly b r))
                opens,
        l'',
        next' ∙ ap suc meet ∙ sym next,
      )
