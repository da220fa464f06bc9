-- ===== src/Session/Channel.antt =====
-- Two sessions as a channel for frames: what one ARQ hands out, the other one ingests.
use ppo_se_protocol.Common.{
  ℕ, suc, ◌+◌, ◌≡◌, refl, ap, sym, subst, ◌∙◌, true, Option, none, some, List, [], ◌∷◌, ◌++◌,
  append-nil, append_assoc, Result, ok, err, arith, length, length-append,
}
use ppo_se_protocol.Common.Bytes.{to_be_bytes, length-to_be_bytes}
use ppo_se_protocol.Common.Action.{and_then, put_back}
use ppo_se_protocol.Wire.{max_datagram, SocketAddr}
use ppo_se_protocol.Packet.{data_packet}
use ppo_se_protocol.Frame.{InnerFrame, data_frame, ack_frame, FrameError, encode_ack, decode_inner}
use ppo_se_protocol.Crypto.{Primitives}
use ppo_se_protocol.Noise.{Snow, open_sealed, transported}
use ppo_se_protocol.Noise.Ordered.{IsOrdered, IsFor}
use ppo_se_protocol.Arq.{Arq, ArqError}
use ppo_se_protocol.Arq.Receive.{on_data}
use ppo_se_protocol.Arq.Ingest.{ingest, ingest_frame}
use ppo_se_protocol.Udp.{Host}
use ppo_se_protocol.Session.{arq, UdpSession}
use ppo_se_protocol.Session.Transfer.{answer, opened, handle_incoming}
use ppo_se_protocol.Session.Direct.{
  data_datagram, directly, having_sent, seal_and_send-direct, handle_incoming-direct,
}
use ppo_se_protocol.Session.Carries.{Carries, Carries-append}

-- The ARQ after frames have come in, one after another: the abstract channel.
unfoldable pub ingest_all : List (List ℕ) → Arq → Arq
unfolding ingest
ingest_all [] s = s
ingest_all (text ∷ texts) s = ingest_all texts (ingest text s).0

-- What the ARQ asks to be sent back, for one frame and for one after another.
abbrev pub answers_of : Result ArqError (Option (List ℕ)) → List (List ℕ)
answers_of (err e) = []
answers_of (ok none) = []
answers_of (ok (some reply)) = reply ∷ []

unfoldable pub replies : List (List ℕ) → Arq → List (List ℕ)
unfolding ingest
replies [] s = []
replies (text ∷ texts) s = answers_of (ingest text s).1 ++ replies texts (ingest text s).0

length-encode_ack : (base bitmap : ℕ) → length (encode_ack base bitmap) ≡ 13
unfolding encode_ack
length-encode_ack base bitmap =
    let h = length-append (to_be_bytes 4 base) (to_be_bytes 8 bitmap) in
    let a = length-to_be_bytes 4 base in
    let b = length-to_be_bytes 8 bitmap in omega (arith, h, a, b)

-- The answer that the ARQ asks for is an ACK.
ingest_frame-reply :
    (o : Result FrameError InnerFrame) (s : Arq) (reply : List ℕ)
    → (ingest_frame o s).1 ≡ ok (some reply)
    → length reply ≡ 13
unfolding ingest_frame
ingest_frame-reply (err e) s reply h = absurd (cc h)
ingest_frame-reply (ok (ack_frame base bitmap)) s reply h = absurd (cc h)
ingest_frame-reply (ok (data_frame seq frag_id index total payload)) s reply h =
    let s' = on_data seq frag_id index total payload s in
    let same : encode_ack s'.recv_base s'.recv_bits ≡ reply = cc h in
    ap length (sym same) ∙ length-encode_ack s'.recv_base s'.recv_bits

module _ {snow : Snow} (prims : Primitives) (host : Host) where
  -- The session after datagrams have come in, one after another.
  unfoldable pub handle_all : List (List ℕ × SocketAddr) → UdpSession snow → UdpSession snow
  unfolding handle_incoming
  handle_all [] r = r
  handle_all (d ∷ ds) r = handle_all ds (handle_incoming prims host d.0 r).0

module _ {snow : Snow} (prims : Primitives) (host : Host) (laws : IsOrdered snow) where
  -- How a call left a session that was at `b` and `r`: it expects the number, its ARQ is the one
  -- given, and it has sent the answers, and nothing else.
  pub record At (number : ℕ) (queue : Arq) (answers : List (List ℕ)) (b : snow.TransportState)
      (r x : UdpSession snow) : Type 0 where
    pub ts : snow.TransportState
    pub state : UdpSession snow
    pub datagrams : List (List ℕ × SocketAddr)
    pub is : x ≡ directly ts state
    pub out : state.sock.outbox ≡ r.sock.outbox ++ datagrams
    pub carries : Carries laws (laws.write_key b) r.next_hop (laws.sent b) answers datagrams
    pub read_key : laws.read_key ts ≡ laws.read_key b
    pub write_key : laws.write_key ts ≡ laws.write_key b
    pub next : laws.expected ts ≡ number
    pub sent : laws.sent ts ≡ laws.sent b + length answers
    pub same_hop : state.next_hop ≡ r.next_hop
    pub same_arq : state.arq ≡ queue

  abbrev silent :
      (number : ℕ) (queue : Arq) (b ts : snow.TransportState) (r : UdpSession snow)
      → laws.read_key ts ≡ laws.read_key b
      → laws.write_key ts ≡ laws.write_key b
      → laws.sent ts ≡ laws.sent b
      → laws.expected ts ≡ number
      → At number queue [] b r (directly ts record r { arq = queue })
  silent number queue b ts r read write same next = record {
    ts = ts;
    state = record r { arq = queue };
    datagrams = [];
    is = refl;
    out = sym (append-nil r.sock.outbox);
    carries = tt;
    read_key = read;
    write_key = write;
    next = next;
    sent = omega (arith, same);
    same_hop = refl;
    same_arq = refl;
  }

  -- One call after another.
  then_At :
      (n number : ℕ) (q queue : Arq) (answers more : List (List ℕ)) (b : snow.TransportState)
      (r x y z : UdpSession snow) (one : At n q answers b r x)
      → At number queue more one.ts one.state y
      → z ≡ y
      → At number queue (answers ++ more) b r z
  then_At n number q queue answers more b r x y z one two e = record {
    ts = two.ts;
    state = two.state;
    datagrams = one.datagrams ++ two.datagrams;
    is = e ∙ two.is;
    out =
        two.out
        ∙ ap (λ sent. sent ++ two.datagrams) one.out
        ∙ append_assoc r.sock.outbox one.datagrams two.datagrams;
    carries =
        Carries-append laws (laws.write_key b) r.next_hop (laws.sent b) answers more one.datagrams
          two.datagrams one.carries
          (subst
            (λ key. Carries laws key r.next_hop (laws.sent b + length answers) more two.datagrams)
            one.write_key
            (subst
              (λ hop.
                Carries laws (laws.write_key one.ts) hop (laws.sent b + length answers) more
                  two.datagrams)
              one.same_hop
              (subst
                (λ n. Carries laws (laws.write_key one.ts) one.state.next_hop n more two.datagrams)
                one.sent two.carries)));
    read_key = two.read_key ∙ one.read_key;
    write_key = two.write_key ∙ one.write_key;
    next = two.next;
    sent =
        (let e = one.sent in
          let f = two.sent in let g = length-append answers more in omega (arith, e, f, g));
    same_hop = two.same_hop ∙ one.same_hop;
    same_arq = two.same_arq;
  }

  module _ (goes : (i : ℕ) → host.delivers i ≡ true) where
    answered :
        (x : Arq × Result ArqError (Option (List ℕ))) (ts : snow.TransportState)
        (r : UdpSession snow)
        → ((reply : List ℕ) → x.1 ≡ ok (some reply) → length reply ≡ 13)
        → At
            (laws.expected ts)
            x.0
            (answers_of x.1)
            ts
            r
            (and_then
              (put_back (λ (s : UdpSession snow) a. record s { arq = a }) arq (directly ts r) x)
              (answer prims host)).0
    unfolding answer
    answered (a, err e) ts r short = silent (laws.expected ts) a ts ts r refl refl refl refl
    answered (a, ok none) ts r short = silent (laws.expected ts) a ts ts r refl refl refl refl
    answered (a, ok (some reply)) ts r short =
        let size = short reply refl in
        let (ts', message, w, sealed, size', next, expected, keeps, keeps') =
          laws.writes ts reply max_datagram (omega (arith, size)) in
        let r' = record r { arq = a } in
        record {
          ts = ts';
          state = having_sent data_packet message r';
          datagrams = (data_datagram message, r.next_hop) ∷ [];
          is =
              ap (λ x. x.0)
                (seal_and_send-direct prims host reply message ts ts' r' w
                  (omega (arith, size, size')) (goes r.sock.sends));
          out = refl;
          carries = ((message, refl, sealed, size'), tt);
          read_key = keeps';
          write_key = keeps;
          next = expected;
          sent = omega (arith, next);
          same_hop = refl;
          same_arq = refl;
        }

    handle_incoming-At :
        (message text : List ℕ) (b : snow.TransportState) (r : UdpSession snow)
        → IsFor laws b (laws.expected b) text message
        → length message ≡ 16 + length text
        → At
            (suc (laws.expected b))
            (ingest text r.arq).0
            (answers_of (ingest text r.arq).1)
            b
            r
            (handle_incoming prims host (data_datagram message) (directly b r)).0
    unfolding opened open_sealed ingest
    handle_incoming-At message text b r sealed size =
        let (b', opens, next, same, keeps, keeps') =
          laws.opens b text message (length message) sealed (omega (arith, size)) in
        let x = ingest text r.arq in
        let a = answered x b' r (λ reply h. ingest_frame-reply (decode_inner text) r.arq reply h) in
        let first = silent (laws.expected b') r.arq b b' r keeps' keeps same refl in
        let handled = (handle_incoming prims host (data_datagram message) (directly b r)).0 in
        let e =
          ap (λ x. x.0)
            (handle_incoming-direct prims host message b r
              ∙ ap (λ x. opened prims host (transported snow x (directly b r).noise) (directly b r))
                  opens) in
        subst (λ n. At n x.0 (answers_of x.1) b r handled) next
          (then_At (laws.expected b') (laws.expected b') r.arq x.0 [] (answers_of x.1) b r
            (directly b' r)
            (and_then
              (put_back (λ (s : UdpSession snow) a. record s { arq = a }) arq (directly b' r) x)
              (answer prims host)).0
            handled first a e)

    pub handle_all-At :
        (hop : SocketAddr) (texts : List (List ℕ)) (ds : List (List ℕ × SocketAddr))
        (b : snow.TransportState) (r : UdpSession snow)
        → Carries laws (laws.read_key b) hop (laws.expected b) texts ds
        → At
            (laws.expected b + length texts)
            (ingest_all texts r.arq)
            (replies texts r.arq)
            b
            r
            (handle_all prims host ds (directly b r))
    unfolding handle_all ingest_all replies
    handle_all-At hop [] [] b r c =
        silent (laws.expected b + 0) r.arq b b r refl refl refl (omega arith)
    handle_all-At hop [] (d ∷ ds) b r c = absurd c
    handle_all-At hop (text ∷ texts) [] b r c = absurd c
    handle_all-At hop (text ∷ texts) (d ∷ ds) b r ((message, is, sealed, size), c) =
        let x = ingest text r.arq in
        let a = handle_incoming-At message text b r sealed size in
        let rest = handle_all-At hop texts ds a.ts a.state (
          subst (λ key. Carries laws key hop (laws.expected a.ts) texts ds) (sym a.read_key)
            (subst (λ n. Carries laws (laws.read_key b) hop n texts ds) (sym a.next) c)) in
        let n = a.next in
        let number : laws.expected a.ts + length texts ≡ laws.expected b + suc (length texts) =
          omega (arith, n) in
        let all = handle_all prims host (d ∷ ds) (directly b r) in
        let later =
          subst
            (λ q.
              At (laws.expected b + suc (length texts)) (ingest_all texts q) (replies texts q) a.ts
                a.state (handle_all prims host ds (directly a.ts a.state)))
            a.same_arq
            (subst
              (λ n.
                At n (ingest_all texts a.state.arq) (replies texts a.state.arq) a.ts a.state
                  (handle_all prims host ds (directly a.ts a.state)))
              number rest) in
        then_At (suc (laws.expected b)) (laws.expected b + suc (length texts)) x.0
          (ingest_all texts x.0) (answers_of x.1) (replies texts x.0) b r
          (handle_incoming prims host (data_datagram message) (directly b r)).0
          (handle_all prims host ds (directly a.ts a.state)) all a later
          (ap
              (λ (raw : List ℕ).
                handle_all prims host ds (handle_incoming prims host raw (directly b r)).0)
              (ap (λ (d : List ℕ × SocketAddr). d.0) is)
            ∙ ap (handle_all prims host ds) a.is)
