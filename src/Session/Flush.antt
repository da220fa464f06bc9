-- ===== src/Session/Flush.antt =====
-- What `flush` puts on the wire: the frames that the ARQ hands out, in order, and nothing else.
use ppo_se_protocol.Common.{
  ℕ, zero, suc, ◌+◌, ◌-◌, ◌≤◌, ◌≡◌, refl, ap, sym, subst, ◌∙◌, true, List, [], ◌∷◌, ◌++◌,
  append-nil, append_assoc, Result, ok, arith, length, ltb, drop, length-append, All,
}
use ppo_se_protocol.Common.Action.{Action, and_then, put_back}
use ppo_se_protocol.Wire.{max_datagram, SocketAddr}
use ppo_se_protocol.Packet.{data_packet}
use ppo_se_protocol.Crypto.{Primitives}
use ppo_se_protocol.Noise.{Snow}
use ppo_se_protocol.Noise.Ordered.{IsOrdered, Linked, writes-IsFor}
use ppo_se_protocol.Arq.{Arq, ArqGiveUp}
use ppo_se_protocol.Arq.Send.{take_new_sends, take_retransmits}
use ppo_se_protocol.Udp.{Host, tick, instant_now}
use ppo_se_protocol.Session.{SessionError, give_up, UdpSession}
use ppo_se_protocol.Session.Transfer.{drop_or_seal, seal_data, seal_all, flush}
use ppo_se_protocol.Session.Direct.{data_datagram, directly, having_sent, seal_and_send-direct}
use ppo_se_protocol.Session.Carries.{Carries, Carries-append}

drop-append :
    {A : Type 0} (n : ℕ) (xs ys : List A) → drop n (xs ++ ys) ≡ drop n xs ++ drop (n - length xs) ys
drop-append zero xs ys = let e : 0 ≡ 0 - length xs = omega arith in ap (λ k. xs ++ drop k ys) e
drop-append (suc n) [] ys = let e : suc n ≡ suc n - 0 = omega arith in ap (λ k. drop k ys) e
drop-append (suc n) (x ∷ xs) ys =
    let e : n - length xs ≡ suc n - suc (length xs) = omega arith in
    drop-append n xs ys ∙ ap (λ k. drop n xs ++ drop k ys) e

module _ {snow : Snow} (prims : Primitives) (host : Host) (laws : IsOrdered snow)
    (b : snow.TransportState) where
  -- How a call left a session that was at `a` and `s`: it has sent the texts, and nothing else.
  pub record Sealing (texts : List (List ℕ)) (left : ℕ) (a : snow.TransportState)
      (s : UdpSession snow) (x : UdpSession snow × Result SessionError (Unit {0})) : Type 0 where
    pub after : snow.TransportState
    pub state : UdpSession snow
    pub datagrams : List (List ℕ × SocketAddr)
    pub ends : x ≡ (directly after state, ok tt)
    pub out : state.sock.outbox ≡ s.sock.outbox ++ datagrams
    pub carries : Carries laws (laws.read_key b) s.next_hop (laws.sent a) texts datagrams
    pub linked : Linked laws after b
    pub sent : laws.sent after ≡ laws.sent a + length texts
    pub same_key : laws.read_key after ≡ laws.read_key a
    pub same_expected : laws.expected after ≡ laws.expected a
    pub same_hop : state.next_hop ≡ s.next_hop
    pub same_arq : state.arq ≡ s.arq
    pub leaves : state.drop_data ≡ left

  nothing :
      (left : ℕ) (a : snow.TransportState) (s : UdpSession snow)
      → Linked laws a b
      → s.drop_data ≡ left
      → Sealing [] left a s (directly a s, ok tt)
  nothing left a s l h = record {
    after = a;
    state = s;
    datagrams = [];
    ends = refl;
    out = sym (append-nil s.sock.outbox);
    carries = tt;
    linked = l;
    sent = omega arith;
    same_key = refl;
    same_expected = refl;
    same_hop = refl;
    same_arq = refl;
    leaves = h;
  }

  -- One call after another.
  both :
      (texts more : List (List ℕ)) (left left' : ℕ) (a : snow.TransportState) (s : UdpSession snow)
      (x y : UdpSession snow × Result SessionError (Unit {0})) (one : Sealing texts left a s x)
      → Sealing more left' one.after one.state y
      → Sealing (texts ++ more) left' a s y
  both texts more left left' a s x y one two = record {
    after = two.after;
    state = two.state;
    datagrams = one.datagrams ++ two.datagrams;
    ends = two.ends;
    out =
        two.out
        ∙ ap (λ sent. sent ++ two.datagrams) one.out
        ∙ append_assoc s.sock.outbox one.datagrams two.datagrams;
    carries =
        Carries-append laws (laws.read_key b) s.next_hop (laws.sent a) texts more one.datagrams
          two.datagrams one.carries
          (subst
            (λ hop.
              Carries laws (laws.read_key b) hop (laws.sent a + length texts) more two.datagrams)
            one.same_hop
            (subst (λ n. Carries laws (laws.read_key b) one.state.next_hop n more two.datagrams)
              one.sent two.carries));
    linked = two.linked;
    sent =
        (let e = one.sent in
          let f = two.sent in let g = length-append texts more in omega (arith, e, f, g));
    same_key = two.same_key ∙ one.same_key;
    same_expected = two.same_expected ∙ one.same_expected;
    same_hop = two.same_hop ∙ one.same_hop;
    same_arq = two.same_arq ∙ one.same_arq;
    leaves = two.leaves;
  }

  module _ (goes : (i : ℕ) → host.delivers i ≡ true) where
    seal_data-Sealing :
        (inner : List ℕ) (a : snow.TransportState) (s : UdpSession snow)
        → Linked laws a b
        → 24 + length inner ≤ max_datagram
        → s.drop_data ≡ 0
        → Sealing (inner ∷ []) 0 a s (seal_data prims host inner (directly a s))
    unfolding seal_data drop_or_seal
    seal_data-Sealing inner a s l fits none_dropped =
        let (a', message, w, next, same, keeps_read, l', sealed, size) =
          writes-IsFor laws a b inner max_datagram l (omega (arith, fits)) in
        record {
          after = a';
          state = having_sent data_packet message s;
          datagrams = (data_datagram message, s.next_hop) ∷ [];
          ends =
              ap (λ n. drop_or_seal prims host (ltb 0 n) inner (directly a s)) none_dropped
              ∙ seal_and_send-direct prims host inner message a a' s w (omega (arith, fits, size))
                  (goes s.sock.sends);
          out = refl;
          carries = ((message, refl, sealed, size), tt);
          linked = l';
          sent = omega (arith, next);
          same_key = keeps_read;
          same_expected = same;
          same_hop = refl;
          same_arq = refl;
          leaves = none_dropped;
        }

    seal_data-dropped :
        (inner : List ℕ) (n : ℕ) (a : snow.TransportState) (s : UdpSession snow)
        → s.drop_data ≡ suc n
        → seal_data prims host inner (directly a s) ≡ (directly a record s { drop_data = n }, ok tt)
    unfolding seal_data drop_or_seal
    seal_data-dropped inner n a s h =
        let some_left : ltb 0 s.drop_data ≡ true = ground arith in
        let one_less : s.drop_data - 1 ≡ n = omega arith in
        ap (λ b. drop_or_seal prims host b inner (directly a s)) some_left
        ∙ ap (λ k. (directly a record s { drop_data = k }, ok tt)) one_less

    -- What `debug_drop_data` has asked for is dropped first.
    skipping :
        (texts : List (List ℕ)) (left n : ℕ) (a : snow.TransportState) (s : UdpSession snow)
        (x : UdpSession snow × Result SessionError (Unit {0}))
        → Sealing texts left a record s { drop_data = n } x
        → Sealing texts left a s x
    skipping texts left n a s x r = record {
      after = r.after;
      state = r.state;
      datagrams = r.datagrams;
      ends = r.ends;
      out = r.out;
      carries = r.carries;
      linked = r.linked;
      sent = r.sent;
      same_key = r.same_key;
      same_expected = r.same_expected;
      same_hop = r.same_hop;
      same_arq = r.same_arq;
      leaves = r.leaves;
    }

    pub seal_all-Sealing :
        (n left : ℕ) (pts : List (List ℕ)) (a : snow.TransportState) (s : UdpSession snow)
        → Linked laws a b
        → All (λ inner. 24 + length inner ≤ max_datagram) pts
        → s.drop_data ≡ n
        → n - length pts ≡ left
        → Sealing (drop n pts) left a s (seal_all prims host pts (directly a s))
    unfolding seal_all
    seal_all-Sealing zero left [] a s l fits h e = nothing left a s l (omega (arith, h, e))
    seal_all-Sealing (suc n) left [] a s l fits h e = nothing left a s l (omega (arith, h, e))
    seal_all-Sealing zero left (inner ∷ pts) a s l fits h e =
        let one = seal_data-Sealing inner a s l fits.0 h in
        let rest =
          seal_all-Sealing zero left pts one.after one.state one.linked fits.1 one.leaves
            (omega (arith, e)) in
        subst (Sealing (inner ∷ pts) left a s)
          (sym (ap (λ x. and_then x (λ _. seal_all prims host pts)) one.ends))
          (both (inner ∷ []) pts 0 left a s (seal_data prims host inner (directly a s))
            (seal_all prims host pts (directly one.after one.state)) one rest)
    seal_all-Sealing (suc n) left (inner ∷ pts) a s l fits h e =
        let less = record s { drop_data = n } in
        let rest = seal_all-Sealing n left pts a less l fits.1 refl (omega (arith, e)) in
        subst (Sealing (drop n pts) left a s)
          (sym
            (ap (λ x. and_then x (λ _. seal_all prims host pts)) (seal_data-dropped inner n a s h)))
          (skipping (drop n pts) left n a s (seal_all prims host pts (directly a less)) rest)

    -- The end of `flush`, from the retransmissions on.
    abbrev resent :
        Arq × Result ArqGiveUp (List (List ℕ))
        → UdpSession snow
        → UdpSession snow × Result SessionError (Unit {0})
    resent x s =
        and_then (put_back (λ (s : UdpSession snow) a. record s { arq = a }) give_up s x)
          (seal_all prims host)

    -- Before them, the new frames of the ARQ go out.
    abbrev renewed :
        (texts : List (List ℕ)) (left : ℕ) (a : snow.TransportState) (s : UdpSession snow)
        (arq1 arq2 : Arq) (x : UdpSession snow × Result SessionError (Unit {0}))
        (one : Sealing texts left a record s { arq = arq1 } x)
        → Sealing texts left a
            record s { arq = arq2 }
            (directly one.after record one.state { arq = arq2 }, ok tt)
    renewed texts left a s arq1 arq2 x one = record {
      after = one.after;
      state = record one.state { arq = arq2 };
      datagrams = one.datagrams;
      ends = refl;
      out = one.out;
      carries = one.carries;
      linked = one.linked;
      sent = one.sent;
      same_key = one.same_key;
      same_expected = one.same_expected;
      same_hop = one.same_hop;
      same_arq = refl;
      leaves = one.leaves;
    }

    -- On a direct path in transport mode, over an ordered transport and a socket that accepts every
    -- datagram: if the ARQ hands out `news` as new and then `due` for retransmission, and all of them fit
    -- a datagram, then `flush` ends without an error and sends to the next hop one DATA datagram for
    -- each of these frames, in this order and with consecutive numbers, save that the first ones are
    -- left out as `drop_data` says; and the ARQ is the one behind the two calls.
    pub flush_lem :
        (a : snow.TransportState) (s : UdpSession snow) (arq1 arq2 : Arq) (news due : List (List ℕ))
        → Linked laws a b
        → take_new_sends (host.clock s.sock.ticks) s.arq ≡ (arq1, news)
        → take_retransmits (host.clock s.sock.ticks) arq1 ≡ (arq2, ok due)
        → All (λ inner. 24 + length inner ≤ max_datagram) news
        → All (λ inner. 24 + length inner ≤ max_datagram) due
        → Sealing
            (drop s.drop_data (news ++ due))
            (s.drop_data - length news - length due)
            a
            record s { sock = tick s.sock; arq = arq2 }
            (flush prims host (directly a s))
    unfolding flush instant_now
    flush_lem a s arq1 arq2 news due l new again fits fits' =
        let now = host.clock s.sock.ticks in
        let left = s.drop_data - length news in
        let s0 = record s { sock = tick s.sock } in
        let one =
          seal_all-Sealing s.drop_data left news a record s0 { arq = arq1 } l fits refl refl in
        let first =
          renewed (drop s.drop_data news) left a s0 arq1 arq2
            (seal_all prims host news (directly a record s0 { arq = arq1 })) one in
        let two =
          seal_all-Sealing left (left - length due) due one.after first.state one.linked fits'
            one.leaves refl in
        let goes_on : Unit {0} → Action (UdpSession snow) SessionError (Unit {0}) =
          λ _ u. resent (take_retransmits now u.arq) u in
        let ends =
          ap
            (λ (q : Arq × List (List ℕ)).
              and_then (seal_all prims host q.1 (directly a record s0 { arq = q.0 })) goes_on)
            new
          ∙ ap (λ x. and_then x goes_on) one.ends
          ∙ ap (λ c. resent (take_retransmits now c) (directly one.after one.state)) one.same_arq
          ∙ ap (λ x. resent x (directly one.after one.state)) again in
        let all =
          both (drop s.drop_data news) (drop left due) left (left - length due) a
            record s0 { arq = arq2 } (directly first.after first.state, ok tt)
            (seal_all prims host due (directly one.after first.state)) first two in
        subst
          (λ texts.
            Sealing texts (left - length due) a record s0 { arq = arq2 }
              (flush prims host (directly a s)))
          (sym (drop-append s.drop_data news due))
          (subst
            (Sealing (drop s.drop_data news ++ drop left due) (left - length due) a
              record s0 { arq = arq2 })
            (sym ends) all)

    -- With nothing to be dropped, all frames are sent.
    pub flush-Sealing :
        (a : snow.TransportState) (s : UdpSession snow) (arq1 arq2 : Arq) (news due : List (List ℕ))
        → Linked laws a b
        → s.drop_data ≡ 0
        → take_new_sends (host.clock s.sock.ticks) s.arq ≡ (arq1, news)
        → take_retransmits (host.clock s.sock.ticks) arq1 ≡ (arq2, ok due)
        → All (λ inner. 24 + length inner ≤ max_datagram) news
        → All (λ inner. 24 + length inner ≤ max_datagram) due
        → Sealing
            (news ++ due)
            0
            a
            record s { sock = tick s.sock; arq = arq2 }
            (flush prims host (directly a s))
    flush-Sealing a s arq1 arq2 news due l none_dropped new again fits fits' =
        let left : s.drop_data - length news - length due ≡ 0 = omega (arith, none_dropped) in
        let after = record s { sock = tick s.sock; arq = arq2 } in
        subst (λ n. Sealing (news ++ due) n a after (flush prims host (directly a s))) left
          (subst
            (λ n.
              Sealing (drop n (news ++ due)) (s.drop_data - length news - length due) a after
                (flush prims host (directly a s)))
            none_dropped (flush_lem a s arq1 arq2 news due l new again fits fits'))
