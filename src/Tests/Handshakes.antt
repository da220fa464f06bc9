-- ===== src/Tests/Handshakes.antt =====
-- Runs of crypto/noise.rs and of the handshake of session.rs.
use ppo_se_protocol.Common.{ℕ, ◌≡◌, refl, ◌↔◌, none, some, List, [], ◌∷◌, ok, err, replicate, arith}
use ppo_se_protocol.Wire.{SocketAddr, v4, datagram}
use ppo_se_protocol.Noise.{initiator, new, pin_remote, key_mismatch}
use ppo_se_protocol.Noise.Exchange.{Exchange, handshaking, transporting}
use ppo_se_protocol.Noise.Machine.{
  Phase, shaking, Call, writes_handshake, seals, calls, InPhase, Trace, new-calls,
}
use ppo_se_protocol.Noise.Pin.{HasRemote, HasOther, pin_remote_lem}
use ppo_se_protocol.Udp.{Host, bound}
use ppo_se_protocol.Session.{UdpSession, direct}
use ppo_se_protocol.Session.Handshake.{connect_initiator_pinned, accept_ex}
use ppo_se_protocol.Session.Steps.{handshake_datagram}
use ppo_se_protocol.Session.Meeting.{connect-accept}
use ppo_se_protocol.Tests.Toys.{toy, Shake, quiet_host, pipe}
use ppo_se_protocol.Tests.Onions.{sound}

abbrev key_a : List ℕ
key_a = replicate 32 1

abbrev key_b : List ℕ
key_b = replicate 32 2

abbrev shake : List ℕ → List ℕ → ℕ → Shake
shake own remote turn = record { own = own; remote = remote; turn = turn }

-- The second state of a side is the one that has read the key of the other.
abbrev run : Exchange toy (shake key_a [] 0) (shake key_b [] 0)
run = record {
  a1 = shake key_a [] 1;
  a2 = shake key_a key_b 2;
  a3 = shake key_a key_b 3;
  b1 = shake key_b key_a 1;
  b2 = shake key_b key_a 2;
  b3 = shake key_b key_a 3;
  first = record { bytes = key_a; payload = []; written = refl; read = refl; fits = omega arith };
  second = record { bytes = key_b; payload = []; written = refl; read = refl; fits = omega arith };
  third = record { bytes = key_a; payload = []; written = refl; read = refl; fits = omega arith };
  a1_goes_on = refl;
  a2_goes_on = refl;
  b1_goes_on = refl;
  b2_goes_on = refl;
  a3_finishes = refl;
  b3_finishes = refl;
  a_transport = record { remote = key_b; sent = 0; expected = 0 };
  b_transport = record { remote = key_a; sent = 0; expected = 0 };
  a_converts = refl;
  b_converts = refl;
}

abbrev addr_a : SocketAddr
addr_a = v4 127 0 0 1 4000

abbrev addr_b : SocketAddr
addr_b = v4 127 0 0 1 5000

abbrev host_a : Host
host_a = record quiet_host { arrivals = λ i. datagram (handshake_datagram key_b) addr_b }

abbrev host_b : Host
host_b = record quiet_host { arrivals = λ i. datagram (handshake_datagram key_a) addr_a }

connect-accept_example :
    (s r : UdpSession toy) × (connect_initiator_pinned toy sound host_a [] key_a
        (direct addr_b)
        (some key_b)
        bound
      ≡ (s.sock, ok s))
    × (accept_ex toy sound host_b [] key_b none none none bound ≡ (r.sock, ok r))
    × (s.noise ≡ transporting toy run.a_transport)
    × (r.noise ≡ transporting toy run.b_transport)
    × (s.peer ≡ addr_b)
    × (r.peer ≡ addr_a)
    × (s.sock.outbox ≡ (handshake_datagram key_a, addr_b) ∷ (handshake_datagram key_a, addr_b) ∷ [])
    × (r.sock.outbox ≡ (handshake_datagram key_b, addr_a) ∷ [])
connect-accept_example =
    connect-accept toy sound host_a host_b (shake key_a [] 0) (shake key_b [] 0) run [] key_a []
      key_b addr_a addr_b (some key_b) none bound bound refl refl (λ i. refl) (λ i. refl) refl refl
      refl (refl, refl) tt

new_run : new toy initiator key_a [] ≡ ok (handshaking toy (shake key_a [] 0))
unfolding new
new_run = refl

-- A first message, and an attempt to seal before the handshake is over.
abbrev two_calls : List Call
two_calls = writes_handshake [] 1200 ∷ seals (5 ∷ []) 1200 ∷ []

new-calls_example :
    (q : Phase) × InPhase toy q (calls toy two_calls (handshaking toy (shake key_a [] 0))).0
    × Trace shaking (calls toy two_calls (handshaking toy (shake key_a [] 0))).1 q
new-calls_example =
    new-calls toy initiator key_a [] (handshaking toy (shake key_a [] 0)) two_calls new_run

pin_remote_lem_example :
    ((pin_remote toy key_a (transporting toy (pipe 0 0)) ≡ ok tt)
      ↔ HasRemote toy key_a (transporting toy (pipe 0 0)))
    × ((pin_remote toy key_a (transporting toy (pipe 0 0)) ≡ err key_mismatch)
        ↔ HasOther toy key_a (transporting toy (pipe 0 0)))
pin_remote_lem_example = pin_remote_lem toy key_a (transporting toy (pipe 0 0))
