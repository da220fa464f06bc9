-- ===== src/Tests/Toys.antt =====
-- Stand-ins for the Noise package and for the host, and sessions that use them.
use ppo_se_protocol.Common.{
  ℕ, suc, ◌*◌, ◌≡◌, ◌≢◌, refl, ap, ◌∙◌, true, false, Option, none, some, List, [], ◌∷◌, ◌++◌, ◌==◌,
  leb, if◌then◌else◌, take, drop, replicate, arith,
}
use ppo_se_protocol.Wire.{v4, timed_out}
use ppo_se_protocol.Noise.{Snow}
use ppo_se_protocol.Noise.Ordered.{IsOrdered}
use ppo_se_protocol.Cover.{off}
use ppo_se_protocol.Udp.{Host, bound}
use ppo_se_protocol.Session.{UdpSession}

-- Each side's key, what it has read of the other's, and the messages so far.
pub record Shake : Type 0 where
  pub own : List ℕ
  pub remote : List ℕ
  pub turn : ℕ

pub record Pipe : Type 0 where
  pub remote : List ℕ
  pub sent : ℕ
  pub expected : ℕ

abbrev pub zeros : List ℕ
zeros = replicate 15 0

abbrev pub read_pipe : List ℕ → Pipe → Pipe × Option (List ℕ)
read_pipe [] p = (p, none)
read_pipe (n ∷ rest) p =
    if n == p.expected
    then (record p { expected = suc p.expected }, some (drop 15 rest))
    else (p, none)

-- A message of the handshake is the key and the payload; a message of the transport starts with its
-- number.
abbrev pub toy : Snow
toy = record {
  HandshakeState = Shake;
  TransportState = Pipe;
  build_initiator = λ key seed. some record { own = key; remote = []; turn = 0 };
  build_responder = λ key seed. some record { own = key; remote = []; turn = 0 };
  write_message = λ payload room h. (record h { turn = suc h.turn }, some (h.own ++ payload));
  read_message =
      λ msg room h. (record h { remote = take 32 msg; turn = suc h.turn }, some (drop 32 msg));
  is_handshake_finished = λ h. leb 3 h.turn;
  into_transport_mode = λ h. some record { remote = h.remote; sent = 0; expected = 0 };
  write_transport =
      λ text room p. (record p { sent = suc p.sent }, some (p.sent ∷ (zeros ++ text)));
  read_transport = λ msg room p. read_pipe msg p;
  get_remote_static = λ p. some p.remote;
}

pub read_pipe-expected :
    (p : Pipe) (n : ℕ) (text : List ℕ)
    → n ≡ p.expected
    → read_pipe (n ∷ (zeros ++ text)) p ≡ (record p { expected = suc p.expected }, some text)
read_pipe-expected p n text h =
    let e : (n == p.expected) ≡ true = ground arith in
    ap (λ b. if b then (record p { expected = suc p.expected }, some text) else (p, none)) e

pub read_pipe-other :
    (p : Pipe) (n : ℕ) (text : List ℕ)
    → n ≢ p.expected
    → read_pipe (n ∷ (zeros ++ text)) p ≡ (p, none)
read_pipe-other p n text h =
    let e : (n == p.expected) ≡ false = ground arith in
    ap (λ b. if b then (record p { expected = suc p.expected }, some text) else (p, none)) e

abbrev pub toy_ordered : IsOrdered toy
toy_ordered = record {
  Key = Unit {0};
  write_key = λ p. tt;
  read_key = λ p. tt;
  sent = λ p. p.sent;
  expected = λ p. p.expected;
  Sealed = λ key n text message. message ≡ n ∷ (zeros ++ text);
  writes = λ a text room fits. (
    record a { sent = suc a.sent },
    a.sent ∷ (zeros ++ text),
    refl,
    refl,
    omega arith,
    refl,
    refl,
    refl,
    refl,
  );
  opens = λ b text message room sealed fits. (
    record b { expected = suc b.expected },
    ap (λ m. read_pipe m b) sealed ∙ read_pipe-expected b b.expected text refl,
    refl,
    refl,
    refl,
    refl,
  );
  refuses = λ b n text message room sealed ne.
      ap (λ m. read_pipe m b) sealed ∙ read_pipe-other b n text ne;
}

-- Ten milliseconds between two readings of the clock, and nothing arrives.
abbrev pub quiet_host : Host
quiet_host = record {
  clock = λ i. 10 * i;
  arrivals = λ i. timed_out;
  delivers = λ i. true;
  filled = λ i n. replicate n 0;
  draws = λ i. record { eph = i ∷ []; nonce = replicate 24 2 };
}

abbrev pub pipe : ℕ → ℕ → Pipe
pipe sent expected = record { remote = replicate 32 9; sent = sent; expected = expected }

abbrev pub session : UdpSession toy
session = record {
  sock = bound;
  next_hop = v4 127 0 0 1 4000;
  peer = v4 127 0 0 1 4000;
  via_relay = false;
  onion = none;
  noise = record { handshake = none; transport = some (pipe 0 0) };
  arq = ppo_se_protocol.Arq.new;
  drop_data = 0;
  cover = off;
  last_cover = 0;
}
