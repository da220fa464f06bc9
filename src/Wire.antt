-- ===== src/Wire.antt =====
-- lib.rs: the constants of the wire; and the socket addresses of the standard library, as far as
-- the crate uses them.
use ppo_se_protocol.Common.{
  ℕ, ◌<◌, ◌^◌, List, [], ◌∷◌, Bool, true, false, Result, ok, err, ℕ_discrete, if◌then◌else◌,
}
use ppo_se_protocol.Common.Table.{bytes_discrete}
use ppo_se_protocol.Common.Bytes.{IsByte, IsBytes}

abbrev pub protocol_version : ℕ
protocol_version = 0x03

-- `MAGIC`, byte by byte.
abbrev pub magic_0 : ℕ
magic_0 = 0x4a

abbrev pub magic_1 : ℕ
magic_1 = 0x7f

abbrev pub outer_header_len : ℕ
outer_header_len = 8

abbrev pub max_datagram : ℕ
max_datagram = 1200

-- Four octets and a port; the other addresses are only told apart.
pub data SocketAddr : Type 0 where
  v4 : ℕ → ℕ → ℕ → ℕ → ℕ → SocketAddr
  v6 : List ℕ → ℕ → SocketAddr

-- The fields fit their integer types.
abbrev pub IsAddr : SocketAddr → Type 0
IsAddr (v4 a b c d port) = IsByte a × IsByte b × IsByte c × IsByte d × (port < 2 ^ 16)
IsAddr (v6 octets port) = IsBytes octets × (port < 2 ^ 16)

unfoldable pub addr_discrete : Discrete SocketAddr
addr_discrete = hlevel (ℕ_discrete, bytes_discrete)

-- A failed system call, and the errors that the crate makes: what those wrap is left out.
pub data IoError : Type 0 where
  recv_failed send_failed would_block zero_timeout invalid_input invalid_data : IoError

-- What `recv_from` gives: nothing before the timeout, an error, or a datagram and its source.
pub data Received : Type 0 where
  timed_out : Received
  failed : Received
  datagram : List ℕ → SocketAddr → Received

-- One step of a node: its new state, the datagrams it tried to send, and its result.
pub record NodeStep (S : Type 0) : Type 0 where
  pub state : S
  pub sent : List (List ℕ × SocketAddr)
  pub result : Result IoError Bool

-- `Ok(false)` with nothing sent.
abbrev pub quiet : {S : Type 0} → S → NodeStep S
quiet s = record { state = s; sent = []; result = ok false }

-- `sock.send_to(..)?; Ok(true)`, where `delivered` says whether the call succeeds.
abbrev pub sends : {S : Type 0} → S → Bool → List ℕ → SocketAddr → NodeStep S
sends s delivered pkt dest = record {
  state = s;
  sent = (pkt, dest) ∷ [];
  result = if delivered then ok true else err send_failed;
}
