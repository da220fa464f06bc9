-- ===== src/Session.antt =====
-- session.rs: the state of a session over UDP. The operations are in the modules below.
pub mod Framing
pub mod Link
pub mod Transfer
pub mod Loops
pub mod Handshake
pub mod Clock
pub mod Deadline
pub mod Termination
pub mod Outcome
pub mod Paths
pub mod Direct
pub mod Loss
pub mod Steps
pub mod Meeting
pub mod Carries
pub mod Flush
pub mod Channel
pub mod InOrder
pub mod Answers
pub mod Delivery
pub mod Round
pub mod Incoming
pub mod Redirect
use ppo_se_protocol.Common.{ℕ, Bool, Option, List}
use ppo_se_protocol.Wire.{SocketAddr, IoError}
use ppo_se_protocol.Packet.{PacketError}
use ppo_se_protocol.Arq.{Arq, ArqError, ArqGiveUp}
use ppo_se_protocol.Noise.{Snow, NoiseSession, NoiseError}
use ppo_se_protocol.Onion.{OnionHop}
use ppo_se_protocol.Cover.{CoverMode}
use ppo_se_protocol.Udp.{Socket}

-- Directly; wrapped for a relay, with the inner destination; through the hops of an onion.
pub data SessionPath : Type 0 where
  direct : SocketAddr → SessionPath
  via_relay : SocketAddr → SocketAddr → SessionPath
  via_onion : List OnionHop → SocketAddr → SessionPath

-- A constructor for each `From` implementation, and the errors of the session itself.
pub data SessionError : Type 0 where
  io : IoError → SessionError
  noise : NoiseError → SessionError
  packet : PacketError → SessionError
  arq : ArqError → SessionError
  give_up : ArqGiveUp → SessionError
  unexpected_type unexpected_addr handshake_incomplete timeout empty_onion : SessionError

-- Instants are milliseconds.
pub record UdpSession (snow : Snow) : Type 0 where
  pub sock : Socket
  pub next_hop : SocketAddr
  pub peer : SocketAddr
  pub via_relay : Bool
  pub onion : Option (List OnionHop)
  pub noise : NoiseSession snow
  pub arq : Arq
  pub drop_data : ℕ
  pub cover : CoverMode
  pub last_cover : ℕ
