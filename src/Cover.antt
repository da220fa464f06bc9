-- ===== src/Cover.antt =====
-- cover.rs and config.rs: the schedule of cover packets and the runtime knobs.
use ppo_se_protocol.Common.{ℕ, Option, none, some}
use ppo_se_protocol.Wire.{protocol_version, max_datagram}

pub data CoverMode : Type 0 where
  off balanced stealth : CoverMode

-- Milliseconds.
abbrev pub interval : CoverMode → Option ℕ
interval off = none
interval balanced = some 200
interval stealth = some 50

abbrev pub payload_len : CoverMode → ℕ
payload_len off = 0
payload_len balanced = 64
payload_len stealth = 64

pub record Config : Type 0 where
  pub wire_version : ℕ
  pub mtu : ℕ
  pub cover : CoverMode
  pub max_onion_hops : ℕ

abbrev pub default_config : Config
default_config = record {
  wire_version = protocol_version;
  mtu = max_datagram;
  cover = off;
  max_onion_hops = 3;
}

abbrev pub balanced_config : Config
balanced_config = record default_config { cover = balanced }
