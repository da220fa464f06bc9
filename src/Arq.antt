-- ===== src/Arq.antt =====
-- reliability/arq.rs: the state of an endpoint. The operations are in the modules below.
pub mod Send
pub mod Receive
pub mod Acknowledge
pub mod Ingest
pub mod Exchange
use ppo_se_protocol.Common.{ℕ, ◌+◌, ◌-◌, ◌%◌, ◌^◌, Bool, false, Option, List, []}
use ppo_se_protocol.Frame.{FrameError}

-- Instants and durations are milliseconds.
abbrev pub window_size : ℕ
window_size = 32

abbrev pub default_retx : ℕ
default_retx = 200

abbrev pub default_max_attempts : ℕ
default_max_attempts = 5

pub data ArqError : Type 0 where
  too_large : ArqError
  frame : FrameError → ArqError

pub record ArqGiveUp : Type 0 where
  pub seq : ℕ
  pub attempts : ℕ

pub record Outgoing : Type 0 where
  pub plaintext : List ℕ
  pub last_sent : Option ℕ
  pub attempts : ℕ

pub record FragBuf : Type 0 where
  pub total : ℕ
  pub parts : List (Option (List ℕ))

-- `unacked` is a `BTreeMap`, in ascending order of the keys.
pub record Arq : Type 0 where
  pub next_seq : ℕ
  pub next_frag_id : ℕ
  pub unacked : List (ℕ × Outgoing)
  pub recv_base : ℕ
  pub recv_bits : ℕ
  pub fragments : List (ℕ × FragBuf)
  pub delivered : List (List ℕ)
  pub pending_ack : Bool
  pub max_attempts : ℕ
  pub retx : ℕ

abbrev pub new : Arq
new = record {
  next_seq = 0;
  next_frag_id = 1;
  unacked = [];
  recv_base = 0;
  recv_bits = 0;
  fragments = [];
  delivered = [];
  pending_ack = false;
  max_attempts = default_max_attempts;
  retx = default_retx;
}

-- `u32::wrapping_sub`, of numbers below 2 ^ 32.
abbrev pub wrapping_sub : ℕ → ℕ → ℕ
wrapping_sub a b = (a + 2 ^ 32 - b) % 2 ^ 32
