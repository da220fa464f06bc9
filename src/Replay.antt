-- ===== src/Replay.antt =====
-- network/replay.rs: the bounded replay cache. The hash function is a parameter.
pub mod Laws
pub mod Window
use ppo_se_protocol.Common.{
  ℕ, ◌-◌, Bool, true, false, Option, none, some, List, [], ◌∷◌, ltb, leb, if◌then◌else◌, length,
  take,
}
use ppo_se_protocol.Common.Table.{get, insert, remove, bytes_discrete}

-- Milliseconds.
abbrev pub default_ttl : ℕ
default_ttl = 30_000

abbrev pub default_cap : ℕ
default_cap = 4096

pub record ReplayCache : Type 0 where
  pub seen : List (List ℕ × ℕ)
  pub ttl : ℕ
  pub cap : ℕ

abbrev pub with_bounds : ℕ → ℕ → ReplayCache
with_bounds ttl cap = record { seen = []; ttl = ttl; cap = cap }

abbrev pub new : ReplayCache
new = with_bounds default_ttl default_cap

-- `retain` with the test of `expire`.
unfoldable pub retain_live : ℕ → ℕ → List (List ℕ × ℕ) → List (List ℕ × ℕ)
retain_live now ttl [] = []
retain_live now ttl ((k, t) ∷ m) =
    if ltb (now - t) ttl then (k, t) ∷ retain_live now ttl m else retain_live now ttl m

unfoldable pub expire : ℕ → ReplayCache → ReplayCache
unfolding retain_live
expire now c = record c { seen = retain_live now c.ttl c.seen }

-- `min_by_key`: of several least times, the first.
unfoldable pub older : List ℕ × ℕ → Option (List ℕ × ℕ) → List ℕ × ℕ
older e none = e
older e (some f) = if leb e.1 f.1 then e else f

unfoldable pub oldest : List (List ℕ × ℕ) → Option (List ℕ × ℕ)
oldest [] = none
oldest (e ∷ m) = some (older e (oldest m))

unfoldable pub evict : Option (List ℕ × ℕ) → ReplayCache → ReplayCache
unfolding remove
evict none c = c
evict (some (k, t)) c = record c { seen = remove bytes_discrete k c.seen }

-- The eviction before an insertion.
unfoldable pub make_room : ReplayCache → ReplayCache
unfolding oldest evict
make_room c = if leb c.cap (length c.seen) then evict (oldest c.seen) c else c

abbrev pub is_some : {A : Type 0} → Option A → Bool
is_some none = false
is_some (some a) = true

unfoldable pub record_packet : List ℕ → ℕ → ReplayCache → ReplayCache
unfolding insert
record_packet key now c = record c { seen = insert bytes_discrete key now c.seen }

-- After the look-up: whether the map contains the key.
unfoldable pub settle : Bool → List ℕ → ℕ → ReplayCache → ReplayCache × Bool
unfolding make_room record_packet
settle true key now c = (c, false)
settle false key now c = (record_packet key now (make_room c), true)

unfoldable pub accept_key : List ℕ → ℕ → ReplayCache → ReplayCache × Bool
unfolding settle get
accept_key key now c = settle (is_some (get bytes_discrete key c.seen)) key now c

module _ (hash : List ℕ → List ℕ) where
  unfoldable pub accept : List ℕ → ℕ → ReplayCache → ReplayCache × Bool
  unfolding expire accept_key
  accept inner now c = accept_key (take 16 (hash inner)) now (expire now c)
