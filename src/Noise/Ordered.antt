-- ===== src/Noise/Ordered.antt =====
-- What `snow` documents of a transport state: it writes with one key and reads with another; each
-- message that it writes carries the next number of a counter, which is not sent; and it reads a
-- message only under the number that it expects next.
use ppo_se_protocol.Common.{ℕ, suc, ◌+◌, ◌≤◌, ◌≡◌, ◌≢◌, sym, subst, ◌∙◌, none, some, List, length}
use ppo_se_protocol.Noise.{Snow}

pub record IsOrdered (snow : Snow) : Type 1 where
  pub Key : Type 0
  pub write_key : snow.TransportState → Key
  pub read_key : snow.TransportState → Key
  -- The numbers of the next message written, and of the next one read.
  pub sent : snow.TransportState → ℕ
  pub expected : snow.TransportState → ℕ
  -- The message with a number and a text, under a key.
  pub Sealed : Key → ℕ → List ℕ → List ℕ → Type 0
  -- Writing adds a tag of 16 bytes, which has to fit the buffer.
  pub writes :
      (a : snow.TransportState) (text : List ℕ) (room : ℕ)
      → 16 + length text ≤ room
      → (a' : snow.TransportState) × (message : List ℕ) × (snow.write_transport text room a
          ≡ (a', some message))
        × Sealed (write_key a) (sent a) text message
        × (length message ≡ 16 + length text)
        × (sent a' ≡ suc (sent a))
        × (expected a' ≡ expected a)
        × (write_key a' ≡ write_key a)
        × (read_key a' ≡ read_key a)
  -- A message with the expected number opens.
  pub opens :
      (b : snow.TransportState) (text message : List ℕ) (room : ℕ)
      → Sealed (read_key b) (expected b) text message
      → length text ≤ room
      → (b' : snow.TransportState) × (snow.read_transport message room b ≡ (b', some text))
        × (expected b' ≡ suc (expected b))
        × (sent b' ≡ sent b)
        × (write_key b' ≡ write_key b)
        × (read_key b' ≡ read_key b)
  -- A message with another number does not, and the state stays.
  pub refuses :
      (b : snow.TransportState) (number : ℕ) (text message : List ℕ) (room : ℕ)
      → Sealed (read_key b) number text message
      → number ≢ expected b
      → snow.read_transport message room b ≡ (b, none)

module _ {snow : Snow} (laws : IsOrdered snow) where
  -- The second one reads with the key with which the first one writes.
  abbrev pub Linked : snow.TransportState → snow.TransportState → Type 0
  Linked a b = laws.write_key a ≡ laws.read_key b

  -- A message under the key with which the state reads.
  abbrev pub IsFor : snow.TransportState → ℕ → List ℕ → List ℕ → Type 0
  IsFor b number text message = laws.Sealed (laws.read_key b) number text message

  pub writes-IsFor :
      (a b : snow.TransportState) (text : List ℕ) (room : ℕ)
      → Linked a b
      → 16 + length text ≤ room
      → (a' : snow.TransportState) × (message : List ℕ) × (snow.write_transport text room a
          ≡ (a', some message))
        × (laws.sent a' ≡ suc (laws.sent a))
        × (laws.expected a' ≡ laws.expected a)
        × (laws.read_key a' ≡ laws.read_key a)
        × Linked a' b
        × IsFor b (laws.sent a) text message
        × (length message ≡ 16 + length text)
  writes-IsFor a b text room l fits =
      let (a', message, w, sealed, size, next, same, keeps, keeps') =
        laws.writes a text room fits in
      (
        a',
        message,
        w,
        next,
        same,
        keeps',
        keeps ∙ l,
        subst (λ key. laws.Sealed key (laws.sent a) text message) l sealed,
        size,
      )

  pub opens_from :
      (a b : snow.TransportState) (text message : List ℕ) (room : ℕ)
      → Linked a b
      → IsFor b (laws.expected b) text message
      → length text ≤ room
      → (b' : snow.TransportState) × (snow.read_transport message room b ≡ (b', some text))
        × (laws.expected b' ≡ suc (laws.expected b))
        × Linked a b'
  opens_from a b text message room l sealed fits =
      let (b', opens, next, same, keeps, keeps') = laws.opens b text message room sealed fits in
      (b', opens, next, l ∙ sym keeps')
