-- ===== src/Session/InOrder.antt =====
-- The frames of a message that arrive in order are an exchange of the ARQ in order.
use ppo_se_protocol.Common.{
  ℕ, zero, suc, ◌+◌, ◌%◌, ◌^◌, ◌≤◌, ◌<◌, ◌≡◌, refl, ap, sym, ◌∙◌, Bool, true, false, List, [], ◌∷◌,
  ◌++◌, arith, length, length-append, get_or, All,
}
use ppo_se_protocol.Common.Bytes.{to_be_bytes, length-to_be_bytes}
use ppo_se_protocol.Wire.{max_datagram}
use ppo_se_protocol.Frame.{max_payload, encode_data}
use ppo_se_protocol.Arq.{Arq}
use ppo_se_protocol.Arq.Send.Idle.{texts}
use ppo_se_protocol.Arq.Ingest.{ingest}
use ppo_se_protocol.Arq.Receive.Reassembly.{contains, all_from}
use ppo_se_protocol.Arq.Exchange.{frame_at, exchange}
use ppo_se_protocol.Session.Channel.{ingest_all}

-- The offsets of all frames, in order.
abbrev pub offsets : ℕ → List (List ℕ) → List ℕ
offsets k [] = []
offsets k (c ∷ cs) = k ∷ offsets (k + 1) cs

pub offsets_inside :
    (n k : ℕ) (cs : List (List ℕ)) → k + length cs ≤ n → All (λ i. i < n) (offsets k cs)
offsets_inside n k [] h = tt
offsets_inside n k (c ∷ cs) h = (omega (arith, h), offsets_inside n (k + 1) cs (omega (arith, h)))

pub contains-offsets :
    (k j : ℕ) (cs : List (List ℕ)) → k ≤ j → j < k + length cs → contains (offsets k cs) j ≡ true
contains-offsets k j [] l h = absurd (omega (arith, l, h))
contains-offsets k j (c ∷ cs) l h = ground (arith, contains-offsets (k + 1) j cs)

-- All frames are there.
pub all_from-offsets :
    (k : ℕ) (cs : List (List ℕ)) (f : ℕ → Bool)
    → ((j : ℕ) → k ≤ j → j < k + length cs → f j ≡ true)
    → all_from f k cs ≡ true
all_from-offsets k [] f h = refl
all_from-offsets k (c ∷ cs) f h =
    ap (λ b. elim b [ true ↦ all_from f (k + 1) cs | false ↦ false ])
      (h k (omega arith) (omega arith))
    ∙ all_from-offsets (k + 1) cs f (λ j l u. h j (omega (arith, l)) (omega (arith, u)))

length-encode_data :
    (seq frag_id index total : ℕ) (payload : List ℕ)
    → length (encode_data seq frag_id index total payload) ≡ 9 + length payload
unfolding encode_data
length-encode_data seq frag_id index total payload =
    let h =
      length-append (to_be_bytes 4 seq) (to_be_bytes 2 frag_id ++ (index ∷ total ∷ payload)) in
    let g = length-append (to_be_bytes 2 frag_id) (index ∷ total ∷ payload) in
    let a = length-to_be_bytes 4 seq in
    let b = length-to_be_bytes 2 frag_id in omega (arith, h, g, a, b)

module _ (frag_id total : ℕ) where
  get_or-texts :
      (q i j : ℕ) (cs : List (List ℕ))
      → j < length cs
      → get_or (texts frag_id total q i cs) j []
        ≡ encode_data (q + j) frag_id ((i + j) % 2 ^ 8) total (get_or cs j [])
  get_or-texts q i j [] h = absurd (omega (arith, h))
  get_or-texts q i zero (c ∷ cs) h =
      let e : q ≡ q + 0 = omega arith in
      let f : i ≡ i + 0 = omega arith in
      ap (λ n. encode_data n frag_id (i % 2 ^ 8) total c) e
      ∙ ap (λ n. encode_data (q + 0) frag_id (n % 2 ^ 8) total c) f
  get_or-texts q i (suc j) (c ∷ cs) h =
      let e : q + 1 + j ≡ q + suc j = omega arith in
      let f : i + 1 + j ≡ i + suc j = omega arith in
      get_or-texts (q + 1) (i + 1) j cs (omega (arith, h))
      ∙ ap (λ n. encode_data n frag_id ((i + 1 + j) % 2 ^ 8) total (get_or cs j [])) e
      ∙ ap (λ n. encode_data (q + suc j) frag_id (n % 2 ^ 8) total (get_or cs j [])) f

  -- The frame that `enqueue` has put under a number.
  pub frame-texts :
      (sender : Arq) (first j : ℕ) (cs : List (List ℕ))
      → j < length cs
      → j < 2 ^ 8
      → first + j < 2 ^ 32
      → frame_at sender ((first + j) % 2 ^ 32)
        ≡ encode_data ((first + j) % 2 ^ 32) frag_id j total (get_or cs j [])
      → frame_at sender ((first + j) % 2 ^ 32) ≡ get_or (texts frag_id total first 0 cs) j []
  frame-texts sender first j cs lt low high e =
      let number : (first + j) % 2 ^ 32 ≡ first + j = omega (arith, high) in
      let index : j ≡ (0 + j) % 2 ^ 8 = omega (arith, low) in
      e
      ∙ ap (λ n. encode_data n frag_id j total (get_or cs j [])) number
      ∙ ap (λ i. encode_data (first + j) frag_id i total (get_or cs j [])) index
      ∙ sym (get_or-texts first 0 j cs lt)

  -- Frames that come in one after another are an exchange in order.
  pub ingest_all-exchange :
      (sender : Arq) (first k q : ℕ)
      → q ≡ first + k
      → (cs : List (List ℕ)) (r : Arq)
      → ((j : ℕ)
          → j < length cs
          → frame_at sender ((q + j) % 2 ^ 32) ≡ get_or (texts frag_id total q k cs) j [])
      → ingest_all (texts frag_id total q k cs) r ≡ exchange sender first (offsets k cs) r
  unfolding ingest_all exchange
  ingest_all-exchange sender first k q at [] r h = refl
  ingest_all-exchange sender first k q at (c ∷ cs) r h =
      let same : first + k ≡ q + 0 = omega (arith, at) in
      let head : frame_at sender ((first + k) % 2 ^ 32)
          ≡ encode_data q frag_id (k % 2 ^ 8) total c =
        ap (λ n. frame_at sender (n % 2 ^ 32)) same ∙ h 0 (omega arith) in
      let r' = (ingest (encode_data q frag_id (k % 2 ^ 8) total c) r).0 in
      ingest_all-exchange sender first (k + 1) (q + 1) (omega (arith, at)) cs r' (λ j lt.
        let next : q + 1 + j ≡ q + suc j = omega arith in
        ap (λ n. frame_at sender (n % 2 ^ 32)) next ∙ h (suc j) (omega (arith, lt)))
      ∙ ap (λ text. exchange sender first (offsets (k + 1) cs) (ingest text r).0) (sym head)

  pub texts-fit :
      (q i : ℕ) (cs : List (List ℕ))
      → All (λ c. length c ≤ max_payload) cs
      → All (λ inner. 24 + length inner ≤ max_datagram) (texts frag_id total q i cs)
  texts-fit q i [] h = tt
  texts-fit q i (c ∷ cs) h = (
    (let size = length-encode_data q frag_id (i % 2 ^ 8) total c in
        let short = h.0 in omega (arith, size, short)),
    texts-fit (q + 1) (i + 1) cs h.1,
  )
