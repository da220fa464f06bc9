-- ===== src/Arq/Receive.antt =====
-- The receiving half: the window of received sequence numbers, and the reassembly of fragments.
pub mod Window
pub mod Reassembly
use ppo_se_protocol.Common.{
  ℕ, zero, suc, ◌+◌, ◌-◌, ◌*◌, ◌/◌, ◌%◌, ◌^◌, ◌≡◌, Bool, true, false, not, ◌||◌, ◌&&◌, Option, none,
  some, List, [], ◌∷◌, ◌++◌, ltb, leb, ◌==◌, if◌then◌else◌, length, set, replicate, bit_and, bit_or,
  ℕ_discrete,
}
use ppo_se_protocol.Common.Table.{get, insert, remove}
use ppo_se_protocol.Arq.{Arq, FragBuf, wrapping_sub}

-- The `while` loop of `mark_received` on the base and the bits, with fuel: a shift drops one of 64
-- bits, so 64 rounds are enough.
unfoldable pub advance : ℕ → ℕ → ℕ → ℕ × ℕ
advance zero base bits = (base, bits)
advance (suc fuel) base bits = elim (bit_and bits 1 == 1) [
  | true ↦ advance fuel ((base + 1) % 2 ^ 32) (bits / 2)
  | false ↦ (base, bits)
]

-- The body of `mark_received` behind `ahead`: the base and the bits after the number is marked;
-- `none` where it is refused.
unfoldable pub mark_ahead : ℕ → ℕ → ℕ → Option (ℕ × ℕ)
mark_ahead base bits ahead =
    if leb 64 ahead
    then none
    else let bit = 2 ^ ahead in
      if not (bit_and bits bit == 0) then none else some (advance 64 base (bit_or bits bit))

unfoldable pub mark_window : ℕ → ℕ → ℕ → Option (ℕ × ℕ)
unfolding mark_ahead
mark_window base bits seq = mark_ahead base bits (wrapping_sub seq base)

unfoldable pub mark_received : ℕ → Arq → Arq × Bool
unfolding mark_window
mark_received seq s = elim (mark_window s.recv_base s.recv_bits seq) [
  | none ↦ (s, false)
  | some (base, bits) ↦ (record s { recv_base = base; recv_bits = bits }, true)
]

abbrev pub all_some : List (Option (List ℕ)) → Bool
all_some [] = true
all_some (none ∷ ps) = false
all_some (some p ∷ ps) = all_some ps

-- `parts.iter().flatten()`, one after the other.
abbrev pub join_parts : List (Option (List ℕ)) → List ℕ
join_parts [] = []
join_parts (none ∷ ps) = join_parts ps
join_parts (some p ∷ ps) = p ++ join_parts ps

-- `entry(frag_id).or_insert_with(..)`.
unfoldable pub buffer_for : ℕ → ℕ → List (ℕ × FragBuf) → FragBuf
unfolding get
buffer_for frag_id total m = elim (get ℕ_discrete frag_id m) [
  | none ↦ record { total = total; parts = replicate total none }
  | some buf ↦ buf
]

-- What `on_data` does with a fragment and its buffer.
unfoldable pub store_in : FragBuf → ℕ → ℕ → ℕ → List ℕ → Arq → Arq
unfolding insert remove
store_in buf frag_id index total payload s =
    if not (buf.total == total) || leb (length buf.parts) index
    then record s { fragments = insert ℕ_discrete frag_id buf s.fragments }
    else let parts = set buf.parts index (some payload) in
      if all_some parts
      then record s {
        fragments = remove ℕ_discrete frag_id s.fragments;
        delivered = s.delivered ++ (join_parts parts ∷ []);
      }
      else record s {
        fragments = insert ℕ_discrete frag_id (record buf { parts = parts }) s.fragments;
      }

unfoldable pub store_fragment : ℕ → ℕ → ℕ → List ℕ → Arq → Arq
unfolding buffer_for store_in
store_fragment frag_id index total payload s =
    store_in (buffer_for frag_id total s.fragments) frag_id index total payload s

unfoldable pub accept_data : ℕ → ℕ → ℕ → List ℕ → Arq → Arq
unfolding store_fragment
accept_data frag_id index total payload s =
    if total == 1
    then record s { delivered = s.delivered ++ (payload ∷ []) }
    else store_fragment frag_id index total payload s

unfoldable pub on_data : ℕ → ℕ → ℕ → ℕ → List ℕ → Arq → Arq
unfolding mark_received accept_data
on_data seq frag_id index total payload s =
    let (s', fresh) = mark_received seq s in
    if not fresh then s' else accept_data frag_id index total payload s'

abbrev pub pop_delivered : Arq → Arq × Option (List ℕ)
pop_delivered s = elim s.delivered [
  | [] ↦ (s, none)
  | m ∷ rest ↦ (record s { delivered = rest }, some m)
]
