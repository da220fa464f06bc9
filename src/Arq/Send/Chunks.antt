-- ===== src/Arq/Send/Chunks.antt =====
-- Fragmentation loses nothing: the chunks are the message, in pieces of at most the given size.
use ppo_se_protocol.Common.{
  ℕ, zero, suc, ◌+◌, ◌*◌, ◌≤◌, ◌<◌, ◌≡◌, refl, ap, ◌∙◌, List, [], ◌∷◌, ◌++◌, length, take, drop,
  ◌⊎◌, inl, inr, All, arith, length-take, length-drop, take-append-drop,
}
use ppo_se_protocol.Arq.Receive.Reassembly.{concat}
use ppo_se_protocol.Arq.Send.{chunk_loop, chunks}

-- A multiple of `s` below `s` is 0.
less_than_one : (a s : ℕ) → (a * s ≡ 0) ⊎ (s ≤ a * s)
less_than_one zero s = inl (omega arith)
less_than_one (suc a) s = inr (omega arith)

module _ (size : ℕ) (pos : 0 < size) where
  concat-chunk_loop :
      (fuel : ℕ) (xs : List ℕ) → length xs ≤ fuel → concat (chunk_loop fuel size xs) ≡ xs
  unfolding chunk_loop
  concat-chunk_loop zero [] h = refl
  concat-chunk_loop zero (x ∷ xs) h = absurd (omega arith)
  concat-chunk_loop (suc fuel) [] h = refl
  concat-chunk_loop (suc fuel) (x ∷ xs) h =
      ap (λ t. take size (x ∷ xs) ++ t)
        (concat-chunk_loop fuel (drop size (x ∷ xs)) (omega (arith, length-drop size (x ∷ xs))))
      ∙ take-append-drop size (x ∷ xs)

  -- A chunk has 1 to `size` bytes.
  abbrev pub IsChunk : List ℕ → Type 0
  IsChunk c = (1 ≤ length c) × (length c ≤ size)

  chunk_loop-IsChunk : (fuel : ℕ) (xs : List ℕ) → All IsChunk (chunk_loop fuel size xs)
  unfolding chunk_loop
  chunk_loop-IsChunk zero xs = tt
  chunk_loop-IsChunk (suc fuel) [] = tt
  chunk_loop-IsChunk (suc fuel) (x ∷ xs) =
      (omega (arith, length-take size (x ∷ xs)), chunk_loop-IsChunk fuel (drop size (x ∷ xs)))

  -- As many chunks as the length divided by the size, rounded up.
  length-chunk_loop :
      (fuel : ℕ) (xs : List ℕ)
      → length xs ≤ fuel
      → (length xs ≤ length (chunk_loop fuel size xs) * size)
        × (length (chunk_loop fuel size xs) * size < length xs + size)
  unfolding chunk_loop
  length-chunk_loop zero [] h = omega arith
  length-chunk_loop zero (x ∷ xs) h = absurd (omega arith)
  length-chunk_loop (suc fuel) [] h = omega arith
  length-chunk_loop (suc fuel) (x ∷ xs) h =
      let n = length (chunk_loop fuel size (drop size (x ∷ xs))) in
      omega (
        arith,
        length-drop size (x ∷ xs),
        length-chunk_loop fuel (drop size (x ∷ xs)) (omega (arith, length-drop size (x ∷ xs))),
        less_than_one n size,
      )

pub concat-chunks : (size : ℕ) (xs : List ℕ) → 0 < size → concat (chunks size xs) ≡ xs
unfolding chunks
concat-chunks size xs pos = concat-chunk_loop size pos (length xs) xs (omega arith)

pub chunks-IsChunk :
    (size : ℕ) (xs : List ℕ) (pos : 0 < size) → All (IsChunk size pos) (chunks size xs)
unfolding chunks
chunks-IsChunk size xs pos = chunk_loop-IsChunk size pos (length xs) xs

pub length-chunks :
    (size : ℕ) (xs : List ℕ)
    → 0 < size
    → (length xs ≤ length (chunks size xs) * size)
      × (length (chunks size xs) * size < length xs + size)
unfolding chunks
length-chunks size xs pos = length-chunk_loop size pos (length xs) xs (omega arith)
