-- ===== src/Arq/Receive/Reassembly/Buffer.antt =====
-- The reassembly buffer of one message, fragment by fragment.
use ppo_se_protocol.Common.{
  ℕ, zero, suc, ◌≤◌, ◌<◌, ◌≡◌, refl, List, [], ◌∷◌, ◌++◌, Bool, false, if◌then◌else◌, length,
  get_or, none, arith, ℕ_discrete, append-nil,
}
use ppo_se_protocol.Common.Table.{get, insert, remove, get-insert_self}
use ppo_se_protocol.Arq.{Arq, FragBuf}
use ppo_se_protocol.Arq.Receive.{buffer_for, store_in, store_fragment, accept_data}
use ppo_se_protocol.Arq.Receive.Reassembly.{all_from, add, concat}
use ppo_se_protocol.Arq.Receive.Reassembly.Parts.{
  arrived, length-arrived, arrived-none, set-arrived, all_some-arrived, join_parts-arrived,
  all_from-false,
}

module _ (cs : List (List ℕ)) (frag_id : ℕ) (before : List (List ℕ)) where
  abbrev pub partial : (ℕ → Bool) → FragBuf
  partial f = record { total = length cs; parts = arrived f 0 cs }

  -- The buffer while fragments are missing, and the messages delivered before and after.
  pub record Holds (f : ℕ → Bool) (s : Arq) : Type 0 where
    pub buffer : all_from f 0 cs ≡ false → buffer_for frag_id (length cs) s.fragments ≡ partial f
    pub messages : s.delivered ≡ (if all_from f 0 cs then before ++ (concat cs ∷ []) else before)

  buffer_for-insert :
      (total : ℕ) (buf : FragBuf) (m : List (ℕ × FragBuf))
      → buffer_for frag_id total (insert ℕ_discrete frag_id buf m) ≡ buf
  unfolding buffer_for
  buffer_for-insert total buf m = ground (arith, get-insert_self ℕ_discrete frag_id buf m)

  pub buffer_for-new :
      (m : List (ℕ × FragBuf))
      → get ℕ_discrete frag_id m ≡ none
      → buffer_for frag_id (length cs) m ≡ partial (λ j. false)
  unfolding buffer_for
  buffer_for-new m e = ground (arith, arrived-none (λ j. false) 0 cs (λ i p. refl))

  stored : (ℕ → Bool) → Arq → Arq
  stored g s =
      if all_from g 0 cs
      then record s {
        fragments = remove ℕ_discrete frag_id s.fragments;
        delivered = s.delivered ++ (concat cs ∷ []);
      }
      else record s { fragments = insert ℕ_discrete frag_id (partial g) s.fragments }

  store_in-partial :
      (f : ℕ → Bool) (i : ℕ) (s : Arq)
      → i < length cs
      → store_in (partial f) frag_id i (length cs) (get_or cs i []) s ≡ stored (add f i) s
  unfolding store_in stored
  store_in-partial f i s lt =
      rw (set-arrived f i 0 i cs (omega arith) lt, all_some-arrived, length-arrived)
        (ground (arith, join_parts-arrived (add f i) 0 cs))

  stored-Holds :
      (f : ℕ → Bool) (i : ℕ) (s : Arq)
      → i < length cs
      → f i ≡ false
      → Holds f s
      → Holds (add f i) (stored (add f i) s)
  unfolding stored
  stored-Holds f i s lt new h =
      let missing = all_from-false f i 0 i cs (omega arith) lt new in
      record {
        buffer = λ open_still.
            ground (arith, buffer_for-insert (length cs) (partial (add f i)) s.fragments);
        messages = ground (arith, h.messages);
      }

  accept_part :
      (f : ℕ → Bool) (i : ℕ) (s : Arq)
      → 2 ≤ length cs
      → i < length cs
      → f i ≡ false
      → Holds f s
      → Holds (add f i) (accept_data frag_id i (length cs) (get_or cs i []) s)
  unfolding accept_data
  accept_part f i s two lt new h =
      let missing = all_from-false f i 0 i cs (omega arith) lt new in
      let e : accept_data frag_id i (length cs) (get_or cs i []) s ≡ stored (add f i) s =
        ground (arith, h.buffer missing, store_in-partial f i s lt) in
      rw e (stored-Holds f i s lt new h)

  -- The reassembly does not touch the window.
  pub accept_data-window :
      (i total : ℕ) (payload : List ℕ) (s : Arq)
      → ((accept_data frag_id i total payload s).recv_base ≡ s.recv_base)
        × ((accept_data frag_id i total payload s).recv_bits ≡ s.recv_bits)
  unfolding accept_data store_fragment store_in
  accept_data-window i total payload s = ground arith

-- A message of one part is delivered as it arrives.
accept_whole :
    (c : List ℕ) (frag_id : ℕ) (before : List (List ℕ)) (f : ℕ → Bool) (s : Arq)
    → f 0 ≡ false
    → Holds (c ∷ []) frag_id before f s
    → Holds (c ∷ []) frag_id before (add f 0) (accept_data frag_id 0 1 c s)
unfolding accept_data
accept_whole c frag_id before f s new h = record {
  buffer = λ open_still. cc;
  messages = ground (arith, h.messages, append-nil c);
}

-- The fragment of an accepted number is one more that has arrived.
pub accept_data-Holds :
    (cs : List (List ℕ)) (frag_id : ℕ) (before : List (List ℕ)) (f : ℕ → Bool) (i : ℕ) (s : Arq)
    → 1 ≤ length cs
    → i < length cs
    → f i ≡ false
    → Holds cs frag_id before f s
    → Holds cs frag_id before (add f i) (accept_data frag_id i (length cs) (get_or cs i []) s)
accept_data-Holds [] frag_id before f i s one lt new h = absurd (omega arith)
accept_data-Holds (c ∷ []) frag_id before f zero s one lt new h =
    accept_whole c frag_id before f s new h
accept_data-Holds (c ∷ []) frag_id before f (suc i) s one lt new h = absurd (omega arith)
accept_data-Holds (c ∷ d ∷ cs) frag_id before f i s one lt new h =
    accept_part (c ∷ d ∷ cs) frag_id before f i s (omega arith) lt new h
