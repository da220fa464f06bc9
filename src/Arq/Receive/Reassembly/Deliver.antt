-- ===== src/Arq/Receive/Reassembly/Deliver.antt =====
-- The arrival of one fragment against the set of the fragments that have arrived.
use ppo_se_protocol.Common.{
  ℕ, ◌+◌, ◌%◌, ◌^◌, ◌≤◌, ◌<◌, ◌≡◌, refl, sym, ◌∙◌, subst, fun_ext, List, [], Bool, false, length,
  get_or, none, some, arith, inl, inr, ℕ_discrete,
}
use ppo_se_protocol.Common.Table.{get}
use ppo_se_protocol.Arq.{Arq}
use ppo_se_protocol.Arq.Receive.{mark_window, mark_received, accept_data, on_data}
use ppo_se_protocol.Arq.Receive.Window.{
  IsWindow, received, Accepted, mark_window_lem, received-above,
}
use ppo_se_protocol.Arq.Receive.Reassembly.{add}
use ppo_se_protocol.Arq.Receive.Reassembly.Parts.{all_from-false, add_again}
use ppo_se_protocol.Arq.Receive.Reassembly.Buffer.{
  Holds, buffer_for-new, accept_data-Holds, accept_data-window,
}

module _ (cs : List (List ℕ)) (first frag_id : ℕ) (before : List (List ℕ)) where
  -- The window has room for the whole message, and `f` says which of its fragments have arrived.
  pub record Progress (f : ℕ → Bool) (s : Arq) : Type 0 where
    pub b : ℕ
    pub top : ℕ
    pub window : IsWindow s.recv_base s.recv_bits b
    pub room : first + length cs ≤ b + 64
    pub above : first + length cs ≤ top
    pub near : top + 64 ≤ first + 1_000_000
    pub nothing_above : (m : ℕ) → top ≤ m → received b s.recv_bits m ≡ false
    pub seen : (i : ℕ) → i < length cs → received b s.recv_bits (first + i) ≡ f i
    pub holds : Holds cs frag_id before f s

  pub b-le-top : {f : ℕ → Bool} {s : Arq} (p : Progress f s) → p.b ≤ p.top
  unfolding received
  b-le-top p = ground (arith, p.nothing_above p.top)

  unfoldable pub step : ℕ → Arq → Arq
  unfolding on_data
  step i s = on_data ((first + i) % 2 ^ 32) frag_id i (length cs) (get_or cs i []) s

  step-refused :
      (i : ℕ) (s : Arq)
      → mark_window s.recv_base s.recv_bits ((first + i) % 2 ^ 32) ≡ none
      → step i s ≡ s
  unfolding step
  step-refused i s e = rw (e, mark_received)

  step-accepted :
      (i : ℕ) (s : Arq) (base bits : ℕ)
      → mark_window s.recv_base s.recv_bits ((first + i) % 2 ^ 32) ≡ some (base, bits)
      → step i s
        ≡ accept_data frag_id i
            (length cs)
            (get_or cs i [])
            (record s { recv_base = base; recv_bits = bits })
  unfolding step
  step-accepted i s base bits e = rw (e, mark_received)

  pub Progress-cong :
      (f g : ℕ → Bool) (s : Arq) → ((j : ℕ) → f j ≡ g j) → Progress f s → Progress g s
  Progress-cong f g s h p = subst (λ k. Progress k s) (fun_ext h) p

  step_new :
      (f : ℕ → Bool) (i : ℕ) (s : Arq)
      → 1 ≤ length cs
      → i < length cs
      → (p : Progress f s)
      → Accepted s.recv_bits p.b
          (first + i)
          (mark_window s.recv_base s.recv_bits ((first + i) % 2 ^ 32))
      → Progress (add f i) (step i s)
  step_new f i s some_part lt p a =
      let s' = record s { recv_base = a.base'; recv_bits = a.bits' } in
      let (kb, kk) = accept_data-window cs frag_id before i (length cs) (get_or cs i []) s' in
      let missing : f i ≡ false = sym (p.seen i lt) ∙ a.is_new in
      rw (step-accepted i s a.base' a.bits' a.result) (record {
        b = a.b';
        top = p.top;
        window = rw (kb, kk) a.window;
        room = omega (arith, p.room, a.forward);
        above = p.above;
        near = p.near;
        nothing_above = λ m h. rw kk (ground (arith, a.update m, p.nothing_above m h, p.above));
        seen = λ j l. rw kk (ground (arith, a.update (first + j), p.seen j l));
        holds =
            accept_data-Holds cs frag_id before f i s' some_part lt missing
              (record { buffer = p.holds.buffer; messages = p.holds.messages });
      })

  pub step-Progress :
      (f : ℕ → Bool) (i : ℕ) (s : Arq)
      → 1 ≤ length cs
      → i < length cs
      → Progress f s
      → Progress (add f i) (step i s)
  step-Progress f i s some_part lt p =
      let low = b-le-top p in
      elim (mark_window_lem s.recv_base s.recv_bits p.b (first + i) p.window (omega (arith, p.room))
        (omega (arith, p.near))) [
          | inl (refused, inl old) ↦
              rw (step-refused i s refused)
                (Progress-cong f (add f i) s (λ j. add_again f i j (sym (p.seen i lt) ∙ old)) p)
          | inl (refused, inr far) ↦ absurd (omega (arith, p.room))
          | inr a ↦ step_new f i s some_part lt p a
        ]

  pub initial :
      (s : Arq) (b : ℕ)
      → IsWindow s.recv_base s.recv_bits b
      → first + length cs ≤ b + 64
      → ((i : ℕ) → i < length cs → received b s.recv_bits (first + i) ≡ false)
      → get ℕ_discrete frag_id s.fragments ≡ none
      → s.delivered ≡ before
      → 1 ≤ length cs
      → Progress (λ j. false) s
  initial s b w room fresh no_buffer e some_part =
      let low : b ≤ first = unfold received in ground (arith, fresh 0) in
      record {
        b = b;
        top = b + 64;
        window = w;
        room = room;
        above = room;
        near = omega arith;
        nothing_above = λ m h. received-above s.recv_base s.recv_bits b m w h;
        seen = fresh;
        holds = record {
          buffer = λ _. buffer_for-new cs frag_id before s.fragments no_buffer;
          messages = rw (all_from-false (λ j. false) 0 0 0 cs (omega arith) (omega arith) refl) e;
        };
      }
