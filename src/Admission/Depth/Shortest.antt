-- ===== src/Admission/Depth/Shortest.antt =====
-- `trust_depth` finds the length of the shortest chain.
use ppo_se_protocol.Common.{
  ℕ, zero, suc, ◌+◌, ◌≤◌, ◌<◌, ◌≡◌, ◌⊎◌, inl, inr, sym, subst, ◌∙◌, true, false, Option, none, some,
  List, [], ◌∷◌, Bool-cases, if◌then◌else◌, length, ◌==◌, arith,
}
use ppo_se_protocol.Admission.{
  Signatures, TrustStore, Scan, found, more, contains_key, scan_frontier, search_depths,
  trust_depth,
}
use ppo_se_protocol.Admission.Depth.{In, Vouches, Reaches}
use ppo_se_protocol.Admission.Depth.Scanned.{Visits, Scans, From, scan_frontier-Scans, nothing_in}

module _ (sigs : Signatures) (now : ℕ) (s : TrustStore) (subject : List ℕ) where
  -- No chain of at most `limit` valid invitations leads to the subject, or `d` is the length of a
  -- shortest one.
  abbrev pub IsDepth : ℕ → Option ℕ → Type 0
  IsDepth limit none = (n : ℕ) → n ≤ limit → Reaches sigs now s n subject → ⊥
  IsDepth limit (some d) =
      (d ≤ limit)
      × Reaches sigs now s d subject
      × ((n : ℕ) → n < d → Reaches sigs now s n subject → ⊥)

  -- The search has visited the keys at depth `d` and less, without the subject; the frontier is at
  -- depth `d`, and the keys behind it are exhausted.
  record Searched (d : ℕ) (frontier visited : List (List ℕ)) : Type 0 where
    front : (x : List ℕ) → In frontier x → Reaches sigs now s d x
    seen : (n : ℕ) (x : List ℕ) → n ≤ d → Reaches sigs now s n x → In visited x
    closed :
        (x : List ℕ)
        → In visited x
        → In frontier x ⊎ ((y : List ℕ) → Vouches sigs now s x y → In visited y)
    fresh : contains_key visited subject ≡ false

  not_in : (visited : List (List ℕ)) → contains_key visited subject ≡ false → In visited subject → ⊥
  not_in visited f h = absurd (let g = sym f ∙ h in cc g)

  nearer :
      (d n : ℕ) (frontier visited : List (List ℕ))
      → Searched d frontier visited
      → n ≤ d
      → Reaches sigs now s n subject
      → ⊥
  nearer d n frontier visited q le r = not_in visited q.fresh (q.seen n subject le r)

  module _ (d : ℕ) (frontier visited v2 n2 : List (List ℕ)) (q : Searched d frontier visited)
      (v : Visits subject (From subject sigs now s frontier) visited [] v2 n2) where
    successor : (x y : List ℕ) → In visited x → Vouches sigs now s x y → In v2 y
    successor x y h w = elim (q.closed x h) [
      | inl f ↦ v.covers y (x, f, w)
      | inr c ↦ v.grows y (c y w)
    ]

    deeper_seen : (n : ℕ) (x : List ℕ) → n ≤ suc d → Reaches sigs now s n x → In v2 x
    deeper_seen zero x le r = v.grows x (q.seen zero x (omega arith) r)
    deeper_seen (suc n) x le (i, r, w) = successor i x (q.seen n i (omega (arith, le)) r) w

    -- A round that does not find the subject goes one deeper.
    deeper : Searched (suc d) n2 v2
    deeper = record {
      front = λ x h. elim (v.origin x h) [
        | inl old ↦ absurd (nothing_in x old)
        | inr (i, h', w) ↦ (i, q.front i h', w)
      ];
      seen = deeper_seen;
      closed = λ x h. elim (v.splits x h) [
        | inl old ↦ inr (λ y w. successor x y old w)
        | inr new ↦ inl new
      ];
      fresh = v.avoids q.fresh;
    }

  -- With an empty frontier, everything that a chain leads to has been visited.
  exhausted :
      (d n : ℕ) (x : List ℕ) (visited : List (List ℕ))
      → Searched d [] visited
      → Reaches sigs now s n x
      → In visited x
  exhausted d zero x visited q r = q.seen zero x (omega arith) r
  exhausted d (suc n) x visited q (i, r, w) = elim (q.closed i (exhausted d n i visited q r)) [
    | inl f ↦ absurd (nothing_in i f)
    | inr c ↦ c x w
  ]

  empty_next :
      (d limit : ℕ) (next visited : List (List ℕ))
      → (length next == 0) ≡ true
      → Searched d next visited
      → IsDepth limit none
  empty_next d limit [] visited h q n le r =
      not_in visited q.fresh (exhausted d n subject visited q r)
  empty_next d limit (x ∷ xs) visited h q n le r = absurd (ground (arith, h))

  round :
      (r : Scan) (left d : ℕ) (frontier visited : List (List ℕ))
      → Searched d frontier visited
      → Scans subject (From subject sigs now s frontier) visited [] r
      → ((next visited' : List (List ℕ))
          → Searched (suc d) next visited'
          → IsDepth
              (suc d + left)
              (search_depths sigs s subject now left (suc d + 1) next visited'))
      → IsDepth (d + suc left) (elim r [
        | found ↦ some (d + 1)
        | more visited' next ↦
            if length next == 0
            then none
            else search_depths sigs s subject now left (d + 1 + 1) next visited'
      ])
  round found left d frontier visited q (i, h, w) rest =
      let same : suc d ≡ d + 1 = omega arith in
      (
        omega arith,
        subst (λ k. Reaches sigs now s k subject) same (i, q.front i h, w),
        λ n lt r. nearer d n frontier visited q (omega (arith, lt)) r,
      )
  round (more v2 n2) left d frontier visited q v rest =
      let q' = deeper d frontier visited v2 n2 q v in
      let sum : suc d + left ≡ d + suc left = omega arith in
      let next_depth : suc d + 1 ≡ d + 1 + 1 = omega arith in
      elim (Bool-cases (length n2 == 0)) [
        | inl e ↦
            subst
              (λ b.
                IsDepth (d + suc left)
                  (if b then none else search_depths sigs s subject now left (d + 1 + 1) n2 v2))
              (sym e) (empty_next (suc d) (d + suc left) n2 v2 e q')
        | inr e ↦
            subst
              (λ b.
                IsDepth (d + suc left)
                  (if b then none else search_depths sigs s subject now left (d + 1 + 1) n2 v2))
              (sym e)
              (subst (λ k. IsDepth (d + suc left) (search_depths sigs s subject now left k n2 v2))
                next_depth
                (subst (λ k. IsDepth k (search_depths sigs s subject now left (suc d + 1) n2 v2))
                  sum (rest n2 v2 q')))
      ]

  search_depths-IsDepth :
      (left d : ℕ) (frontier visited : List (List ℕ))
      → Searched d frontier visited
      → IsDepth (d + left) (search_depths sigs s subject now left (d + 1) frontier visited)
  unfolding search_depths
  search_depths-IsDepth zero d frontier visited q =
      λ n le r. nearer d n frontier visited q (omega (arith, le)) r
  search_depths-IsDepth (suc left) d frontier visited q =
      round (scan_frontier sigs s subject now frontier visited []) left d frontier visited q
        (scan_frontier-Scans subject sigs now s frontier visited [])
        (λ next visited' q'. search_depths-IsDepth left (suc d) next visited' q')

  root_seen : (n : ℕ) (x : List ℕ) → n ≤ 0 → Reaches sigs now s n x → In s.roots x
  root_seen zero x le r = r
  root_seen (suc n) x le r = absurd (omega (arith, le))

  start : contains_key s.roots subject ≡ false → Searched 0 s.roots s.roots
  start h = record {
    front = λ x i. i;
    seen = λ n x le r. root_seen n x le r;
    closed = λ x i. inl i;
    fresh = h;
  }

  -- `trust_depth` gives the length of a shortest chain of valid invitations from a root to the
  -- subject, if one has at most `max_depth` invitations, and else none.
  pub trust_depth-IsDepth :
      (max_depth : ℕ) → IsDepth max_depth (trust_depth sigs s subject max_depth now)
  unfolding trust_depth
  trust_depth-IsDepth max_depth = elim (Bool-cases (contains_key s.roots subject)) [
    | inl t ↦
        subst
          (λ b.
            IsDepth max_depth
              (if b then some 0 else search_depths sigs s subject now max_depth 1 s.roots s.roots))
          (sym t) (omega arith, t, λ n lt r. absurd (omega (arith, lt)))
    | inr f ↦
        subst
          (λ b.
            IsDepth max_depth
              (if b then some 0 else search_depths sigs s subject now max_depth 1 s.roots s.roots))
          (sym f)
          (subst (λ k. IsDepth k (search_depths sigs s subject now max_depth 1 s.roots s.roots))
            (omega arith) (search_depths-IsDepth max_depth 0 s.roots s.roots (start f)))
  ]
