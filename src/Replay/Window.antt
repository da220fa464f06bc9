-- ===== src/Replay/Window.antt =====
-- How long a forwarded packet is remembered.
use ppo_se_protocol.Common.{
  ℕ, suc, ◌+◌, ◌-◌, ◌≤◌, ◌<◌, ◌≡◌, refl, sym, ap, subst, ◌∙◌, Bool, true, false, not, Option, none,
  some, List, [], ◌∷◌, leb, if◌then◌else◌, length, take, All, arith, inl, inr,
}
use ppo_se_protocol.Common.Table.{
  get, insert, remove, get-insert_self, get-insert_ne, get-remove_ne, bytes_discrete,
}
use ppo_se_protocol.Common.Distinct.{IsDistinct, remove-IsDistinct, insert-IsDistinct}
use ppo_se_protocol.Replay.{
  ReplayCache, evict, is_some, record_packet, retain_live, expire, oldest, make_room, settle,
  accept_key, accept,
}
use ppo_se_protocol.Replay.Laws.{
  still_live, get-oldest, get-retain_live, retain_live-IsDistinct, oldest-least, make_room-cases,
  accept_lem,
}

-- How many entries are not older than `t`.
unfoldable count_since : ℕ → List (List ℕ × ℕ) → ℕ
count_since t [] = 0
count_since t ((k, u) ∷ m) = (if leb t u then 1 else 0) + count_since t m

count_since-remove-le :
    (t : ℕ) (k : List ℕ) (m : List (List ℕ × ℕ))
    → count_since t (remove bytes_discrete k m) ≤ count_since t m
unfolding count_since remove
count_since-remove-le t k [] = omega arith
count_since-remove-le t k ((j, u) ∷ m) = ground (arith, count_since-remove-le t k m)

count_since-insert-le :
    (t : ℕ) (k : List ℕ) (u : ℕ) (m : List (List ℕ × ℕ))
    → count_since t (insert bytes_discrete k u m) ≤ suc (count_since t m)
unfolding count_since insert
count_since-insert-le t k u [] = ground arith
count_since-insert-le t k u ((j, w) ∷ m) = ground (arith, count_since-insert-le t k u m)

count_since-retain-le :
    (t now ttl : ℕ) (m : List (List ℕ × ℕ))
    → count_since t (retain_live now ttl m) ≤ count_since t m
unfolding count_since retain_live
count_since-retain-le t now ttl [] = omega arith
count_since-retain-le t now ttl ((j, w) ∷ m) = ground (arith, count_since-retain-le t now ttl m)

count_since-eq_length :
    (t : ℕ) (m : List (List ℕ × ℕ)) → All (λ e. t ≤ e.1) m → count_since t m ≡ length m
unfolding count_since
count_since-eq_length t [] a = refl
count_since-eq_length t ((j, w) ∷ m) a = ground (arith, count_since-eq_length t m a.1, a.0)

count_since-eq_zero : (t : ℕ) (m : List (List ℕ × ℕ)) → All (λ e. e.1 < t) m → count_since t m ≡ 0
unfolding count_since
count_since-eq_zero t [] a = refl
count_since-eq_zero t ((j, w) ∷ m) a = ground (arith, count_since-eq_zero t m a.1, a.0)

-- The packet with this key, recorded at `t`, is in the cache, and at most `n` entries are as new.
record Remembers (key : List ℕ) (t n : ℕ) (c : ReplayCache) : Type 0 where
  found : get bytes_discrete key c.seen ≡ some t
  newer : count_since t c.seen ≤ n
  distinct : IsDistinct bytes_discrete c.seen

expire-Remembers :
    (key : List ℕ) (t n now : ℕ) (c : ReplayCache)
    → now - t < c.ttl
    → Remembers key t n c
    → Remembers key t n (expire now c)
unfolding expire
expire-Remembers key t n now c l r = record {
  found =
      get-retain_live now c.ttl key c.seen r.distinct
      ∙ ap (still_live now c.ttl) r.found
      ∙ ground (arith, l);
  newer = (let h = count_since-retain-le t now c.ttl c.seen in omega (arith, h, r.newer));
  distinct = retain_live-IsDistinct now c.ttl c.seen r.distinct;
}

some-inj : {x y : ℕ} → some x ≡ some y → x ≡ y
some-inj h = cc h

make_room-Remembers :
    (key : List ℕ) (t n : ℕ) (c : ReplayCache)
    → n < c.cap
    → Remembers key t n c
    → Remembers key t n (make_room c)
make_room-Remembers key t n c l r = elim (make_room-cases c (omega (arith, l))) [
  | inl (e, h) ↦ subst (Remembers key t n) (sym e) r
  | inr (e, o, q, h) ↦ subst (Remembers key t n) (sym q) record {
    found =
        get-remove_ne bytes_discrete e.0 key c.seen (λ q.
          let same : e.1 ≡ t = some-inj (
            sym (get-oldest c.seen e r.distinct o)
            ∙ ap (λ k. get bytes_discrete k c.seen) q
            ∙ r.found) in
          let all = count_since-eq_length e.1 c.seen (oldest-least c.seen e o) in
          let few = r.newer in absurd (ground (arith, same, all, few, h, l)))
        ∙ r.found;
    newer = (let h' = count_since-remove-le t e.0 c.seen in omega (arith, h', r.newer));
    distinct = remove-IsDistinct bytes_discrete e.0 c.seen r.distinct;
  }
]

settle-Remembers :
    (b : Bool) (key : List ℕ) (t n : ℕ) (other : List ℕ) (now : ℕ) (c : ReplayCache)
    → is_some (get bytes_discrete other c.seen) ≡ b
    → n < c.cap
    → Remembers key t n c
    → Remembers key t (suc n) (settle b other now c).0
unfolding settle record_packet
settle-Remembers true key t n other now c e l r = record {
  found = r.found;
  newer = omega (arith, r.newer);
  distinct = r.distinct;
}
settle-Remembers false key t n other now c e l r =
    let room = make_room-Remembers key t n c l r in
    record {
      found =
          get-insert_ne bytes_discrete other key now (make_room c).seen (λ q. absurd (
            let h =
              sym e ∙ ap (λ k. is_some (get bytes_discrete k c.seen)) q ∙ ap is_some r.found in
            cc h))
          ∙ room.found;
      newer =
          (let h = count_since-insert-le t other now (make_room c).seen in
            omega (arith, h, room.newer));
      distinct = insert-IsDistinct bytes_discrete other now (make_room c).seen room.distinct;
    }

abbrev SameBounds : ReplayCache → ReplayCache → Type 0
SameBounds d c = (d.cap ≡ c.cap) × (d.ttl ≡ c.ttl)

evict-SameBounds :
    (b : Bool) (o : Option (List ℕ × ℕ)) (c : ReplayCache)
    → SameBounds (if b then evict o c else c) c
unfolding evict
evict-SameBounds true none c = (refl, refl)
evict-SameBounds true (some e) c = (refl, refl)
evict-SameBounds false o c = (refl, refl)

settle-SameBounds :
    (b : Bool) (key : List ℕ) (now : ℕ) (c : ReplayCache) → SameBounds (settle b key now c).0 c
unfolding settle record_packet make_room
settle-SameBounds true key now c = (refl, refl)
settle-SameBounds false key now c = evict-SameBounds (leb c.cap (length c.seen)) (oldest c.seen) c

make_room-fresh :
    (t : ℕ) (c : ReplayCache)
    → 1 ≤ c.cap
    → IsDistinct bytes_discrete c.seen
    → count_since t c.seen ≤ 0
    → (count_since t (make_room c).seen ≤ 0) × IsDistinct bytes_discrete (make_room c).seen
make_room-fresh t c p d z = elim (make_room-cases c p) [
  | inl (e, h) ↦
      subst (λ m. (count_since t m.seen ≤ 0) × IsDistinct bytes_discrete m.seen) (sym e) (z, d)
  | inr (e, o, q, h) ↦
      subst (λ m. (count_since t m.seen ≤ 0) × IsDistinct bytes_discrete m.seen) (sym q)
        (
          (let h' = count_since-remove-le t e.0 c.seen in omega (arith, h', z)),
          remove-IsDistinct bytes_discrete e.0 c.seen d,
        )
]

settle-recorded :
    (b : Bool) (key : List ℕ) (t : ℕ) (c : ReplayCache)
    → 1 ≤ c.cap
    → IsDistinct bytes_discrete c.seen
    → count_since t c.seen ≤ 0
    → (settle b key t c).1 ≡ true
    → Remembers key t 1 (settle b key t c).0
unfolding settle record_packet
settle-recorded true key t c p d z h = absurd (cc h)
settle-recorded false key t c p d z h =
    let room = make_room-fresh t c p d z in
    record {
      found = get-insert_self bytes_discrete key t (make_room c).seen;
      newer =
          (let h' = count_since-insert-le t key t (make_room c).seen in omega (arith, h', room.0));
      distinct = insert-IsDistinct bytes_discrete key t (make_room c).seen room.1;
    }

module _ (hash : List ℕ → List ℕ) where
  -- Packets offered one after another, each with the time of its arrival.
  unfoldable pub accept_all : List (List ℕ × ℕ) → ReplayCache → ReplayCache
  accept_all [] c = c
  accept_all ((inner, now) ∷ rest) c = accept_all rest (accept hash inner now c).0

  accept-Remembers :
      (key : List ℕ) (t n : ℕ) (other : List ℕ) (now : ℕ) (c : ReplayCache)
      → now - t < c.ttl
      → n < c.cap
      → Remembers key t n c
      → Remembers key t (suc n) (accept hash other now c).0
  unfolding accept accept_key expire
  accept-Remembers key t n other now c h l r =
      settle-Remembers _ key t n (take 16 (hash other)) now (expire now c) refl l
        (expire-Remembers key t n now c h r)

  accept-SameBounds :
      (inner : List ℕ) (now : ℕ) (c : ReplayCache) → SameBounds (accept hash inner now c).0 c
  unfolding accept accept_key expire
  accept-SameBounds inner now c = settle-SameBounds _ (take 16 (hash inner)) now (expire now c)

  accept_all-Remembers :
      (key : List ℕ) (t n : ℕ) (others : List (List ℕ × ℕ)) (c : ReplayCache)
      → All (λ o. o.1 - t < c.ttl) others
      → n + length others ≤ c.cap
      → Remembers key t n c
      → Remembers key t (n + length others) (accept_all others c)
        × SameBounds (accept_all others c) c
  unfolding accept_all
  accept_all-Remembers key t n [] c h l r = (
    record { found = r.found; newer = omega (arith, r.newer); distinct = r.distinct },
    (refl, refl),
  )
  accept_all-Remembers key t n ((inner, now) ∷ rest) c h l r =
      let same = accept-SameBounds inner now c in
      let step = accept-Remembers key t n inner now c h.0 (omega (arith, l)) r in
      let ih =
        accept_all-Remembers key t (suc n) rest (accept hash inner now c).0
          (subst (λ w. All (λ o. o.1 - t < w) rest) (sym same.1) h.1)
          (subst (λ w. suc n + length rest ≤ w) (sym same.0) (omega (arith, l))) step in
      (
        record {
          found = ih.0.found;
          newer = (let h' = ih.0.newer in omega (arith, h'));
          distinct = ih.0.distinct;
        },
        (ih.1.0 ∙ same.0, ih.1.1 ∙ same.1),
      )

  -- On a cache with distinct keys, a packet that is accepted at `t`, when every entry is older,
  -- is refused at every later offer within the TTL, whatever packets were offered between, if
  -- they arrived within the TTL and were fewer than the capacity.
  pub accept-replayed :
      (inner : List ℕ) (t now : ℕ) (others : List (List ℕ × ℕ)) (c : ReplayCache)
      → IsDistinct bytes_discrete c.seen
      → All (λ e. e.1 < t) c.seen
      → (accept hash inner t c).1 ≡ true
      → length others < c.cap
      → All (λ o. o.1 - t < c.ttl) others
      → now - t < c.ttl
      → (accept hash inner now (accept_all others (accept hash inner t c).0)).1 ≡ false
  unfolding accept accept_key expire
  accept-replayed inner t now others c d a h l o w =
      let key : List ℕ = take 16 (hash inner) in
      let first : ReplayCache = (accept hash inner t c).0 in
      let fresh : count_since t (expire t c).seen ≤ 0 =
        (let e = count_since-eq_zero t c.seen a in
          let r = count_since-retain-le t t c.ttl c.seen in omega (arith, e, r)) in
      let kept =
        settle-recorded _ key t (expire t c) (omega (arith, l))
          (retain_live-IsDistinct t c.ttl c.seen d) fresh h in
      let same : SameBounds first c = accept-SameBounds inner t c in
      let all =
        accept_all-Remembers key t 1 others first
          (subst (λ w. All (λ o. o.1 - t < w) others) (sym same.1) o)
          (subst (λ w. 1 + length others ≤ w) (sym same.0) (omega (arith, l))) kept in
      let last : ReplayCache = accept_all others first in
      accept_lem hash inner now last all.0.distinct
      ∙ ap (λ o. not (is_some (still_live now last.ttl o))) all.0.found
      ∙ ap (λ v. not (is_some (still_live now v (some t)))) (all.1.1 ∙ same.1)
      ∙ ap (λ b. not (is_some (if b then some t else none))) {y = true} (ground (arith, w))
