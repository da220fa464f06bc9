-- ===== src/Replay/Laws.antt =====
-- What the replay cache accepts, and its bound.
use ppo_se_protocol.Common.{
  ℕ, ◌-◌, ◌≤◌, ◌<◌, ◌≡◌, refl, sym, ap, ◌∙◌, Bool, true, false, not, Option, none, some, List, [],
  ◌∷◌, ltb, leb, if◌then◌else◌, if_pos, if_neg, subst, length, take, All, arith, ◌⊎◌, Bool-cases,
  Option-cases, inl, inr,
}
use ppo_se_protocol.Common.Table.{get, remove, bytes_discrete}
use ppo_se_protocol.Common.Distinct.{
  IsDistinct, remove-IsDistinct, insert-IsDistinct, length-insert-le, length-remove_lt,
}
use ppo_se_protocol.Replay.{
  ReplayCache, evict, is_some, record_packet, retain_live, expire, older, oldest, make_room,
  accept_key, accept, settle,
}

pub record IsValid (c : ReplayCache) : Type 0 where
  pub distinct : IsDistinct bytes_discrete c.seen
  pub bounded : length c.seen ≤ c.cap

-- An entry survives `expire` exactly while its time is within the TTL.
abbrev pub still_live : ℕ → ℕ → Option ℕ → Option ℕ
still_live now ttl none = none
still_live now ttl (some t) = if ltb (now - t) ttl then some t else none

get-retain_none :
    (now ttl : ℕ) (k : List ℕ) (m : List (List ℕ × ℕ))
    → get bytes_discrete k m ≡ none
    → get bytes_discrete k (retain_live now ttl m) ≡ none
unfolding get retain_live
get-retain_none now ttl k [] h = refl
get-retain_none now ttl k ((j, t) ∷ m) h = ground (arith, get-retain_none now ttl k m)

pub get-retain_live :
    (now ttl : ℕ) (k : List ℕ) (m : List (List ℕ × ℕ))
    → IsDistinct bytes_discrete m
    → get bytes_discrete k (retain_live now ttl m) ≡ still_live now ttl (get bytes_discrete k m)
unfolding get retain_live
get-retain_live now ttl k [] h = refl
get-retain_live now ttl k ((j, t) ∷ m) h = ground (
  arith,
  get-retain_live now ttl k m h.1,
  get-retain_none now ttl k m,
  ap (λ x. get bytes_discrete x m) {x = j} {y = k},
)

pub retain_live-IsDistinct :
    (now ttl : ℕ) (m : List (List ℕ × ℕ))
    → IsDistinct bytes_discrete m
    → IsDistinct bytes_discrete (retain_live now ttl m)
unfolding retain_live
retain_live-IsDistinct now ttl [] h = tt
retain_live-IsDistinct now ttl ((j, t) ∷ m) h =
    ground (arith, retain_live-IsDistinct now ttl m h.1, get-retain_none now ttl j m)

pub length-retain_live-le :
    (now ttl : ℕ) (m : List (List ℕ × ℕ)) → length (retain_live now ttl m) ≤ length m
unfolding retain_live
length-retain_live-le now ttl [] = omega arith
length-retain_live-le now ttl ((j, t) ∷ m) = ground (arith, length-retain_live-le now ttl m)

weaken-All : (t u : ℕ) (m : List (List ℕ × ℕ)) → t ≤ u → All (λ e. u ≤ e.1) m → All (λ e. t ≤ e.1) m
weaken-All t u [] h a = tt
weaken-All t u (e ∷ m) h a = (omega (arith, a.0, h), weaken-All t u m h a.1)

-- The entry that `oldest` finds is in the map, and no entry is older.
choose-least :
    (e o : List ℕ × ℕ) (m : List (List ℕ × ℕ))
    → All (λ f. o.1 ≤ f.1) m
    → All (λ f. (if leb e.1 o.1 then e else o).1 ≤ f.1) (e ∷ m)
choose-least e o m h = elim (Bool-cases (leb e.1 o.1)) [
  | inl t ↦
      subst (λ b. All (λ f. (if b then e else o).1 ≤ f.1) (e ∷ m)) (sym t)
        (omega arith, weaken-All e.1 o.1 m (ground (arith, t)) h)
  | inr f ↦
      subst (λ b. All (λ f. (if b then e else o).1 ≤ f.1) (e ∷ m)) (sym f) (ground (arith, f), h)
]

older-least :
    (e : List ℕ × ℕ) (m : List (List ℕ × ℕ)) → All (λ f. (older e (oldest m)).1 ≤ f.1) (e ∷ m)
unfolding older oldest
older-least e [] = (omega arith, tt)
older-least e (f ∷ m) = choose-least e (older f (oldest m)) (f ∷ m) (older-least f m)

get-skip :
    (e o : List ℕ × ℕ) (m : List (List ℕ × ℕ))
    → get bytes_discrete e.0 m ≡ none
    → get bytes_discrete o.0 m ≡ some o.1
    → get bytes_discrete o.0 (e ∷ m) ≡ some o.1
unfolding get
get-skip e o m n h =
    if_neg (bytes_discrete e.0 o.0)
      (λ q. absurd (let n' = subst (λ k. get bytes_discrete k m ≡ none) q n in cc (n', h))) _ _
    ∙ h

choose-get :
    (e o : List ℕ × ℕ) (m : List (List ℕ × ℕ))
    → get bytes_discrete e.0 m ≡ none
    → get bytes_discrete o.0 m ≡ some o.1
    → get bytes_discrete (if leb e.1 o.1 then e else o).0 (e ∷ m)
      ≡ some (if leb e.1 o.1 then e else o).1
unfolding get
choose-get e o m n h =
    elim (leb e.1 o.1)
      as (λ b. get bytes_discrete (if b then e else o).0 (e ∷ m) ≡ some (if b then e else o).1) [
        | true ↦ if_pos (bytes_discrete e.0 e.0) refl _ _
        | false ↦ get-skip e o m n h
      ]

older-get :
    (e : List ℕ × ℕ) (m : List (List ℕ × ℕ))
    → IsDistinct bytes_discrete (e ∷ m)
    → get bytes_discrete (older e (oldest m)).0 (e ∷ m) ≡ some (older e (oldest m)).1
unfolding older oldest get
older-get e [] d = if_pos (bytes_discrete e.0 e.0) refl _ _
older-get e (f ∷ m) d = choose-get e (older f (oldest m)) (f ∷ m) d.0 (older-get f m d.1)

oldest-eq-none : (m : List (List ℕ × ℕ)) → oldest m ≡ none → m ≡ []
unfolding oldest
oldest-eq-none [] h = refl
oldest-eq-none (e ∷ m) h = absurd (cc h)

some-inj : {x y : List ℕ × ℕ} → some x ≡ some y → x ≡ y
some-inj h = cc h

pub oldest-least :
    (m : List (List ℕ × ℕ)) (e : List ℕ × ℕ) → oldest m ≡ some e → All (λ f. e.1 ≤ f.1) m
unfolding oldest
oldest-least [] e h = absurd (cc)
oldest-least (f ∷ m) e h = subst (λ x. All (λ g. x.1 ≤ g.1) (f ∷ m)) (some-inj h) (older-least f m)

pub get-oldest :
    (m : List (List ℕ × ℕ)) (e : List ℕ × ℕ)
    → IsDistinct bytes_discrete m
    → oldest m ≡ some e
    → get bytes_discrete e.0 m ≡ some e.1
unfolding oldest
get-oldest [] e d h = absurd (cc)
get-oldest (f ∷ m) e d h =
    subst (λ x. get bytes_discrete x.0 (f ∷ m) ≡ some x.1) (some-inj h) (older-get f m d)

-- `make_room` evicts nothing while there is room, and else the oldest entry.
pub make_room-cases :
    (c : ReplayCache)
    → 1 ≤ c.cap
    → ((make_room c ≡ c) × (length c.seen < c.cap))
      ⊎ ((e : List ℕ × ℕ) × (oldest c.seen ≡ some e)
          × (make_room c ≡ record c { seen = remove bytes_discrete e.0 c.seen })
          × (c.cap ≤ length c.seen))
unfolding make_room evict
make_room-cases c p = elim (Bool-cases (leb c.cap (length c.seen))) [
  | inl t ↦ elim (Option-cases (oldest c.seen)) [
    | inl n ↦ absurd (let q = ap length (oldest-eq-none c.seen n) in ground (arith, t, p, q))
    | inr (e, o) ↦ inr (
      e,
      o,
      ap (λ b. if b then evict (oldest c.seen) c else c) t ∙ ap (λ x. evict x c) o,
      ground (arith, t),
    )
  ]
  | inr f ↦ inl (ap (λ b. if b then evict (oldest c.seen) c else c) f, ground (arith, f))
]

-- `make_room` leaves room for one entry.
pub make_room-IsValid :
    (c : ReplayCache)
    → 1 ≤ c.cap
    → IsValid c
    → IsDistinct bytes_discrete (make_room c).seen
      × (length (make_room c).seen < c.cap)
      × ((make_room c).cap ≡ c.cap)
make_room-IsValid c p v = elim (make_room-cases c p) [
  | inl (e, l) ↦
      subst (λ d. IsDistinct bytes_discrete d.seen × (length d.seen < c.cap) × (d.cap ≡ c.cap))
        (sym e) (v.distinct, l, refl)
  | inr (e, o, q, l) ↦
      let short =
        length-remove_lt bytes_discrete e.0 e.1 c.seen (get-oldest c.seen e v.distinct o) in
      subst (λ d. IsDistinct bytes_discrete d.seen × (length d.seen < c.cap) × (d.cap ≡ c.cap))
        (sym q)
        (
          remove-IsDistinct bytes_discrete e.0 c.seen v.distinct,
          omega (arith, short, v.bounded),
          refl,
        )
]

settle-IsValid :
    (b : Bool) (key : List ℕ) (now : ℕ) (c : ReplayCache)
    → 1 ≤ c.cap
    → IsValid c
    → IsValid (settle b key now c).0
unfolding settle record_packet
settle-IsValid true key now c p v = v
settle-IsValid false key now c p v =
    let room = make_room-IsValid c p v in
    let more = length-insert-le bytes_discrete key now (make_room c).seen in
    record {
      distinct = insert-IsDistinct bytes_discrete key now (make_room c).seen room.0;
      bounded = omega (arith, room.1, room.2, more);
    }

settle-answer :
    (b : Bool) (key : List ℕ) (now : ℕ) (c : ReplayCache) → (settle b key now c).1 ≡ not b
unfolding settle
settle-answer true key now c = refl
settle-answer false key now c = refl

expire-IsValid : (now : ℕ) (c : ReplayCache) → IsValid c → IsValid (expire now c)
unfolding expire
expire-IsValid now c v = record {
  distinct = retain_live-IsDistinct now c.ttl c.seen v.distinct;
  bounded = (let h = length-retain_live-le now c.ttl c.seen in omega (arith, h, v.bounded));
}

module _ (hash : List ℕ → List ℕ) where
  -- With a capacity of at least one, `accept` keeps the keys distinct and the size within the
  -- capacity.
  pub accept-IsValid :
      (inner : List ℕ) (now : ℕ) (c : ReplayCache)
      → 1 ≤ c.cap
      → IsValid c
      → IsValid (accept hash inner now c).0
  unfolding accept accept_key expire
  accept-IsValid inner now c p v =
      let key : List ℕ = take 16 (hash inner) in
      settle-IsValid (is_some (get bytes_discrete key (expire now c).seen)) key now (expire now c) p
        (expire-IsValid now c v)

  -- On a cache with distinct keys, `accept` refuses a packet exactly if its hash stands in the cache
  -- with a time that is less than the TTL before now.
  pub accept_lem :
      (inner : List ℕ) (now : ℕ) (c : ReplayCache)
      → IsDistinct bytes_discrete c.seen
      → (accept hash inner now c).1
        ≡ not (is_some (still_live now c.ttl (get bytes_discrete (take 16 (hash inner)) c.seen)))
  unfolding accept accept_key expire
  accept_lem inner now c d =
      let key : List ℕ = take 16 (hash inner) in
      settle-answer (is_some (get bytes_discrete key (expire now c).seen)) key now (expire now c)
      ∙ ap (λ o. not (is_some o)) (get-retain_live now c.ttl key c.seen d)
