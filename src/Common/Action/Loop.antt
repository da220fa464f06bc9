-- ===== src/Common/Action/Loop.antt =====
-- Loops on fuel: the ways in which a pass can go, and when the fuel is enough.
use ppo_se_protocol.Common.{
  ℕ, zero, suc, ◌+◌, ◌<◌, ◌≤◌, ◌≡◌, refl, ap, ◌∙◌, Option, none, some, Result, ok, err, arith,
}
use ppo_se_protocol.Common.Action.{Action, iterate}

module _ {S E A : Type 0} (body : Action S E (Option A)) where
  -- What the loop makes of the result of a pass that ended in `t`.
  abbrev resume : ℕ → S → Result E (Option A) → Option (S × Result E A)
  resume fuel t r = elim r [
    | err e ↦ some (t, err e)
    | ok done ↦ elim done [ none ↦ iterate fuel body t | some a ↦ some (t, ok a) ]
  ]

  pub iterate_err :
      (fuel : ℕ) (s : S) (e : E)
      → (body s).1 ≡ err e
      → iterate (suc fuel) body s ≡ some ((body s).0, err e)
  unfolding iterate
  iterate_err fuel s e h = ap (resume fuel (body s).0) h

  pub iterate_done :
      (fuel : ℕ) (s : S) (a : A)
      → (body s).1 ≡ ok (some a)
      → iterate (suc fuel) body s ≡ some ((body s).0, ok a)
  unfolding iterate
  iterate_done fuel s a h = ap (resume fuel (body s).0) h

  pub iterate_on :
      (fuel : ℕ) (s : S)
      → (body s).1 ≡ ok none
      → iterate (suc fuel) body s ≡ iterate fuel body (body s).0
  unfolding iterate
  iterate_on fuel s h = ap (resume fuel (body s).0) h

  -- The loop ends if each pass that goes on moves a position up, and never beyond a bound.
  module _ (position : S → ℕ) (last : ℕ)
      (moves : (s : S)
        → (body s).1 ≡ ok none
        → (position s < position (body s).0) × (position (body s).0 ≤ last)) where
    returns_by :
        (fuel : ℕ) (s : S) (r : Result E (Option A))
        → last ≤ fuel + position s
        → (body s).1 ≡ r
        → (z : S × Result E A) × (iterate (suc fuel) body s ≡ some z)
    returns_by fuel s (err e) f h = (((body s).0, err e), iterate_err fuel s e h)
    returns_by fuel s (ok (some a)) f h = (((body s).0, ok a), iterate_done fuel s a h)
    returns_by zero s (ok none) f h =
        absurd (let (up, below) = moves s h in omega (arith, f, up, below))
    returns_by (suc fuel) s (ok none) f h =
        let (up, below) = moves s h in
        let (z, e) =
          returns_by fuel (body s).0 (body (body s).0).1 (omega (arith, f, up, below)) refl in
        (z, iterate_on (suc fuel) s h ∙ e)

    pub iterate-returns :
        (fuel : ℕ) (s : S)
        → last ≤ fuel + position s
        → (z : S × Result E A) × (iterate (suc fuel) body s ≡ some z)
    iterate-returns fuel s f = returns_by fuel s (body s).1 f refl

  last_by :
      (fuel : ℕ) (s t : S) (a : A) (r : Result E (Option A))
      → (body s).1 ≡ r
      → resume fuel (body s).0 r ≡ some (t, ok a)
      → (u : S) × ((body u).0 ≡ t) × ((body u).1 ≡ ok (some a))
  unfolding iterate
  last_by fuel s t a (err e) h g = absurd (cc g)
  last_by fuel s t a (ok (some b)) h g = (s, cc g, h ∙ cc g)
  last_by zero s t a (ok none) h g = absurd (cc g)
  last_by (suc fuel) s t a (ok none) h g = last_by fuel (body s).0 t a (body (body s).0).1 refl g

  -- A loop that is done has had a last pass, which ended in the state of the loop.
  pub iterate-last :
      (fuel : ℕ) (s t : S) (a : A)
      → iterate fuel body s ≡ some (t, ok a)
      → (u : S) × ((body u).0 ≡ t) × ((body u).1 ≡ ok (some a))
  unfolding iterate
  iterate-last zero s t a h = absurd (cc h)
  iterate-last (suc fuel) s t a h = last_by fuel s t a (body s).1 refl h
