-- ===== src/Common/Action.antt =====
-- A method of a mutable object: its new state and its result. What was written before an error stays
-- written.
pub mod Keeps
pub mod Loop
use Prim.Native.Nat.{ℕ, zero, suc}
use mathlib.Core.Path.{◌≡◌, refl}
use mathlib.Core.Bool.{Bool, true, false}
use mathlib.Core.Option.{Option, none, some}
use ppo_se_protocol.Common.Outcome.{Result, ok, err}

abbrev pub Action : Type 0 → Type 0 → Type 0 → Type 0
Action S E A = S → S × Result E A

-- The continuation of a method, on the outcome of its first part.
abbrev pub and_then : {S E A B : Type 0} → S × Result E A → (A → Action S E B) → S × Result E B
and_then (s, ok a) f = f a s
and_then (s, err e) f = (s, err e)

infixl 5 ◌>>=◌ ◌>>◌
abbrev pub ◌>>=◌ : {S E A B : Type 0} → Action S E A → (A → Action S E B) → Action S E B
(m >>= f) s = and_then (m s) f

abbrev pub ◌>>◌ : {S E A B : Type 0} → Action S E A → Action S E B → Action S E B
m >> k = m >>= λ _. k

module _ {S E : Type 0} where
  abbrev pub pure : {A : Type 0} → A → Action S E A
  pure a s = (s, ok a)

  abbrev pub raise : {A : Type 0} → E → Action S E A
  raise e s = (s, err e)

  abbrev pub gets : {A : Type 0} → (S → A) → Action S E A
  gets f s = (s, ok (f s))

  abbrev pub modify : (S → S) → Action S E (Unit {0})
  modify f s = (f s, ok tt)

  -- `if c { return Err(e); }`
  abbrev pub raise_if : Bool → E → Action S E (Unit {0})
  raise_if true e = raise e
  raise_if false e = pure tt

  -- `if a != b { return Err(e); }`
  abbrev pub require : {P : Type 0} → Dec P → E → Action S E (Unit {0})
  require (yes _) e = pure tt
  require (no _) e = raise e

  -- `?` on a result, with the conversion of its error.
  abbrev pub lift : {F A : Type 0} → (F → E) → Result F A → Action S E A
  lift f (ok a) = pure a
  lift f (err e) = raise (f e)

  -- `ok_or(e)?`
  abbrev pub or_raise : {A : Type 0} → Option A → E → Action S E A
  or_raise none e = raise e
  or_raise (some a) e = pure a

  -- A loop whose body says whether it is done. `none` means that the fuel was used up.
  unfoldable pub iterate : {A : Type 0} → ℕ → Action S E (Option A) → S → Option (S × Result E A)
  iterate zero body s = none
  iterate (suc fuel) body s =
      let (s', r) = body s in
      elim r [
        | err e ↦ some (s', err e)
        | ok done ↦ elim done [ none ↦ iterate fuel body s' | some a ↦ some (s', ok a) ]
      ]

  -- A method of a part of the object, with the conversion of its error.
  abbrev pub put_back :
      {T F A : Type 0} → (S → T → S) → (F → E) → S → T × Result F A → S × Result E A
  put_back set f s (t, ok a) = (set s t, ok a)
  put_back set f s (t, err e) = (set s t, err (f e))

  abbrev pub on : {T F A : Type 0} → (S → T) → (S → T → S) → (F → E) → Action T F A → Action S E A
  on get set f m s = put_back set f s (m (get s))

-- A method that succeeds has a first part that does.
pub and_then-ok :
    {S E A B : Type 0} (x : S × Result E A) (f : A → Action S E B) {b : B}
    → (and_then x f).1 ≡ ok b
    → (a : A) × (x.1 ≡ ok a) × ((f a x.0).1 ≡ ok b) × ((and_then x f).0 ≡ (f a x.0).0)
and_then-ok (s, ok a) f h = (a, refl, h, refl)
and_then-ok (s, err e) f h = absurd (cc h)

pub put_back-state :
    {S T E F A : Type 0} (set : S → T → S) (f : F → E) (s : S) (x : T × Result F A)
    → (put_back set f s x).0 ≡ set s x.0
put_back-state set f s (t, ok a) = refl
put_back-state set f s (t, err e) = refl
