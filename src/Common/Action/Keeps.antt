-- ===== src/Common/Action/Keeps.antt =====
-- Methods whose steps all relate the object before to the object after, by a relation that holds
-- of no step and of two steps after one another.
use ppo_se_protocol.Common.{◌≡◌, refl, ◌∙◌, Bool, true, false, Result, ok, err}
use ppo_se_protocol.Common.Action.{Action, and_then, ◌>>=◌, raise_if, require, lift, put_back}

pub record Preorder (S : Type 0) : Type 1 where
  pub rel : S → S → Type 0
  pub none : (s : S) → rel s s
  pub both : (s t u : S) → rel s t → rel t u → rel s u

-- A view of the object that stays as it is.
abbrev pub same_view : {S V : Type 0} → (S → V) → Preorder S
same_view view = record {
  rel = λ s t. view t ≡ view s;
  none = λ s. refl;
  both = λ s t u p q. q ∙ p;
}

module _ {S : Type 0} (r : Preorder S) where
  abbrev pub Keeps : {E A : Type 0} → Action S E A → Type 0
  Keeps m = (s : S) → r.rel s (m s).0

  module _ {E : Type 0} where
    pub and_then-Keeps :
        {A B : Type 0} (s : S) (x : S × Result E A) (f : A → Action S E B)
        → r.rel s x.0
        → ((a : A) → Keeps (f a))
        → r.rel s (and_then x f).0
    and_then-Keeps s (t, ok a) f h g = r.both s t (f a t).0 h (g a t)
    and_then-Keeps s (t, err e) f h g = h

    pub bind-Keeps :
        {A B : Type 0} (m : Action S E A) (f : A → Action S E B)
        → Keeps m
        → ((a : A) → Keeps (f a))
        → Keeps (m >>= f)
    bind-Keeps m f hm hf s = and_then-Keeps s (m s) f (hm s) hf

    pub lift-Keeps : {F A : Type 0} (f : F → E) (x : Result F A) → Keeps (lift {S = S} f x)
    lift-Keeps f (ok a) s = r.none s
    lift-Keeps f (err e) s = r.none s

    pub require-Keeps : {P : Type 0} (d : Dec P) (e : E) → Keeps (require {S = S} d e)
    require-Keeps (yes _) e s = r.none s
    require-Keeps (no _) e s = r.none s

    pub raise_if-Keeps : (b : Bool) (e : E) → Keeps (raise_if {S = S} b e)
    raise_if-Keeps true e s = r.none s
    raise_if-Keeps false e s = r.none s

    pub put_back-Keeps :
        {T F A : Type 0} (set : S → T → S) (f : F → E) (s : S) (x : T × Result F A)
        → r.rel s (set s x.0)
        → r.rel s (put_back set f s x).0
    put_back-Keeps set f s (t, ok a) h = h
    put_back-Keeps set f s (t, err e) h = h
