-- ===== src/Admission/Depth/Scanned.antt =====
-- What one round of the search visits.
use ppo_se_protocol.Common.{
  ℕ, ◌≡◌, ◌≢◌, ◌⊎◌, if_pos, if_neg, inl, inr, refl, sym, ap, subst, ◌∙◌, Bool, true, false, List,
  [], ◌∷◌, ◌++◌, Result, ok, err, if◌then◌else◌,
}
use ppo_se_protocol.Common.Table.{get, bytes_discrete}
use ppo_se_protocol.Admission.{
  Signatures, Invitation, TrustStore, AdmissionError, Scan, found, more, subjects_or_default,
  contains_key, verify, scan_subject, scan_invites, scan_frontier,
}
use ppo_se_protocol.Admission.Depth.{In, Names, Vouches}

pub contains_key-self : (k : List ℕ) (ks : List (List ℕ)) → In (k ∷ ks) k
unfolding contains_key
contains_key-self k ks = if_pos (bytes_discrete k k) refl true (contains_key ks k)

pub In-cons : (j k : List ℕ) (ks : List (List ℕ)) → In ks k → In (j ∷ ks) k
unfolding contains_key
In-cons j k ks h = elim (bytes_discrete j k) [
  | yes e ↦ if_pos (bytes_discrete j k) e true (contains_key ks k)
  | no ne ↦ if_neg (bytes_discrete j k) ne true (contains_key ks k) ∙ h
]

pub In-cons-cases : (j k : List ℕ) (ks : List (List ℕ)) → In (j ∷ ks) k → (j ≡ k) ⊎ In ks k
unfolding contains_key
In-cons-cases j k ks h = elim (bytes_discrete j k) [
  | yes e ↦ inl e
  | no ne ↦ inr (sym (if_neg (bytes_discrete j k) ne true (contains_key ks k)) ∙ h)
]

contains_key-ne :
    (j k : List ℕ) (ks : List (List ℕ)) → j ≢ k → contains_key (j ∷ ks) k ≡ contains_key ks k
unfolding contains_key
contains_key-ne j k ks ne = if_neg (bytes_discrete j k) ne true (contains_key ks k)

In-append : (k : List ℕ) (ks js : List (List ℕ)) → In ks k → In (ks ++ js) k
unfolding contains_key
In-append k [] js h = absurd (cc h)
In-append k (j ∷ ks) js h = elim (In-cons-cases j k ks h) [
  | inl e ↦ subst (λ x. In (j ∷ (ks ++ js)) x) e (contains_key-self j (ks ++ js))
  | inr i ↦ In-cons j k (ks ++ js) (In-append k ks js i)
]

In-append_last : (k : List ℕ) (ks : List (List ℕ)) → In (ks ++ (k ∷ [])) k
In-append_last k [] = contains_key-self k []
In-append_last k (j ∷ ks) = In-cons j k (ks ++ (k ∷ [])) (In-append_last k ks)

In-append-cases : (k j : List ℕ) (ks : List (List ℕ)) → In (ks ++ (j ∷ [])) k → In ks k ⊎ (j ≡ k)
unfolding contains_key
In-append-cases k j [] h = elim (In-cons-cases j k [] h) [ inl e ↦ inr e | inr i ↦ absurd (cc i) ]
In-append-cases k j (i ∷ ks) h = elim (In-cons-cases i k (ks ++ (j ∷ [])) h) [
  | inl e ↦ inl (subst (λ x. In (i ∷ ks) x) e (contains_key-self i ks))
  | inr r ↦ elim (In-append-cases k j ks r) [ inl old ↦ inl (In-cons i k ks old) | inr e ↦ inr e ]
]

pub nothing_in : (x : List ℕ) → In [] x → ⊥
unfolding contains_key
nothing_in x h = cc h

module _ (subject : List ℕ) where
  -- What a scan that does not find the subject leaves, if `T` holds of the keys that it met.
  pub record Visits (T : List ℕ → Type 0) (visited next visited' next' : List (List ℕ))
      : Type 0 where
    pub covers : (x : List ℕ) → T x → In visited' x
    pub avoids : contains_key visited subject ≡ false → contains_key visited' subject ≡ false
    pub grows : (x : List ℕ) → In visited x → In visited' x
    pub keeps : (x : List ℕ) → In next x → In next' x
    pub splits : (x : List ℕ) → In visited' x → In visited x ⊎ In next' x
    pub origin : (x : List ℕ) → In next' x → In next x ⊎ T x

  abbrev pub Scans : (List ℕ → Type 0) → List (List ℕ) → List (List ℕ) → Scan → Type 0
  Scans T visited next found = T subject
  Scans T visited next (more visited' next') = Visits T visited next visited' next'

  nothing-Scans :
      (T : List ℕ → Type 0) (visited next : List (List ℕ))
      → ((x : List ℕ) → T x → ⊥)
      → Scans T visited next (more visited next)
  nothing-Scans T visited next no_key = record {
    covers = λ x t. absurd (no_key x t);
    avoids = λ h. h;
    grows = λ x h. h;
    keeps = λ x h. h;
    splits = λ x h. inl h;
    origin = λ x h. inl h;
  }

  Visits-trans :
      (T U W : List ℕ → Type 0) (visited next v2 n2 v3 n3 : List (List ℕ))
      → ((x : List ℕ) → W x → T x ⊎ U x)
      → ((x : List ℕ) → T x ⊎ U x → W x)
      → Visits T visited next v2 n2
      → Visits U v2 n2 v3 n3
      → Visits W visited next v3 n3
  Visits-trans T U W visited next v2 n2 v3 n3 apart join a b = record {
    covers = λ x w. elim (apart x w) [ inl t ↦ b.grows x (a.covers x t) | inr u ↦ b.covers x u ];
    avoids = λ h. b.avoids (a.avoids h);
    grows = λ x h. b.grows x (a.grows x h);
    keeps = λ x h. b.keeps x (a.keeps x h);
    splits = λ x h. elim (b.splits x h) [
      | inl old ↦ elim (a.splits x old) [ inl v ↦ inl v | inr n ↦ inr (b.keeps x n) ]
      | inr n ↦ inr n
    ];
    origin = λ x h. elim (b.origin x h) [
      | inl old ↦ elim (a.origin x old) [ inl n ↦ inl n | inr t ↦ inr (join x (inl t)) ]
      | inr u ↦ inr (join x (inr u))
    ];
  }

  Scans-trans :
      (T U W : List ℕ → Type 0) (visited next v2 n2 : List (List ℕ)) (r : Scan)
      → ((x : List ℕ) → W x → T x ⊎ U x)
      → ((x : List ℕ) → T x ⊎ U x → W x)
      → Visits T visited next v2 n2
      → Scans U v2 n2 r
      → Scans W visited next r
  Scans-trans T U W visited next v2 n2 found apart join a b = join subject (inr b)
  Scans-trans T U W visited next v2 n2 (more v3 n3) apart join a b =
      Visits-trans T U W visited next v2 n2 v3 n3 apart join a b

  -- A scan, and another one if the first does not find the subject.
  then-Scans :
      (T U W : List ℕ → Type 0) (visited next : List (List ℕ)) (r : Scan)
      (k : List (List ℕ) → List (List ℕ) → Scan)
      → ((x : List ℕ) → W x → T x ⊎ U x)
      → ((x : List ℕ) → T x ⊎ U x → W x)
      → Scans T visited next r
      → ((v2 n2 : List (List ℕ)) → Scans U v2 n2 (k v2 n2))
      → Scans W visited next (elim r [ found ↦ found | more v2 n2 ↦ k v2 n2 ])
  then-Scans T U W visited next found k apart join a b = join subject (inl a)
  then-Scans T U W visited next (more v2 n2) k apart join a b =
      Scans-trans T U W visited next v2 n2 (k v2 n2) apart join a (b v2 n2)

  Scans-map :
      (T U : List ℕ → Type 0) (visited next : List (List ℕ)) (r : Scan)
      → ((x : List ℕ) → T x → U x)
      → ((x : List ℕ) → U x → T x)
      → Scans T visited next r
      → Scans U visited next r
  Scans-map T U visited next found f g a = f subject a
  Scans-map T U visited next (more v2 n2) f g a = record {
    covers = λ x u. a.covers x (g x u);
    avoids = a.avoids;
    grows = a.grows;
    keeps = a.keeps;
    splits = a.splits;
    origin = λ x h. elim (a.origin x h) [ inl old ↦ inl old | inr t ↦ inr (f x t) ];
  }

  module _ (sigs : Signatures) (now : ℕ) where
    visit-Scans :
        (b : Bool) (s : List ℕ) (visited next : List (List ℕ))
        → s ≢ subject
        → contains_key visited s ≡ b
        → Scans
            (λ x. s ≡ x)
            visited
            next
            (if b then more visited next else more (s ∷ visited) (next ++ (s ∷ [])))
    visit-Scans true s visited next ne h = record {
      covers = λ x e. subst (In visited) e h;
      avoids = λ g. g;
      grows = λ x g. g;
      keeps = λ x g. g;
      splits = λ x g. inl g;
      origin = λ x g. inl g;
    }
    visit-Scans false s visited next ne h = record {
      covers = λ x e. subst (In (s ∷ visited)) e (contains_key-self s visited);
      avoids = λ g. contains_key-ne s subject visited ne ∙ g;
      grows = λ x g. In-cons s x visited g;
      keeps = λ x g. In-append x next (s ∷ []) g;
      splits = λ x g. elim (In-cons-cases s x visited g) [
        | inl e ↦ inr (subst (In (next ++ (s ∷ []))) e (In-append_last s next))
        | inr old ↦ inl old
      ];
      origin = λ x g. In-append-cases x s next g;
    }

    scan_subject-Scans :
        (s : List ℕ) (visited next : List (List ℕ))
        → Scans (λ x. s ≡ x) visited next (scan_subject sigs subject s visited next)
    unfolding scan_subject
    scan_subject-Scans s visited next = elim (bytes_discrete s subject) [
      | yes e ↦
          subst (Scans (λ x. s ≡ x) visited next) (sym (if_pos (bytes_discrete s subject) e _ _)) e
      | no ne ↦
          subst (Scans (λ x. s ≡ x) visited next) (sym (if_neg (bytes_discrete s subject) ne _ _))
            (visit-Scans (contains_key visited s) s visited next ne refl)
    ]

    -- The names in a list are those of the first, if it is valid now, and of the rest.
    first_or_rest :
        (k : List ℕ) (v : Invitation) (m : List (List ℕ × Invitation)) (x : List ℕ)
        → Names sigs now ((k, v) ∷ m) x
        → (v.subject ≡ x) ⊎ Names sigs now m x
    first_or_rest k v m x (e, inl q, ok_now, named) = inl (ap (λ p. p.1.subject) q ∙ named)
    first_or_rest k v m x (e, inr i, ok_now, named) = inr (e, i, ok_now, named)

    later :
        (k : List ℕ) (v : Invitation) (m : List (List ℕ × Invitation)) (x : List ℕ)
        → Names sigs now m x
        → Names sigs now ((k, v) ∷ m) x
    later k v m x (e, i, ok_now, named) = (e, inr i, ok_now, named)

    not_first :
        (e : AdmissionError) (k : List ℕ) (v : Invitation) (m : List (List ℕ × Invitation))
        (x : List ℕ)
        → verify sigs v now ≡ err e
        → Names sigs now ((k, v) ∷ m) x
        → Names sigs now m x
    not_first e k v m x h (f, inl q, ok_now, named) =
        absurd (let g = sym h ∙ ap (λ p. verify sigs p.1 now) q ∙ ok_now in cc g)
    not_first e k v m x h (f, inr i, ok_now, named) = (f, i, ok_now, named)

    invites_step :
        (r : Result AdmissionError (Unit {0})) (k : List ℕ) (v : Invitation)
        (m : List (List ℕ × Invitation))
        → verify sigs v now ≡ r
        → ((visited next : List (List ℕ))
            → Scans (Names sigs now m) visited next (scan_invites sigs subject now m visited next))
        → (visited next : List (List ℕ))
        → Scans (Names sigs now ((k, v) ∷ m)) visited next (elim r [
          | err e ↦ scan_invites sigs subject now m visited next
          | ok u ↦ elim (scan_subject sigs subject v.subject visited next) [
            | found ↦ found
            | more visited' next' ↦ scan_invites sigs subject now m visited' next'
          ]
        ])
    invites_step (err e) k v m h rest visited next =
        Scans-map (Names sigs now m) (Names sigs now ((k, v) ∷ m)) visited next
          (scan_invites sigs subject now m visited next) (λ x t. later k v m x t)
          (λ x t. not_first e k v m x h t) (rest visited next)
    invites_step (ok u) k v m h rest visited next =
        then-Scans (λ x. v.subject ≡ x) (Names sigs now m) (Names sigs now ((k, v) ∷ m)) visited
          next (scan_subject sigs subject v.subject visited next)
          (λ v2 n2. scan_invites sigs subject now m v2 n2) (λ x w. first_or_rest k v m x w)
          (λ x t. elim t [ inl e ↦ ((k, v), inl refl, h, e) | inr r ↦ later k v m x r ])
          (scan_subject-Scans v.subject visited next) rest

    scan_invites-Scans :
        (m : List (List ℕ × Invitation)) (visited next : List (List ℕ))
        → Scans (Names sigs now m) visited next (scan_invites sigs subject now m visited next)
    unfolding scan_invites
    scan_invites-Scans [] visited next = nothing-Scans (Names sigs now []) visited next (λ x t. t.1)
    scan_invites-Scans ((k, v) ∷ m) visited next =
        invites_step (verify sigs v now) k v m refl (scan_invites-Scans m) visited next

    -- What one of the issuers vouches for.
    abbrev pub From : TrustStore → List (List ℕ) → List ℕ → Type 0
    From s frontier x = (issuer : List ℕ) × In frontier issuer × Vouches sigs now s issuer x

    From-cases :
        (s : TrustStore) (i : List ℕ) (frontier : List (List ℕ)) (x : List ℕ)
        → From s (i ∷ frontier) x
        → Vouches sigs now s i x ⊎ From s frontier x
    From-cases s i frontier x (j, h, w) = elim (In-cons-cases i j frontier h) [
      | inl e ↦ inl (subst (λ y. Vouches sigs now s y x) (sym e) w)
      | inr old ↦ inr (j, old, w)
    ]

    -- A round of the search meets what the frontier vouches for.
    pub scan_frontier-Scans :
        (s : TrustStore) (frontier visited next : List (List ℕ))
        → Scans
            (From s frontier)
            visited
            next
            (scan_frontier sigs s subject now frontier visited next)
    unfolding scan_frontier
    scan_frontier-Scans s [] visited next =
        nothing-Scans (From s []) visited next (λ x t. nothing_in t.0 t.1)
    scan_frontier-Scans s (i ∷ frontier) visited next =
        then-Scans (Vouches sigs now s i) (From s frontier) (From s (i ∷ frontier)) visited next
          (scan_invites sigs subject now (subjects_or_default (get bytes_discrete i s.edges))
            visited next)
          (λ v2 n2. scan_frontier sigs s subject now frontier v2 n2)
          (λ x w. From-cases s i frontier x w)
          (λ x t. elim t [
            | inl w ↦ (i, contains_key-self i frontier, w)
            | inr (j, h, w) ↦ (j, In-cons i j frontier h, w)
          ])
          (scan_invites-Scans (subjects_or_default (get bytes_discrete i s.edges)) visited next)
          (λ v2 n2. scan_frontier-Scans s frontier v2 n2)
