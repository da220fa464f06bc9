-- ===== src/Admission/Store.antt =====
-- What the store holds after invitations were ingested.
use ppo_se_protocol.Common.{
  [], ◌∷◌, Mem, All-Mem, subst, ℕ, ◌≤◌, ◌≡◌, refl, sym, ap, ◌∙◌, Bool, true, false, not, ◌&&◌,
  Option, none, some, List, Result, ok, err, Option-cases, inl, inr, leb, length, All, arith,
}
use ppo_se_protocol.Common.Table.{get, insert, bytes_discrete}
use ppo_se_protocol.Common.Distinct.{
  IsDistinct, insert-IsDistinct, length-insert-le, length-insert_known, All-get, All-insert,
}
use ppo_se_protocol.Replay.{is_some}
use ppo_se_protocol.Admission.{
  Signatures, Invitation, AdmissionError, TrustStore, subjects_or_default, admit, is_full, verify,
  ingest_verified, ingest,
}

-- `ingest` is called with the invitations at their times, one after another.
unfoldable pub ingest_all : Signatures → List (Invitation × ℕ) → TrustStore → TrustStore
unfolding ingest
ingest_all sigs [] s = s
ingest_all sigs ((v, now) ∷ rest) s = ingest_all sigs rest (ingest sigs v now s).0

module _ (sigs : Signatures) (came : Invitation → ℕ → Type 0) where
  -- The invitation stands under its own issuer and subject, and it came at a time at which it
  -- verified.
  pub record IsVouched (issuer : List ℕ) (e : List ℕ × Invitation) : Type 0 where
    pub by_issuer : e.1.issuer ≡ issuer
    pub for_subject : e.1.subject ≡ e.0
    pub at : ℕ
    pub came_then : came e.1 at
    pub verified : verify sigs e.1 at ≡ ok tt

  pub record IsSubjects (limit : ℕ) (e : List ℕ × List (List ℕ × Invitation)) : Type 0 where
    pub distinct : IsDistinct bytes_discrete e.1
    pub bounded : length e.1 ≤ limit
    pub vouched : All (IsVouched e.0) e.1

  abbrev pub IsWithin : ℕ → List (List ℕ × List (List ℕ × Invitation)) → Type 0
  IsWithin limit edges = IsDistinct bytes_discrete edges × All (IsSubjects limit) edges

  abbrev pub IsValid : TrustStore → Type 0
  IsValid s = IsWithin s.max_invitees_per_issuer s.edges

  default-IsSubjects :
      (issuer : List ℕ) (o : Option (List (List ℕ × Invitation))) (s : TrustStore)
      → IsValid s
      → get bytes_discrete issuer s.edges ≡ o
      → IsSubjects s.max_invitees_per_issuer (issuer, subjects_or_default o)
  default-IsSubjects issuer none s v h = record {
    distinct = tt;
    bounded = omega arith;
    vouched = tt;
  }
  default-IsSubjects issuer (some subjects) s v h =
      All-get bytes_discrete (IsSubjects s.max_invitees_per_issuer) issuer subjects s.edges v.1 h

  room_after :
      (limit : ℕ) (k : List ℕ) (v : Invitation) (subjects : List (List ℕ × Invitation))
      → length subjects ≤ limit
      → is_full limit k subjects ≡ false
      → length (insert bytes_discrete k v subjects) ≤ limit
  unfolding is_full
  room_after limit k v subjects h full = elim (Option-cases (get bytes_discrete k subjects)) [
    | inl n ↦
        let e = ap (λ o. not (is_some o) && leb limit (length subjects)) (sym n) ∙ full in
        let l = length-insert-le bytes_discrete k v subjects in ground (arith, e, l)
    | inr (w, f) ↦ omega (arith, length-insert_known bytes_discrete k v w subjects f, h)
  ]

  insert-IsSubjects :
      (limit now : ℕ) (subjects : List (List ℕ × Invitation)) (v : Invitation)
      → IsSubjects limit (v.issuer, subjects)
      → came v now
      → verify sigs v now ≡ ok tt
      → is_full limit v.subject subjects ≡ false
      → IsSubjects limit (v.issuer, insert bytes_discrete v.subject v subjects)
  insert-IsSubjects limit now subjects v i c h full = record {
    distinct = insert-IsDistinct bytes_discrete v.subject v subjects i.distinct;
    bounded = room_after limit v.subject v subjects i.bounded full;
    vouched =
        All-insert bytes_discrete (IsVouched v.issuer) v.subject v subjects
          record { by_issuer = refl; for_subject = refl; at = now; came_then = c; verified = h }
          i.vouched;
  }

  admit-IsValid :
      (b : Bool) (subjects : List (List ℕ × Invitation)) (v : Invitation) (now : ℕ) (s : TrustStore)
      → is_full s.max_invitees_per_issuer v.subject subjects ≡ b
      → IsValid s
      → came v now
      → verify sigs v now ≡ ok tt
      → IsSubjects s.max_invitees_per_issuer (v.issuer, subjects)
      → IsValid (admit b subjects v s).0
  unfolding admit
  admit-IsValid true subjects v now s full i c h j = (
    insert-IsDistinct bytes_discrete v.issuer subjects s.edges i.0,
    All-insert bytes_discrete (IsSubjects s.max_invitees_per_issuer) v.issuer subjects s.edges j
        i.1,
  )
  admit-IsValid false subjects v now s full i c h j = (
    insert-IsDistinct bytes_discrete v.issuer (insert bytes_discrete v.subject v subjects) s.edges
        i.0,
    All-insert bytes_discrete (IsSubjects s.max_invitees_per_issuer) v.issuer
        (insert bytes_discrete v.subject v subjects) s.edges
        (insert-IsSubjects s.max_invitees_per_issuer now subjects v j c h full) i.1,
  )

  ingest_verified-IsValid :
      (r : Result AdmissionError (Unit {0})) (v : Invitation) (now : ℕ) (s : TrustStore)
      → verify sigs v now ≡ r
      → came v now
      → IsValid s
      → IsValid (ingest_verified r v s).0
  unfolding ingest_verified
  ingest_verified-IsValid (err e) v now s h c i = i
  ingest_verified-IsValid (ok u) v now s h c i =
      let subjects : List (List ℕ × Invitation) =
        subjects_or_default (get bytes_discrete v.issuer s.edges) in
      admit-IsValid (is_full s.max_invitees_per_issuer v.subject subjects) subjects v now s refl i c
        h (default-IsSubjects v.issuer (get bytes_discrete v.issuer s.edges) s i refl)

  ingest-IsValid :
      (v : Invitation) (now : ℕ) (s : TrustStore)
      → came v now
      → IsValid s
      → IsValid (ingest sigs v now s).0
  unfolding ingest
  ingest-IsValid v now s c i = ingest_verified-IsValid (verify sigs v now) v now s refl c i

  run-IsValid :
      (arrivals : List (Invitation × ℕ)) (s : TrustStore)
      → All (λ e. came e.0 e.1) arrivals
      → IsValid s
      → IsValid (ingest_all sigs arrivals s)
  unfolding ingest_all
  run-IsValid [] s c i = i
  run-IsValid ((v, now) ∷ rest) s c i =
      run-IsValid rest (ingest sigs v now s).0 c.1 (ingest-IsValid v now s c.0 i)

admit_cap :
    (b : Bool) (subjects : List (List ℕ × Invitation)) (v : Invitation) (s : TrustStore)
    → (admit b subjects v s).0.max_invitees_per_issuer ≡ s.max_invitees_per_issuer
unfolding admit
admit_cap true subjects v s = refl
admit_cap false subjects v s = refl

ingest_verified_cap :
    (r : Result AdmissionError (Unit {0})) (v : Invitation) (s : TrustStore)
    → (ingest_verified r v s).0.max_invitees_per_issuer ≡ s.max_invitees_per_issuer
unfolding ingest_verified
ingest_verified_cap (err e) v s = refl
ingest_verified_cap (ok u) v s =
    let subjects = subjects_or_default (get bytes_discrete v.issuer s.edges) in
    admit_cap (is_full s.max_invitees_per_issuer v.subject subjects) subjects v s

ingest_all_cap :
    (sigs : Signatures) (arrivals : List (Invitation × ℕ)) (s : TrustStore)
    → (ingest_all sigs arrivals s).max_invitees_per_issuer ≡ s.max_invitees_per_issuer
unfolding ingest_all ingest
ingest_all_cap sigs [] s = refl
ingest_all_cap sigs ((v, now) ∷ rest) s =
    ingest_all_cap sigs rest (ingest sigs v now s).0 ∙ ingest_verified_cap (verify sigs v now) v s

-- After any sequence of calls of `ingest` on a store without invitations: no issuer has more subjects
-- in the store than the cap, each invitation in it stands under its own issuer and subject, and it was
-- ingested in one of the calls, at a time at which it verified.
pub ingest_all-IsWithin :
    (sigs : Signatures) (arrivals : List (Invitation × ℕ)) (s : TrustStore)
    → s.edges ≡ []
    → IsWithin sigs
        (λ v now. Mem (v, now) arrivals)
        s.max_invitees_per_issuer
        (ingest_all sigs arrivals s).edges
ingest_all-IsWithin sigs arrivals s none_yet =
    let came : Invitation → ℕ → Type 0 = λ v now. Mem (v, now) arrivals in
    subst (λ limit. IsWithin sigs came limit (ingest_all sigs arrivals s).edges)
      (ingest_all_cap sigs arrivals s)
      (run-IsValid sigs came arrivals s (All-Mem arrivals)
        (subst (IsWithin sigs came s.max_invitees_per_issuer) (sym none_yet) (tt, tt)))
