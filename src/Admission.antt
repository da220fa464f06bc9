-- ===== src/Admission.antt =====
-- admission.rs: signed invitations and the store that walks their chains. Ed25519 is a parameter;
-- a key stands for its 32 bytes.
pub mod Codec
pub mod Store
pub mod Depth
use ppo_se_protocol.Common.{
  ℕ, zero, suc, ◌+◌, ◌-◌, ◌^◌, ◌≡◌, min, Bool, true, false, ◌&&◌, not, Option, none, some, List, [],
  ◌∷◌, ◌++◌, map, Result, ok, err, ◌>>=◌, ltb, leb, ◌==◌, if◌then◌else◌, ite, length, take, drop,
  slice,
}
use ppo_se_protocol.Common.Bytes.{to_be_bytes, from_be_bytes}
use ppo_se_protocol.Common.Table.{get, insert, bytes_discrete}
use ppo_se_protocol.Replay.{is_some}

pub record Signatures : Type 0 where
  -- `SigningKey::verifying_key`, `sign`, `VerifyingKey::verify` and whether
  -- `VerifyingKey::from_bytes` accepts the bytes.
  pub verifying_key : List ℕ → List ℕ
  pub sign : List ℕ → List ℕ → List ℕ
  pub verifies : List ℕ → List ℕ → List ℕ → Bool
  pub is_point : List ℕ → Bool

-- What the package documents: sizes, that keys it made are valid, and that they verify what their
-- secrets sign.
pub record IsSound (sigs : Signatures) : Type 0 where
  pub length_verifying_key : (secret : List ℕ) → length (sigs.verifying_key secret) ≡ 32
  pub length_sign : (secret payload : List ℕ) → length (sigs.sign secret payload) ≡ 64
  pub valid_key : (secret : List ℕ) → sigs.is_point (sigs.verifying_key secret) ≡ true
  pub signed :
      (secret payload : List ℕ)
      → sigs.verifies (sigs.verifying_key secret) payload (sigs.sign secret payload) ≡ true

abbrev pub invitation_len : ℕ
invitation_len = 32 + 32 + 8 + 8 + 64

-- The bytes of "ppose-invite-v1".
abbrev pub domain : List ℕ
domain = 112 ∷ 112 ∷ 111 ∷ 115 ∷ 101 ∷ 45 ∷ 105 ∷ 110 ∷ 118 ∷ 105 ∷ 116 ∷ 101 ∷ 45 ∷ 118 ∷ 49 ∷ []

pub data AdmissionError : Type 0 where
  bad_signature bad_encoding not_yet_valid expired issuer_cap_reached : AdmissionError

abbrev pub signing_payload : List ℕ → List ℕ → ℕ → ℕ → List ℕ
signing_payload issuer subject issued_at expires_at =
    domain ++ (issuer ++ (subject ++ (to_be_bytes 8 issued_at ++ to_be_bytes 8 expires_at)))

pub record Invitation : Type 0 where
  pub issuer : List ℕ
  pub subject : List ℕ
  pub issued_at : ℕ
  pub expires_at : ℕ
  pub signature : List ℕ

-- `u64::saturating_add`.
abbrev pub saturating_add : ℕ → ℕ → ℕ
saturating_add a b = min (a + b) (2 ^ 64 - 1)

unfoldable pub encode : Invitation → List ℕ
encode v =
    v.issuer
    ++ (v.subject ++ (to_be_bytes 8 v.issued_at ++ (to_be_bytes 8 v.expires_at ++ v.signature)))

-- `usize::MAX` on a 64-bit machine.
abbrev pub usize_max : ℕ
usize_max = 2 ^ 64 - 1

-- `edges`: an issuer's key, and under it the subjects with their invitations.
pub record TrustStore : Type 0 where
  pub roots : List (List ℕ)
  pub edges : List (List ℕ × List (List ℕ × Invitation))
  pub max_invitees_per_issuer : ℕ

abbrev pub new : TrustStore
new = record { roots = []; edges = []; max_invitees_per_issuer = usize_max }

-- `HashSet::contains` and `insert`; `insert` says whether the element is new.
unfoldable pub contains_key : List (List ℕ) → List ℕ → Bool
contains_key [] k = false
contains_key (j ∷ js) k = ite (bytes_discrete j k) true (contains_key js k)

abbrev pub add_root : List ℕ → TrustStore → TrustStore
add_root root s = record s { roots = if contains_key s.roots root then s.roots else root ∷ s.roots }

abbrev pub set_max_invitees_per_issuer : ℕ → TrustStore → TrustStore
set_max_invitees_per_issuer limit s = record s { max_invitees_per_issuer = limit }

-- `entry(issuer).or_default()`.
abbrev pub subjects_or_default : Option (List (List ℕ × Invitation)) → List (List ℕ × Invitation)
subjects_or_default none = []
subjects_or_default (some subjects) = subjects

-- The end of `ingest`, by whether the cap refuses the subject; the default entry stays in any case.
unfoldable pub admit :
    Bool
    → List (List ℕ × Invitation)
    → Invitation
    → TrustStore
    → TrustStore × Result AdmissionError (Unit {0})
unfolding insert
admit true subjects v s =
    (record s { edges = insert bytes_discrete v.issuer subjects s.edges }, err issuer_cap_reached)
admit false subjects v s = (
  record s {
    edges = insert bytes_discrete v.issuer (insert bytes_discrete v.subject v subjects) s.edges;
  },
  ok tt,
)

unfoldable pub is_full : ℕ → List ℕ → List (List ℕ × Invitation) → Bool
unfolding get
is_full limit subject subjects =
    not (is_some (get bytes_discrete subject subjects)) && leb limit (length subjects)

-- `ingest` after `verify`.
unfoldable pub ingest_verified :
    Result AdmissionError (Unit {0})
    → Invitation
    → TrustStore
    → TrustStore × Result AdmissionError (Unit {0})
unfolding admit is_full get
ingest_verified (err e) v s = (s, err e)
ingest_verified (ok u) v s =
    let subjects = subjects_or_default (get bytes_discrete v.issuer s.edges) in
    admit (is_full s.max_invitees_per_issuer v.subject subjects) subjects v s

-- What one issuer's invitations add to a search: the subject is among them, or the keys seen so far
-- and the next frontier.
pub data Scan : Type 0 where
  found : Scan
  more : List (List ℕ) → List (List ℕ) → Scan

module _ (sigs : Signatures) where
  unfoldable pub verify : Invitation → ℕ → Result AdmissionError (Unit {0})
  verify v now =
      if ltb now v.issued_at
      then err not_yet_valid
      else if leb v.expires_at now
      then err expired
      else if sigs.verifies v.issuer (signing_payload v.issuer v.subject v.issued_at v.expires_at)
          v.signature
      then ok tt
      else err bad_signature

  unfoldable pub issue : List ℕ → List ℕ → ℕ → ℕ → Invitation
  issue secret subject now ttl_secs =
      let issuer : List ℕ = sigs.verifying_key secret in
      let expires_at : ℕ = saturating_add now ttl_secs in
      record {
        issuer = issuer;
        subject = subject;
        issued_at = now;
        expires_at = expires_at;
        signature = sigs.sign secret (signing_payload issuer subject now expires_at);
      }

  -- `decode` once the bytes are cut into the fields.
  unfoldable pub decode_fields :
      List ℕ → List ℕ → List ℕ → List ℕ → List ℕ → Result AdmissionError Invitation
  decode_fields issuer subject issued_at_b expires_at_b signature =
      if sigs.is_point issuer
      then ok record {
        issuer = issuer;
        subject = subject;
        issued_at = from_be_bytes issued_at_b;
        expires_at = from_be_bytes expires_at_b;
        signature = signature;
      }
      else err bad_encoding

  unfoldable pub decode : List ℕ → Result AdmissionError Invitation
  unfolding decode_fields
  decode bytes =
      if not (length bytes == invitation_len)
      then err bad_encoding
      else decode_fields (take 32 bytes) (slice bytes 32 64) (slice bytes 64 72) (slice bytes 72 80)
          (slice bytes 80 144)

  unfoldable pub ingest :
      Invitation → ℕ → TrustStore → TrustStore × Result AdmissionError (Unit {0})
  unfolding verify ingest_verified
  ingest v now s = ingest_verified (verify v now) v s

  -- One invitation in the innermost loop of `trust_depth`, after `verify`.
  unfoldable pub scan_subject : List ℕ → List ℕ → List (List ℕ) → List (List ℕ) → Scan
  unfolding contains_key
  scan_subject subject s visited next =
      ite (bytes_discrete s subject) found (
        if contains_key visited s then more visited next else more (s ∷ visited) (next ++ (s ∷ [])))

  unfoldable pub scan_invites :
      List ℕ → ℕ → List (List ℕ × Invitation) → List (List ℕ) → List (List ℕ) → Scan
  unfolding verify scan_subject
  scan_invites subject now [] visited next = more visited next
  scan_invites subject now ((k, v) ∷ rest) visited next = elim (verify v now) [
    | err e ↦ scan_invites subject now rest visited next
    | ok u ↦ elim (scan_subject subject v.subject visited next) [
      | found ↦ found
      | more visited' next' ↦ scan_invites subject now rest visited' next'
    ]
  ]

  -- The loop over the frontier.
  unfoldable pub scan_frontier :
      TrustStore → List ℕ → ℕ → List (List ℕ) → List (List ℕ) → List (List ℕ) → Scan
  unfolding scan_invites get
  scan_frontier s subject now [] visited next = more visited next
  scan_frontier s subject now (issuer ∷ frontier) visited next =
      elim (scan_invites subject now (subjects_or_default (get bytes_discrete issuer s.edges))
        visited next) [
          | found ↦ found
          | more visited' next' ↦ scan_frontier s subject now frontier visited' next'
        ]

  -- The loop over the depths, with `left` of them to go from `depth` on.
  unfoldable pub search_depths :
      TrustStore → List ℕ → ℕ → ℕ → ℕ → List (List ℕ) → List (List ℕ) → Option ℕ
  unfolding scan_frontier
  search_depths s subject now zero depth frontier visited = none
  search_depths s subject now (suc left) depth frontier visited =
      elim (scan_frontier s subject now frontier visited []) [
        | found ↦ some depth
        | more visited' next ↦
            if length next == 0
            then none
            else search_depths s subject now left (depth + 1) next visited'
      ]

  unfoldable pub trust_depth : TrustStore → List ℕ → ℕ → ℕ → Option ℕ
  unfolding search_depths contains_key
  trust_depth s subject max_depth now =
      if contains_key s.roots subject
      then some 0
      else search_depths s subject now max_depth 1 s.roots s.roots

  unfoldable pub is_admitted : TrustStore → List ℕ → ℕ → ℕ → Bool
  unfolding trust_depth
  is_admitted s subject max_depth now = is_some (trust_depth s subject max_depth now)
