-- ===== src/Tests/Trust.antt =====
-- Runs of admission.rs, with stand-ins for the signatures.
use ppo_se_protocol.Common.{
  ℕ, ◌≡◌, refl, true, none, some, List, [], ◌∷◌, Mem, ok, err, replicate, length-replicate, ltb,
  leb, if◌then◌else◌, arith,
}
use ppo_se_protocol.Common.Table.{bytes_discrete}
use ppo_se_protocol.Admission.{
  Signatures, Invitation, TrustStore, not_yet_valid, expired, saturating_add, encode, decode,
  verify, issue, ingest, trust_depth,
}
use ppo_se_protocol.Admission.Codec.{IsInvitation, decode-encode, verify-issue}
use ppo_se_protocol.Admission.Depth.Shortest.{IsDepth, trust_depth-IsDepth}
use ppo_se_protocol.Admission.Store.{ingest_all, IsWithin, ingest_all-IsWithin}

-- Signatures that are 64 fixed bytes, and that any key verifies.
abbrev toy_signatures : Signatures
toy_signatures = record {
  verifying_key = λ secret. replicate 32 3;
  sign = λ secret payload. replicate 64 4;
  verifies = λ key payload signature. true;
  is_point = λ key. true;
}

toy_signatures-IsSound : ppo_se_protocol.Admission.IsSound toy_signatures
toy_signatures-IsSound = record {
  length_verifying_key = λ secret. length-replicate {A = ℕ} 32 3;
  length_sign = λ secret payload. length-replicate {A = ℕ} 64 4;
  valid_key = λ secret. refl;
  signed = λ secret payload. refl;
}

abbrev invitation : Invitation
invitation = record {
  issuer = replicate 32 3;
  subject = replicate 32 8;
  issued_at = 1000;
  expires_at = 1100;
  signature = replicate 64 4;
}

invitation-IsInvitation : IsInvitation toy_signatures invitation
invitation-IsInvitation = record {
  issuer_len = refl;
  issuer_valid = refl;
  subject_len = refl;
  issued = omega arith;
  expires = omega arith;
  signature_len = refl;
}

decode-encode_example : decode toy_signatures (encode invitation) ≡ ok invitation
decode-encode_example = decode-encode toy_signatures invitation invitation-IsInvitation

verify-issue_example :
    verify toy_signatures (issue toy_signatures (1 ∷ []) (replicate 32 8) 1000 100) 1050 ≡ (
      if ltb 1050 1000
      then err not_yet_valid
      else if leb (saturating_add 1000 100) 1050
      then err expired
      else ok tt)
verify-issue_example =
    verify-issue toy_signatures (1 ∷ []) (replicate 32 8) 1000 100 1050 toy_signatures-IsSound

abbrev empty_store : TrustStore
empty_store = record { roots = replicate 32 3 ∷ []; edges = []; max_invitees_per_issuer = 1 }

-- The invitation is refused as early, accepted, and refused as late.
abbrev arrivals : List (Invitation × ℕ)
arrivals = (invitation, 900) ∷ (invitation, 1050) ∷ (invitation, 1100) ∷ []

ingest_all-IsWithin_example :
    IsWithin toy_signatures
      (λ v now. Mem (v, now) arrivals)
      1
      (ingest_all toy_signatures arrivals empty_store).edges
ingest_all-IsWithin_example = ingest_all-IsWithin toy_signatures arrivals empty_store refl

-- A root, and a chain of two invitations from it.
abbrev key_of : ℕ → List ℕ
key_of k = k ∷ []

abbrev vouch : ℕ → ℕ → List ℕ × Invitation
vouch i k = (
  key_of k,
  record { issuer = key_of i; subject = key_of k; issued_at = 10; expires_at = 20; signature = [] },
)

abbrev chain_store : TrustStore
chain_store = record {
  roots = key_of 1 ∷ [];
  edges = (key_of 1, vouch 1 2 ∷ vouch 1 1 ∷ []) ∷ (key_of 2, vouch 2 3 ∷ []) ∷ [];
  max_invitees_per_issuer = 5;
}

chain_depth : trust_depth toy_signatures chain_store (key_of 3) 4 15 ≡ some 2
unfolding trust_depth bytes_discrete
chain_depth = refl

chain_depth_expired : trust_depth toy_signatures chain_store (key_of 3) 4 20 ≡ none
unfolding trust_depth bytes_discrete
chain_depth_expired = refl

trust_depth-IsDepth_example :
    IsDepth toy_signatures 15 chain_store
      (key_of 3)
      4
      (trust_depth toy_signatures chain_store (key_of 3) 4 15)
trust_depth-IsDepth_example = trust_depth-IsDepth toy_signatures 15 chain_store (key_of 3) 4
