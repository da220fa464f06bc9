-- ===== src/Admission/Codec.antt =====
-- Invitations on the wire, and the window in which an issued invitation verifies.
use ppo_se_protocol.Common.{
  ℕ, zero, suc, ◌+◌, ◌<◌, ◌^◌, ◌≡◌, sym, ap, ap₂, ◌∙◌, true, false, List, [], ◌∷◌, ◌++◌, ok, err,
  ltb, leb, if◌then◌else◌, length, take, drop, slice, take-append, drop-append, drop-nil, take_all,
  append_assoc, length-append, arith,
}
use ppo_se_protocol.Common.Bytes.{to_be_bytes, from_be_bytes, from_be_bytes-u64, length-to_be_bytes}
use ppo_se_protocol.Admission.{
  Signatures, IsSound, Invitation, bad_encoding, bad_signature, decode_fields, not_yet_valid,
  expired, saturating_add, signing_payload, encode, decode, verify, issue,
}

drop-drop : (m n : ℕ) (xs : List ℕ) → drop n (drop m xs) ≡ drop (m + n) xs
drop-drop zero n xs = ap (λ k. drop k xs) (omega arith)
drop-drop (suc m) n [] = drop-nil n ∙ sym (drop-nil (suc m + n))
drop-drop (suc m) n (x ∷ xs) =
    drop-drop m n xs ∙ ap (λ k. drop k (x ∷ xs)) {x = suc (m + n)} {y = suc m + n} (omega arith)

-- The fields have the sizes of their types, and the key is a valid one.
pub record IsInvitation (sigs : Signatures) (v : Invitation) : Type 0 where
  pub issuer_len : length v.issuer ≡ 32
  pub issuer_valid : sigs.is_point v.issuer ≡ true
  pub subject_len : length v.subject ≡ 32
  pub issued : v.issued_at < 2 ^ 64
  pub expires : v.expires_at < 2 ^ 64
  pub signature_len : length v.signature ≡ 64

-- One field of `len` bytes behind `skip` others.
field :
    (skip len : ℕ) (before xs rest : List ℕ)
    → length before ≡ skip
    → length xs ≡ len
    → take len (drop skip (before ++ (xs ++ rest))) ≡ xs
field skip len before xs rest hb hx =
    ap (take len) (drop-append skip before (xs ++ rest) hb) ∙ take-append len xs rest hx

-- The fields of an encoded invitation stand where `decode` looks for them.
abbrev read_back : Invitation → Invitation
read_back v = record v {
  issued_at = from_be_bytes (to_be_bytes 8 v.issued_at);
  expires_at = from_be_bytes (to_be_bytes 8 v.expires_at);
}

record Fields (v : Invitation) : Type 0 where
  size : length (encode v) ≡ 144
  issuer_at : take 32 (encode v) ≡ v.issuer
  subject_at : slice (encode v) 32 64 ≡ v.subject
  issued_bytes : slice (encode v) 64 72 ≡ to_be_bytes 8 v.issued_at
  expires_bytes : slice (encode v) 72 80 ≡ to_be_bytes 8 v.expires_at
  signature_at : slice (encode v) 80 144 ≡ v.signature

encode-Fields : (sigs : Signatures) (v : Invitation) → IsInvitation sigs v → Fields v
unfolding encode
encode-Fields sigs v w =
    let a : List ℕ = v.issuer in
    let b : List ℕ = v.subject in
    let c : List ℕ = to_be_bytes 8 v.issued_at in
    let d : List ℕ = to_be_bytes 8 v.expires_at in
    let e : List ℕ = v.signature in
    let bytes : List ℕ = a ++ (b ++ (c ++ (d ++ e))) in
    let l0 = length-append a (b ++ (c ++ (d ++ e))) in
    let l1 = length-append b (c ++ (d ++ e)) in
    let l2 = length-append c (d ++ e) in
    let l3 = length-append d e in
    let lc = length-to_be_bytes 8 v.issued_at in
    let ld = length-to_be_bytes 8 v.expires_at in
    let lab = length-append a b in
    let labc = length-append (a ++ b) c in
    let labcd = length-append ((a ++ b) ++ c) d in
    let size : length bytes ≡ 144 =
      omega (arith, l0, l1, l2, l3, lc, ld, w.issuer_len, w.subject_len, w.signature_len) in
    let ab : bytes ≡ (a ++ b) ++ (c ++ (d ++ e)) = sym (append_assoc a b (c ++ (d ++ e))) in
    let abc : bytes ≡ ((a ++ b) ++ c) ++ (d ++ e) = ab ∙ sym (append_assoc (a ++ b) c (d ++ e)) in
    let abcd : bytes ≡ (((a ++ b) ++ c) ++ d) ++ e = abc ∙ sym (append_assoc ((a ++ b) ++ c) d e) in
    let f0 : take 32 bytes ≡ a = take-append 32 a (b ++ (c ++ (d ++ e))) w.issuer_len in
    let f1 : slice bytes 32 64 ≡ b = field 32 32 a b (c ++ (d ++ e)) w.issuer_len w.subject_len in
    let f2 : slice bytes 64 72 ≡ c =
      ap (λ x. slice x 64 72) ab
      ∙ field 64 8 (a ++ b) c (d ++ e) (omega (arith, lab, w.issuer_len, w.subject_len)) lc in
    let f3 : slice bytes 72 80 ≡ d =
      ap (λ x. slice x 72 80) abc
      ∙ field 72 8 ((a ++ b) ++ c) d e (omega (arith, lab, labc, lc, w.issuer_len, w.subject_len))
          ld in
    let f4 : slice bytes 80 144 ≡ e =
      ap (λ x. slice x 80 144) abcd
      ∙ ap (take 64) (
          drop-append 80 (((a ++ b) ++ c) ++ d) e
            (omega (arith, lab, labc, labcd, lc, ld, w.issuer_len, w.subject_len)))
      ∙ take_all 64 e (omega (arith, w.signature_len)) in
    record {
      size = size;
      issuer_at = f0;
      subject_at = f1;
      issued_bytes = f2;
      expires_bytes = f3;
      signature_at = f4;
    }

-- An invitation whose fields have their sizes, and whose issuer's key is valid, is read back from its
-- encoding.
pub decode-encode :
    (sigs : Signatures) (v : Invitation) → IsInvitation sigs v → decode sigs (encode v) ≡ ok v
unfolding decode decode_fields
decode-encode sigs v w =
    let f = encode-Fields sigs v w in
    let bytes : List ℕ = encode v in
    ap
      (λ b.
        if b
        then err bad_encoding
        else decode_fields sigs (take 32 bytes) (slice bytes 32 64) (slice bytes 64 72)
            (slice bytes 72 80) (slice bytes 80 144))
      {y = false} (let l = f.size in ground (arith, l))
    ∙ ap
        (λ x.
          decode_fields sigs x (slice bytes 32 64) (slice bytes 64 72) (slice bytes 72 80)
            (slice bytes 80 144))
        f.issuer_at
    ∙ ap
        (λ x.
          decode_fields sigs v.issuer x (slice bytes 64 72) (slice bytes 72 80)
            (slice bytes 80 144))
        f.subject_at
    ∙ ap (λ x. decode_fields sigs v.issuer v.subject x (slice bytes 72 80) (slice bytes 80 144))
        f.issued_bytes
    ∙ ap
        (λ x.
          decode_fields sigs v.issuer v.subject (to_be_bytes 8 v.issued_at) x (slice bytes 80 144))
        f.expires_bytes
    ∙ ap
        (decode_fields sigs v.issuer v.subject (to_be_bytes 8 v.issued_at)
          (to_be_bytes 8 v.expires_at))
        f.signature_at
    ∙ ap (λ b. if b then ok (read_back v) else err bad_encoding) w.issuer_valid
    ∙ ap₂ (λ x y. ok record v { issued_at = x; expires_at = y })
        (from_be_bytes-u64 v.issued_at w.issued) (from_be_bytes-u64 v.expires_at w.expires)

-- With sound signatures, an invitation verifies from the second it is issued until its time to
-- live, capped at the largest `u64`, has passed.
pub verify-issue :
    (sigs : Signatures) (secret subject : List ℕ) (issued ttl_secs now : ℕ)
    → IsSound sigs
    → verify sigs (issue sigs secret subject issued ttl_secs) now ≡ (
        if ltb now issued
        then err not_yet_valid
        else if leb (saturating_add issued ttl_secs) now
        then err expired
        else ok tt)
unfolding verify issue
verify-issue sigs secret subject issued ttl_secs now sound =
    ap
      (λ b.
        if ltb now issued
        then err not_yet_valid
        else if leb (saturating_add issued ttl_secs) now
        then err expired
        else if b
        then ok tt
        else err bad_signature)
      (sound.signed secret (
        signing_payload (sigs.verifying_key secret) subject issued
          (saturating_add issued ttl_secs)))
