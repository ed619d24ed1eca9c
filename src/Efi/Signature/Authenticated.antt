-- ===== src/Efi/Signature/Authenticated.antt =====
-- What `sign_efi_sig_db` writes can be taken apart again, and where `esl_from_auth_bytes` cuts.
use xcp_ng_tests.Prelude.{
  ℕ, ◌+◌, ◌-◌, ◌^◌, ◌<◌, ◌≡◌, refl, ap, false, Option, none, some, [], ◌∷◌, ◌++◌, append_assoc,
  append-nil, arith, length, take, drop, take-append, drop-append, take-append_length,
  drop-append_length, ◌==◌, ◌&&◌, text_eq, text_eq_refl, if◌then◌else◌, Text,
}
use xcp_ng_tests.Effect.{ok, err, struct_error, pure}
use native.Mathlib.Decide.{dec_lt}
use xcp_ng_tests.Effect.Laws.{lift-eq-ok, gets-eq-ok, >>=-eq-ok}
use xcp_ng_tests.Efi.Struct.{Bytes, efi_pack, le_bytes, calcsize}
use xcp_ng_tests.Efi.Struct.Laws.{
  from_le, from_le-le_bytes, take-le_bytes, drop-le_bytes, length-efi_pack, pack_field-u32,
  pack_field-u16, pack_field-u32_overflow,
}
use xcp_ng_tests.Efi.Signature.{
  Crypto, Host, EfiState, create_auth2_header, pack_time, sign_efi_sig_db, index_from,
  esl_from_auth_bytes,
}
use xcp_ng_tests.Efi.Signature.Formats.{
  DateTime, efi_cert_pkcs7_guid, efi_cert_x509_guid, efi_time, length-efi_cert_pkcs7_guid,
  length-efi_cert_x509_guid,
}

-- The time stamp, the signature and the content of an authenticated variable: the time, then the
-- length, revision and type of the certificate, whose length counts its own header, then the GUID
-- of its kind and the signature itself.
pub read_auth2 : Bytes → Option (Bytes × Bytes × Bytes)
read_auth2 b =
    let b₁ = drop 16 b in
    let b₂ = drop 4 b₁ in
    let b₃ = drop 2 b₂ in
    let b₄ = drop 2 b₃ in
    let b₅ = drop 16 b₄ in
    let size = from_le (take 4 b₁) in
    if from_le (take 2 b₂) == 0x200
      && (from_le (take 2 b₃) == 0x0EF1 && text_eq (take 16 b₄) efi_cert_pkcs7_guid)
    then some (take 16 b, take (size - 24) b₅, drop (size - 24) b₅)
    else none

abbrev header_layout : ℕ → Bytes → Bytes
header_layout n ts =
    ts ++ (le_bytes 4 (n + 24) ++ (le_bytes 2 0x200 ++ (le_bytes 2 0x0EF1 ++ efi_cert_pkcs7_guid)))

create_auth2_header_fits :
    (p7 ts : Bytes)
    → length p7 + 24 < 256 ^ 4
    → create_auth2_header p7 ts ≡ ok (header_layout (length p7) ts)
unfolding create_auth2_header efi_pack calcsize
create_auth2_header_fits p7 ts h =
    rw
      (
        pack_field-u32 (length p7 + 24) h,
        pack_field-u16 0x200 (omega arith),
        pack_field-u16 0x0EF1 (omega arith),
      )
      (ap ok (simp (append_assoc, append-nil)))

create_auth2_header_overflow :
    (p7 ts : Bytes) → ¬ (length p7 + 24 < 256 ^ 4) → create_auth2_header p7 ts ≡ err struct_error
unfolding create_auth2_header efi_pack calcsize
create_auth2_header_overflow p7 ts h = rw (pack_field-u32_overflow (length p7 + 24) h) refl

create_auth2_header_lem :
    (p7 ts : Bytes) {h : Bytes}
    → create_auth2_header p7 ts ≡ ok h
    → (length p7 + 24 < 256 ^ 4) × (header_layout (length p7) ts ≡ h)
create_auth2_header_lem p7 ts {h} e = elim (dec_lt (length p7 + 24) (256 ^ 4)) [
  | yes fits ↦ let made = create_auth2_header_fits p7 ts fits in (fits, cc)
  | no big ↦ let raised = create_auth2_header_overflow p7 ts big in absurd (cc)
]

read_auth2-header_layout :
    (ts p7 sig_db : Bytes)
    → length ts ≡ 16
    → length p7 + 24 < 256 ^ 4
    → read_auth2 (header_layout (length p7) ts ++ (p7 ++ sig_db)) ≡ some (ts, p7, sig_db)
unfolding read_auth2
read_auth2-header_layout ts p7 sig_db t h =
    let size : ℕ = length p7 + 24 in
    simp
      (
        append_assoc,
        take-append 16 ts _ t,
        drop-append 16 ts _ t,
        take-le_bytes,
        drop-le_bytes,
        take-append 16 _ _ length-efi_cert_pkcs7_guid,
        drop-append 16 _ _ length-efi_cert_pkcs7_guid,
        from_le-le_bytes 4 size h,
        from_le-le_bytes 2 0x200 (omega arith),
        from_le-le_bytes 2 0x0EF1 (omega arith),
        text_eq_refl,
      )
      (let e : size - 24 ≡ length p7 = omega arith in
        rw (e, take-append_length, drop-append_length) refl)

assembled :
    (ts p7 sig_db header : Bytes) {auth : Bytes} {s t : EfiState}
    → create_auth2_header p7 ts ≡ ok header
    → length ts ≡ 16
    → pure (header ++ (p7 ++ sig_db)) s ≡ (ok auth, t)
    → read_auth2 auth ≡ some (ts, p7, sig_db)
assembled ts p7 sig_db header {auth} e l made =
    let (fits, layout) = create_auth2_header_lem p7 ts e in
    let whole : header_layout (length p7) ts ++ (p7 ++ sig_db) ≡ auth = cc in
    rw (← whole) (read_auth2-header_layout ts p7 sig_db l fits)

length-pack_time : (d : DateTime) {ts : Bytes} → pack_time d ≡ ok ts → length ts ≡ 16
unfolding pack_time
length-pack_time d e = length-efi_pack efi_time _ e

module _ (C : Crypto) (H : Host) where
  -- Whenever `sign_efi_sig_db` returns, the result reads back as an authenticated variable with
  -- the packed time stamp, some signature and the signature database that was given.
  pub sign_efi_sig_db-read_auth2 :
      (sig_db : Bytes) (var key cert : Text) (time : Option DateTime) (guid : Option Bytes)
      (s : EfiState) {auth : Bytes} {t : EfiState}
      → sign_efi_sig_db C H sig_db var key cert time guid s ≡ (ok auth, t)
      → (ts : Bytes) × (p7 : Bytes) × (read_auth2 auth ≡ some (ts, p7, sig_db))
        × (pack_time (elim time [ none ↦ H.now s | some d ↦ d ]) ≡ ok ts)
  unfolding sign_efi_sig_db
  sign_efi_sig_db-read_auth2 sig_db var key cert time guid s {auth} {t} e =
      let (g, eg, e₁) = lift-eq-ok _ _ s e in
      let (ts, et, e₂) = lift-eq-ok _ _ s (gets-eq-ok _ _ s e₁) in
      let (u, eu, e₃) = lift-eq-ok _ _ s e₂ in
      let (p7, s₁, ep, e₄) = >>=-eq-ok _ _ s e₃ in
      let (w, s₂, ew, e₅) = >>=-eq-ok _ _ s₁ e₄ in
      let (header, eh, e₆) = lift-eq-ok _ _ s₂ e₅ in
      (ts, p7, assembled ts p7 sig_db _ eh (length-pack_time _ et) e₆, et)

-- `pattern` starts at no position of `before` in `before ++ after`.
abbrev pub NoneEarlier : Bytes → Bytes → Bytes → Type 0
NoneEarlier pattern [] after = Unit
NoneEarlier pattern (b ∷ before) after =
    (text_eq (take (length pattern) (b ∷ (before ++ after))) pattern ≡ false)
    × NoneEarlier pattern before after

-- A pattern that occurs is found at its first occurrence.
index_from-first :
    (pattern before rest : Bytes) (i : ℕ)
    → 0 < length pattern
    → NoneEarlier pattern before (pattern ++ rest)
    → index_from pattern (before ++ (pattern ++ rest)) i ≡ ok (i + length before)
unfolding index_from
index_from-first [] [] rest i p h = absurd (omega arith)
index_from-first (c ∷ pattern) [] rest i p h =
    rw (take-append_length pattern rest, text_eq_refl (c ∷ pattern)) (ap ok (omega arith))
index_from-first pattern (b ∷ before) rest i p (other, h) =
    rw (other, index_from-first pattern before rest (i + 1) p h) (ap ok (omega arith))

-- In bytes where the X509 GUID first occurs right behind `header`, `esl_from_auth_bytes` cuts off
-- `header` and returns all of the rest.
pub esl_from_auth_bytes-first :
    (header rest : Bytes)
    → NoneEarlier efi_cert_x509_guid header (efi_cert_x509_guid ++ rest)
    → esl_from_auth_bytes (header ++ (efi_cert_x509_guid ++ rest)) ≡ ok (efi_cert_x509_guid ++ rest)
unfolding esl_from_auth_bytes
esl_from_auth_bytes-first header rest h =
    rw
      (index_from-first efi_cert_x509_guid header rest 0 (omega (arith, length-efi_cert_x509_guid))
        h)
      (ap ok (drop-append (0 + length header) header _ (omega arith)))
