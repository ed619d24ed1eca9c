-- ===== src/Efi/Signature/RoundTrip.antt =====
-- Readers of the UEFI structures, written from their layout, and what they find in the bytes that
-- lib/efi.py builds.
use xcp_ng_tests.Prelude.{
  ℕ, zero, suc, ◌+◌, ◌-◌, ◌^◌, ◌<◌, ◌≡◌, refl, ap, ◌∙◌, Option, none, some, List, [], ◌∷◌, ◌++◌,
  append_assoc, append-nil, arith, sym, Text, All, length, take, drop, take-append, drop-append,
  take-append_length, drop-append_length, ◌==◌, ◌&&◌, text_eq, text_eq_refl, leb, if◌then◌else◌,
}
use xcp_ng_tests.Effect.{ok}
use xcp_ng_tests.Effect.Laws.{>>=-step}
use xcp_ng_tests.Efi.Struct.{Bytes, efi_pack, le_bytes, calcsize}
use xcp_ng_tests.Efi.Struct.Laws.{
  from_le, from_le-le_bytes, take-le_bytes, drop-le_bytes, pack_field-u32, pack_field-efi_guid,
}
use xcp_ng_tests.Efi.Signature.{
  Crypto, EfiState, read_file, load_certificate, esl_of_der, cert_to_efi_sig_list, sig_db_from,
  certs_to_sig_db,
}
use xcp_ng_tests.Efi.Signature.Formats.{
  efi_cert_x509_guid, vates_guid, length-efi_cert_x509_guid, length-vates_guid,
}

-- The bytes of a signature list with one certificate of `n` bytes.
abbrev pub esl_layout : Bytes → Bytes
esl_layout der =
    efi_cert_x509_guid
    ++ (le_bytes 4 (length der + 28 + 16)
        ++ (le_bytes 4 0 ++ (le_bytes 4 (length der + 28 + 16 - 28) ++ (vates_guid ++ der))))

pub esl_of_der_lem :
    (der : Bytes) → length der + 44 < 256 ^ 4 → esl_of_der der ≡ ok (esl_layout der)
unfolding esl_of_der efi_pack calcsize
esl_of_der_lem der h =
    rw
      (
        pack_field-efi_guid _ length-efi_cert_x509_guid,
        pack_field-efi_guid _ length-vates_guid,
        pack_field-u32 (length der + 28 + 16) (omega arith),
        pack_field-u32 0 (omega arith),
        pack_field-u32 (length der + 28 + 16 - 28) (omega arith),
      )
      (ap ok (simp (append_assoc, append-nil)))

-- The one certificate of the signature list at the head of some bytes, and the bytes behind the
-- list: type, list size, header size and signature size, then the owner and the certificate.
pub read_esl : Bytes → Option (Bytes × Bytes)
read_esl b =
    let b₁ = drop 16 b in
    let b₂ = drop 4 b₁ in
    let b₃ = drop 4 b₂ in
    let b₄ = drop 16 (drop 4 b₃) in
    let size = from_le (take 4 b₁) in
    if text_eq (take 16 b) efi_cert_x509_guid
      && (from_le (take 4 b₂) == 0 && (from_le (take 4 b₃) + 28 == size && leb 44 size))
    then some (take (size - 44) b₄, drop (size - 44) b₄)
    else none

pub read_esl-esl_layout :
    (der rest : Bytes)
    → length der + 44 < 256 ^ 4
    → read_esl (esl_layout der ++ rest) ≡ some (der, rest)
unfolding read_esl
read_esl-esl_layout der rest h =
    let size : ℕ = length der + 28 + 16 in
    simp
      (
        append_assoc,
        take-append 16 _ _ length-efi_cert_x509_guid,
        drop-append 16 _ _ length-efi_cert_x509_guid,
        drop-append 16 _ _ length-vates_guid,
        take-le_bytes,
        drop-le_bytes,
        from_le-le_bytes 4 size (omega arith),
        from_le-le_bytes 4 0 (omega arith),
        from_le-le_bytes 4 (size - 28) (omega arith),
        text_eq_refl,
      )
      (let e : size - 44 ≡ length der = omega arith in
        rw (e, take-append_length, drop-append_length) (ground arith))

-- The certificates of `n` signature lists in a row, which must make up all the bytes.
pub read_db : ℕ → Bytes → Option (List Bytes)
read_db zero [] = some []
read_db zero (b ∷ bs) = none
read_db (suc n) bs = elim (read_esl bs) [
  | none ↦ none
  | some (der, rest) ↦ elim (read_db n rest) [ none ↦ none | some ders ↦ some (der ∷ ders) ]
]

-- The signature lists of some certificates in a row.
abbrev pub db_layout : List Bytes → Bytes
db_layout [] = []
db_layout (der ∷ ders) = esl_layout der ++ db_layout ders

read_db-db_layout :
    (ders : List Bytes)
    → All (λ der. length der + 44 < 256 ^ 4) ders
    → read_db (length ders) (db_layout ders) ≡ some ders
unfolding read_db
read_db-db_layout [] h = refl
read_db-db_layout (der ∷ ders) (h, hs) =
    rw (read_esl-esl_layout der (db_layout ders) h, read_db)
      (rw (read_db-db_layout ders hs, read_db) refl)

module _ (C : Crypto) (s : EfiState) where
  -- The file holds a certificate, PEM or DER, with the given DER form, which is not too long.
  abbrev pub Holds : Text → Bytes → Type 0
  Holds path der =
      (contents : Bytes) × (cert : C.Cert) × (s.files path ≡ some contents)
      × (load_certificate C contents ≡ ok cert)
      × (C.public_bytes cert ≡ der)
      × (length der + 44 < 256 ^ 4)

  abbrev pub AllHold : List Text → List Bytes → Type 0
  AllHold [] [] = Unit
  AllHold [] (der ∷ ders) = ⊥
  AllHold (path ∷ paths) [] = ⊥
  AllHold (path ∷ paths) (der ∷ ders) = Holds path der × AllHold paths ders

  read_file_lem :
      (path : Text) (contents : Bytes)
      → s.files path ≡ some contents
      → read_file path s ≡ (ok contents, s)
  unfolding read_file
  read_file_lem path contents found = rw (found, read_file)

  cert_to_efi_sig_list_lem :
      (path : Text) (der : Bytes)
      → Holds path der
      → cert_to_efi_sig_list C path s ≡ (ok (esl_layout der), s)
  unfolding cert_to_efi_sig_list
  cert_to_efi_sig_list_lem path der (contents, cert, found, loaded, same, fits) =
      >>=-step _ _ s (read_file_lem path contents found)
      ∙ >>=-step _ _ s (ap (λ r. (r, s)) loaded)
      ∙ ap (λ r. (r, s)) (ap esl_of_der same ∙ esl_of_der_lem der fits)

  sig_db_from_lem :
      (db : Bytes) (paths : List Text) (ders : List Bytes)
      → AllHold paths ders
      → sig_db_from C db paths s ≡ (ok (db ++ db_layout ders), s)
  unfolding sig_db_from
  sig_db_from_lem db [] [] h = ap (λ b. (ok b, s)) (sym (append-nil db))
  sig_db_from_lem db [] (der ∷ ders) h = absurd h
  sig_db_from_lem db (path ∷ paths) [] h = absurd h
  sig_db_from_lem db (path ∷ paths) (der ∷ ders) (h, hs) =
      >>=-step _ _ s (cert_to_efi_sig_list_lem path der h)
      ∙ sig_db_from_lem (db ++ esl_layout der) paths ders hs
      ∙ ap (λ b. (ok b, s)) (append_assoc db _ _)

  each_fits :
      (paths : List Text) (ders : List Bytes)
      → AllHold paths ders
      → All (λ der. length der + 44 < 256 ^ 4) ders
  each_fits [] [] h = tt
  each_fits [] (der ∷ ders) h = absurd h
  each_fits (path ∷ paths) [] h = absurd h
  each_fits (path ∷ paths) (der ∷ ders) (h, hs) = (h.5, each_fits paths ders hs)

  -- From files that hold certificates, `certs_to_sig_db` makes a database that reads back as
  -- exactly their DER forms, in the order of the files, and changes nothing.
  pub certs_to_sig_db-read_db :
      (paths : List Text) (ders : List Bytes)
      → AllHold paths ders
      → (db : Bytes) × (certs_to_sig_db C paths s ≡ (ok db, s))
        × (read_db (length ders) db ≡ some ders)
  unfolding certs_to_sig_db
  certs_to_sig_db-read_db paths ders h = (
    db_layout ders,
    sig_db_from_lem [] paths ders h,
    read_db-db_layout ders (each_fits paths ders h),
  )
