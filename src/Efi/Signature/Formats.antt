-- ===== src/Efi/Signature/Formats.antt =====
-- lib/efi.py: the formats and constants of the UEFI structures, and the names of the variables.
use xcp_ng_tests.Prelude.{
  ℕ, ◌+◌, ◌-◌, ◌/◌, ◌%◌, ◌≡◌, refl, List, [], ◌∷◌, ◌++◌, ◌&&◌, Text, text_eq, lit, length, leb, ltb,
  if◌then◌else◌,
}
use xcp_ng_tests.Effect.{Result, ok, err, key_error, unicode_encode_error, bind}
use xcp_ng_tests.Efi.Struct.{Bytes, Field, u8, u16, u32, efi_guid, le_bytes}

pub record DateTime : Type 0 where
  pub year : ℕ
  pub month : ℕ
  pub day : ℕ
  pub hour : ℕ
  pub minute : ℕ
  pub second : ℕ

abbrev pub win_certificate : List Field
win_certificate = u32 ∷ u16 ∷ u16 ∷ []

abbrev pub win_certificate_uefi_guid : List Field
win_certificate_uefi_guid = win_certificate ++ (efi_guid ∷ [])

abbrev pub efi_time : List Field
efi_time = u16 ∷ u8 ∷ u8 ∷ u8 ∷ u8 ∷ u8 ∷ u8 ∷ u32 ∷ u16 ∷ u8 ∷ u8 ∷ []

abbrev pub efi_signature_data : List Field
efi_signature_data = efi_guid ∷ []

abbrev pub efi_signature_list : List Field
efi_signature_list = efi_guid ∷ u32 ∷ u32 ∷ u32 ∷ []

-- The bytes of a GUID whose parts are in range: see `guids_packed`.
unfoldable pub guid_bytes : ℕ → ℕ → ℕ → Bytes → Bytes
guid_bytes data1 data2 data3 data4 =
    le_bytes 4 data1 ++ (le_bytes 2 data2 ++ (le_bytes 2 data3 ++ data4))

unfoldable pub efi_cert_pkcs7_guid : Bytes
efi_cert_pkcs7_guid =
    guid_bytes 0x4AAFD29D 0x68DF 0x49EE (0x8A ∷ 0xA9 ∷ 0x34 ∷ 0x7D ∷ 0x37 ∷ 0x56 ∷ 0x65 ∷ 0xA7 ∷ [])

unfoldable pub vates_guid : Bytes
vates_guid =
    guid_bytes 0xFDD69FA4 0x3E66 0x11EB (0x8C ∷ 0x1B ∷ 0x98 ∷ 0x3B ∷ 0x8F ∷ 0xB6 ∷ 0xDA ∷ 0xCD ∷ [])

unfoldable pub efi_cert_x509_guid : Bytes
efi_cert_x509_guid =
    guid_bytes 0xA5C059A1 0x94E4 0x4AA7 (0x87 ∷ 0xB5 ∷ 0xAB ∷ 0x15 ∷ 0x5C ∷ 0x2B ∷ 0xF0 ∷ 0x72 ∷ [])

-- `as_bytes` of the two `GUID` objects.
unfoldable pub global_variable_guid : Bytes
global_variable_guid =
    guid_bytes 0x8be4df61 0x93ca 0x11d2 (0xaa ∷ 0x0d ∷ 0x00 ∷ 0xe0 ∷ 0x98 ∷ 0x03 ∷ 0x2b ∷ 0x8c ∷ [])

unfoldable pub image_security_database_guid : Bytes
image_security_database_guid =
    guid_bytes 0xd719b2cb 0x3d3a 0x4596 (0xa3 ∷ 0xbc ∷ 0xda ∷ 0xd0 ∷ 0x0e ∷ 0x67 ∷ 0x65 ∷ 0x6f ∷ [])

unfoldable pub get_secure_boot_guid : Text → Result Bytes
get_secure_boot_guid variable =
    if text_eq variable (lit "PK")
    then ok global_variable_guid
    else if text_eq variable (lit "KEK")
    then ok global_variable_guid
    else if text_eq variable (lit "db")
    then ok image_security_database_guid
    else if text_eq variable (lit "dbx")
    then ok image_security_database_guid
    else err key_error

-- One code point of `encode('utf-16-le')`; a lone surrogate cannot be encoded.
unfoldable pub utf_16_le_char : ℕ → Result Bytes
utf_16_le_char c =
    if leb 0xD800 c && ltb c 0xE000
    then err unicode_encode_error
    else if ltb c 0x10000
    then ok (le_bytes 2 c)
    else ok
        (le_bytes 2 (0xD800 + (c - 0x10000) / 1024) ++ le_bytes 2 (0xDC00 + (c - 0x10000) % 1024))

unfoldable pub utf_16_le : Text → Result Bytes
utf_16_le [] = ok []
utf_16_le (c ∷ t) = bind (utf_16_le_char c) λ b. bind (utf_16_le t) λ bs. ok (b ++ bs)

pub length-efi_cert_x509_guid : length efi_cert_x509_guid ≡ 16
unfolding efi_cert_x509_guid guid_bytes le_bytes
length-efi_cert_x509_guid = refl

pub length-efi_cert_pkcs7_guid : length efi_cert_pkcs7_guid ≡ 16
unfolding efi_cert_pkcs7_guid guid_bytes le_bytes
length-efi_cert_pkcs7_guid = refl

pub length-vates_guid : length vates_guid ≡ 16
unfolding vates_guid guid_bytes le_bytes
length-vates_guid = refl
