-- ===== src/Efi/Signature/Tests.antt =====
-- Signature databases and authenticated variables over a stand-in for the `cryptography` package,
-- whose certificates are their own DER form and whose signature of anything is three bytes.
use xcp_ng_tests.Prelude.{
  zero, if◌then◌else◌, ◌≡◌, refl, none, some, [], ◌∷◌, ◌++◌, lit, text_eq, arith,
}
use xcp_ng_tests.Effect.{Result, ok, err, value_error, ◌>>=◌}
use xcp_ng_tests.Efi.Struct.{
  Bytes, le_bytes, pack_uint, pack_raw, pack_field, efi_pack, calcsize, pack_guid,
}
use xcp_ng_tests.Efi.Signature.{
  Crypto, EfiState, Host, read_file, load_certificate, certs_to_sig_db, sign_efi_sig_db, sign,
  save_p7, pack_time, create_auth2_header, esl_from_auth_bytes,
}
use xcp_ng_tests.Efi.Signature.Formats.{
  DateTime, efi_cert_pkcs7_guid, image_security_database_guid, global_variable_guid, vates_guid,
  guid_bytes, utf_16_le_char, efi_cert_x509_guid, get_secure_boot_guid, utf_16_le,
}
use xcp_ng_tests.Efi.Signature.RoundTrip.{read_db, certs_to_sig_db-read_db}
use xcp_ng_tests.Efi.Signature.Authenticated.{
  read_auth2, sign_efi_sig_db-read_auth2, esl_from_auth_bytes-first,
}

abbrev pem : Bytes → Result Bytes
pem (zero ∷ bytes) = ok bytes
pem bytes = err value_error

abbrev crypto : Crypto
crypto = record {
  Cert = Bytes;
  Key = Bytes;
  load_pem_x509_certificate = pem;
  load_der_x509_certificate = λ b. ok b;
  public_bytes = λ b. b;
  load_pem_private_key = λ b. ok b;
  pkcs7_sign = λ payload cert key. ok (3 ∷ 4 ∷ 5 ∷ []);
}

abbrev noon : DateTime
noon = record { year = 2026; month = 1; day = 2; hour = 12; minute = 0; second = 0 }

abbrev host : Host
host = record { now = λ s. noon; seed_plus = λ n. noon; mkstemp = λ n suffix. suffix }

-- `a` is a certificate in PEM form, and every other file one in DER form.
abbrev disk : EfiState
disk = record {
  files = λ path. if text_eq path (lit "a") then some (0 ∷ 7 ∷ 8 ∷ []) else some (2 ∷ 9 ∷ []);
  time_offset = 0;
  temp_files = 0;
  p7_out = [];
}

certs_to_sig_db-read_db_example :
    (db : Bytes) × (certs_to_sig_db crypto (lit "a" ∷ lit "b" ∷ []) disk ≡ (ok db, disk))
    × (read_db 2 db ≡ some ((7 ∷ 8 ∷ []) ∷ (2 ∷ 9 ∷ []) ∷ []))
unfolding load_certificate lit
certs_to_sig_db-read_db_example =
    certs_to_sig_db-read_db crypto disk (lit "a" ∷ lit "b" ∷ []) ((7 ∷ 8 ∷ []) ∷ (2 ∷ 9 ∷ []) ∷ [])
      (
        (0 ∷ 7 ∷ 8 ∷ [], 7 ∷ 8 ∷ [], refl, refl, refl, omega arith),
        ((2 ∷ 9 ∷ [], 2 ∷ 9 ∷ [], refl, refl, refl, omega arith), tt),
      )

esl_from_auth_bytes-first_example :
    esl_from_auth_bytes ((1 ∷ 2 ∷ 3 ∷ []) ++ (efi_cert_x509_guid ++ (9 ∷ 9 ∷ [])))
    ≡ ok (efi_cert_x509_guid ++ (9 ∷ 9 ∷ []))
unfolding efi_cert_x509_guid guid_bytes le_bytes
esl_from_auth_bytes-first_example =
    esl_from_auth_bytes-first (1 ∷ 2 ∷ 3 ∷ []) (9 ∷ 9 ∷ []) (refl, (refl, (refl, tt)))

-- A database of one byte, signed for the variable `db` with the key and certificate of `a`.
signed : Result Bytes × EfiState
signed = sign_efi_sig_db crypto host (9 ∷ []) (lit "db") (lit "a") (lit "a") none none disk

abbrev variable : Bytes
variable =
    (234 ∷ 7 ∷ 1 ∷ 2 ∷ 12 ∷ 0 ∷ 0 ∷ 0 ∷ 0 ∷ 0 ∷ 0 ∷ 0 ∷ 0 ∷ 0 ∷ 0 ∷ 0 ∷ [])
    ++ (27 ∷ 0 ∷ 0 ∷ 0 ∷ 0 ∷ 2 ∷ 0xF1 ∷ 0x0E ∷ [])
    ++ (0x9D ∷ 0xD2 ∷ 0xAF ∷ 0x4A ∷ 0xDF ∷ 0x68 ∷ 0xEE ∷ 0x49 ∷ 0x8A ∷ 0xA9 ∷ 0x34 ∷ 0x7D ∷ 0x37
        ∷ 0x56 ∷ 0x65 ∷ 0xA7 ∷ [])
    ++ (3 ∷ 4 ∷ 5 ∷ 9 ∷ [])

signed_lem : signed ≡ (ok variable, disk)
unfolding signed sign_efi_sig_db get_secure_boot_guid utf_16_le utf_16_le_char pack_time sign
    read_file save_p7 create_auth2_header image_security_database_guid efi_cert_pkcs7_guid
    guid_bytes efi_pack pack_field pack_uint pack_raw le_bytes calcsize ◌>>=◌ lit
signed_lem = refl

sign_efi_sig_db-read_auth2_example :
    (ts : Bytes) × (p7 : Bytes) × (read_auth2 variable ≡ some (ts, p7, 9 ∷ []))
    × (pack_time noon ≡ ok ts)
unfolding signed
sign_efi_sig_db-read_auth2_example =
    sign_efi_sig_db-read_auth2 crypto host (9 ∷ []) (lit "db") (lit "a") (lit "a") none none disk
      signed_lem

-- The GUID constants are what `pack_guid` makes of their parts.
guids_packed :
    (pack_guid 0x4AAFD29D 0x68DF 0x49EE (0x8A ∷ 0xA9 ∷ 0x34 ∷ 0x7D ∷ 0x37 ∷ 0x56 ∷ 0x65 ∷ 0xA7 ∷ [])
      ≡ ok efi_cert_pkcs7_guid)
    × (pack_guid 0xFDD69FA4 0x3E66 0x11EB
          (0x8C ∷ 0x1B ∷ 0x98 ∷ 0x3B ∷ 0x8F ∷ 0xB6 ∷ 0xDA ∷ 0xCD ∷ [])
        ≡ ok vates_guid)
    × (pack_guid 0xA5C059A1 0x94E4 0x4AA7
          (0x87 ∷ 0xB5 ∷ 0xAB ∷ 0x15 ∷ 0x5C ∷ 0x2B ∷ 0xF0 ∷ 0x72 ∷ [])
        ≡ ok efi_cert_x509_guid)
    × (pack_guid 0x8be4df61 0x93ca 0x11d2
          (0xaa ∷ 0x0d ∷ 0x00 ∷ 0xe0 ∷ 0x98 ∷ 0x03 ∷ 0x2b ∷ 0x8c ∷ [])
        ≡ ok global_variable_guid)
unfolding pack_guid efi_cert_pkcs7_guid vates_guid efi_cert_x509_guid global_variable_guid
    guid_bytes efi_pack pack_field pack_uint pack_raw le_bytes calcsize
guids_packed = (refl, refl, refl, refl)
