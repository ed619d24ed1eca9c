-- ===== src/Efi/Signature/Auth/Tests.antt =====
-- A variable of two certificates, signed by its own owner and copied, over a stand-in for the
-- `cryptography` package whose certificates are their own DER form.
use xcp_ng_tests.Prelude.{
  zero, true, false, if◌then◌else◌, ◌≡◌, refl, none, some, [], ◌∷◌, lit, text_eq, arith,
}
use xcp_ng_tests.Effect.{Result, ok, err, value_error, ◌>>=◌}
use xcp_ng_tests.Efi.Struct.{Bytes, le_bytes, pack_uint, pack_raw, pack_field, efi_pack, calcsize}
use xcp_ng_tests.Efi.Signature.{
  Crypto, EfiState, read_file, write_file, load_certificate, certs_to_sig_db, sig_db_from,
  cert_to_efi_sig_list, esl_of_der, sign_efi_sig_db, sign, save_p7, pack_time, create_auth2_header,
  timestamp,
}
use xcp_ng_tests.Efi.Signature.Formats.{
  DateTime, efi_cert_pkcs7_guid, image_security_database_guid, vates_guid, guid_bytes,
  utf_16_le_char, efi_cert_x509_guid, get_secure_boot_guid, utf_16_le,
}
use xcp_ng_tests.Efi.Signature.RoundTrip.{read_db}
use xcp_ng_tests.Efi.Signature.Auth.{
  Machine, Certificate, Auth, path, getfile, copyfile, has_key, other_paths, cert_paths, is_signed,
  get_owner_cert, get_key, copy_key, copy_cert, cert_sign_efi_sig_db, new_auth, sign_with,
  copy_auth, copy_auth_data,
}
use xcp_ng_tests.Efi.Signature.Auth.Images.{get_signed_name}
use xcp_ng_tests.Efi.Signature.Auth.Laws.{IsSigned, sign_with-read_db, IsCopy, copy_auth-IsCopy}

abbrev pem : Bytes → Result Bytes
pem (zero ∷ bytes) = ok bytes
pem bytes = err value_error

abbrev crypto : Crypto
crypto = record {
  Cert = Bytes;
  Key = Bytes;
  load_pem_x509_certificate = pem;
  load_der_x509_certificate = λ b. ok b;
  public_bytes = λ b. b;
  load_pem_private_key = λ b. ok b;
  pkcs7_sign = λ payload cert key. ok (3 ∷ 4 ∷ 5 ∷ []);
}

abbrev noon : DateTime
noon = record { year = 2026; month = 1; day = 2; hour = 12; minute = 0; second = 0 }

abbrev machine : Machine
machine = record {
  env = record {
    reply = λ t. record { returncode = 0; stdout = []; ssherr = [] };
    clock = λ t. 0;
    decode = λ b. some b;
    decode_replace = λ b. b;
    is_ipv6 = λ a. false;
    ignore_ssh_banner = false;
    on_windows = false;
    pid = [];
  };
  host = record { now = λ s. noon; seed_plus = λ n. noon; mkstemp = λ n suffix. n ∷ suffix };
  ran = λ t files. files;
  has_sbsign = true;
}

abbrev disk : EfiState
disk = record {
  files = λ path. if text_eq path (lit "a") then some (0 ∷ 7 ∷ 8 ∷ []) else some (2 ∷ 9 ∷ []);
  time_offset = 0;
  temp_files = 0;
  p7_out = [];
}

abbrev owner : Certificate
owner = record { pub_file = lit "a"; key = some (lit "k") }

abbrev nothing : Auth
nothing = record {
  name = [];
  guid = [];
  owner_cert = none;
  other_certs = [];
  efi_signature_list = [];
  auth_data = none;
  auth = [];
}

abbrev the : Result Auth → Auth
the (ok a) = a
the (err e) = nothing

made : Result Auth × EfiState
made = new_auth machine crypto (lit "db") (some owner) (path (lit "b") ∷ []) disk

signed : Result Auth × EfiState
signed = sign_with machine crypto (the made.0) (the made.0) made.1

copied : Result Auth × EfiState
copied = copy_auth machine crypto (the signed.0) none signed.1

made_lem :
    new_auth machine crypto (lit "db") (some owner) (path (lit "b") ∷ []) disk
    ≡ (ok (the made.0), made.1)
unfolding made new_auth has_key get_secure_boot_guid image_security_database_guid certs_to_sig_db
    sig_db_from cert_to_efi_sig_list load_certificate esl_of_der cert_paths other_paths getfile
    read_file efi_cert_x509_guid vates_guid guid_bytes efi_pack pack_field pack_uint pack_raw
    le_bytes calcsize ◌>>=◌ lit
made_lem = refl

signed_lem :
    sign_with machine crypto (the made.0) (the made.0) made.1 ≡ (ok (the signed.0), signed.1)
unfolding made signed sign_with cert_sign_efi_sig_db get_owner_cert get_key timestamp
    sign_efi_sig_db utf_16_le utf_16_le_char pack_time sign save_p7 create_auth2_header write_file
    efi_cert_pkcs7_guid new_auth has_key get_secure_boot_guid image_security_database_guid
    certs_to_sig_db sig_db_from cert_to_efi_sig_list load_certificate esl_of_der cert_paths
    other_paths getfile read_file efi_cert_x509_guid vates_guid guid_bytes efi_pack pack_field
    pack_uint pack_raw le_bytes calcsize ◌>>=◌ lit
signed_lem = refl

copied_lem : copy_auth machine crypto (the signed.0) none signed.1 ≡ (ok (the copied.0), copied.1)
unfolding copied copy_auth copy_auth_data copy_cert copy_key copyfile is_signed made signed
    sign_with cert_sign_efi_sig_db get_owner_cert get_key timestamp sign_efi_sig_db utf_16_le
    utf_16_le_char pack_time sign save_p7 create_auth2_header write_file efi_cert_pkcs7_guid
    new_auth has_key get_secure_boot_guid image_security_database_guid certs_to_sig_db sig_db_from
    cert_to_efi_sig_list load_certificate esl_of_der cert_paths other_paths getfile read_file
    efi_cert_x509_guid vates_guid guid_bytes efi_pack pack_field pack_uint pack_raw le_bytes
    calcsize ◌>>=◌ lit
copied_lem = refl

sign_with-read_db_example :
    (db : Bytes) × IsSigned machine crypto (the made.0) db (the signed.0) made.1 signed.1
    × (read_db 2 db ≡ some ((7 ∷ 8 ∷ []) ∷ (2 ∷ 9 ∷ []) ∷ []))
unfolding cert_paths other_paths load_certificate lit
sign_with-read_db_example =
    sign_with-read_db machine crypto (lit "db") (some owner) (path (lit "b") ∷ [])
      ((7 ∷ 8 ∷ []) ∷ (2 ∷ 9 ∷ []) ∷ []) (the made.0) disk made.1
      (
        (0 ∷ 7 ∷ 8 ∷ [], 7 ∷ 8 ∷ [], refl, refl, refl, omega arith),
        ((2 ∷ 9 ∷ [], 2 ∷ 9 ∷ [], refl, refl, refl, omega arith), tt),
      )
      made_lem signed_lem

copy_auth-IsCopy_example : IsCopy (the signed.0) (the copied.0) copied.1
copy_auth-IsCopy_example = copy_auth-IsCopy machine crypto (the signed.0) none signed.1 copied_lem

-- The name of a signed image has its mark before the extension, which is that of the last component.
signed_name : get_signed_name (lit "/a.b/grub.efi") ≡ lit "/a.b/grub-signed.efi"
unfolding get_signed_name lit
signed_name = refl

signed_name_plain : get_signed_name (lit "/a.b/.grub") ≡ lit "/a.b/.grub-signed"
unfolding get_signed_name lit
signed_name_plain = refl
