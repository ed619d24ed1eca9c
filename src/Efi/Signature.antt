-- ===== src/Efi/Signature.antt =====
-- lib/efi.py: signature lists (ESL), signature databases and authenticated variables. The
-- `cryptography` package is the parameter `Crypto`; the clock and the names of temporary files are
-- the parameter `Host`.
pub mod Auth
pub mod Authenticated
pub mod Formats
pub mod RoundTrip
mod Tests
use xcp_ng_tests.Prelude.{
  ℕ, suc, ◌+◌, ◌-◌, Option, none, some, List, [], ◌∷◌, ◌++◌, Text, text_eq, lit, length, drop, take,
  list_eq, ◌==◌, if◌then◌else◌,
}
use xcp_ng_tests.Effect.{
  Result, ok, err, value_error, os_error, key_error, assertion_error, bind, Exn, Exec, pure, raise,
  lift, gets, ◌>>=◌, ◌>>◌,
}
use xcp_ng_tests.Efi.Struct.{Bytes, efi_pack, num, raw, u32, calcsize}
use xcp_ng_tests.Efi.Signature.Formats.{
  DateTime, efi_time, win_certificate, win_certificate_uefi_guid, efi_signature_list,
  efi_signature_data, efi_cert_x509_guid, efi_cert_pkcs7_guid, vates_guid, utf_16_le,
  get_secure_boot_guid,
}

-- What the code uses of the `cryptography` package. Loading raises on bytes of the wrong form.
pub record Crypto : Type 1 where
  pub Cert : Type 0
  pub Key : Type 0
  pub load_pem_x509_certificate : Bytes → Result Cert
  pub load_der_x509_certificate : Bytes → Result Cert
  pub public_bytes : Cert → Bytes
  pub load_pem_private_key : Bytes → Result Key
  pub pkcs7_sign : Bytes → Cert → Key → Result Bytes

-- The state that the module changes: the file system and its globals.
pub record EfiState : Type 0 where
  pub files : Text → Option Bytes
  pub time_offset : ℕ
  pub temp_files : ℕ
  pub p7_out : Text

-- `datetime.now()`, `time_seed + timedelta(seconds=…)` and the names that `mkstemp` chooses.
pub record Host : Type 0 where
  pub now : EfiState → DateTime
  pub seed_plus : ℕ → DateTime
  pub mkstemp : ℕ → Text → Text

-- `open(path, 'rb')` and `read`
unfoldable pub read_file : Text → Exec EfiState Bytes
read_file path s = elim (s.files path) [ none ↦ (err os_error, s) | some b ↦ (ok b, s) ]

-- `open(path, 'wb')` and `write`
unfoldable pub write_file : Text → Bytes → Exec EfiState (Unit {0})
write_file path b s =
    (ok tt, record s { files = λ q. if text_eq path q then some b else s.files q })

-- The signature list of one certificate in DER form.
pub esl_of_der : Bytes → Result Bytes
esl_of_der der =
    let signature_list_size =
      length der + calcsize efi_signature_list + calcsize efi_signature_data in
    let signature_size = signature_list_size - calcsize efi_signature_list in
    bind
      (efi_pack efi_signature_list
        (raw efi_cert_x509_guid ∷ num signature_list_size ∷ num 0 ∷ num signature_size ∷ []))
      λ header.
        bind (efi_pack efi_signature_data (raw vates_guid ∷ []))
          λ owner. ok (header ++ (owner ++ der))

-- `EFI_AT_ATTRS_BYTES`
pub efi_at_attrs : Bytes
efi_at_attrs = 0x27 ∷ 0 ∷ 0 ∷ 0 ∷ []

pub create_auth2_header : Bytes → Bytes → Result Bytes
create_auth2_header sig_db timestamp =
    bind
      (efi_pack win_certificate
        (num (length sig_db + calcsize win_certificate_uefi_guid) ∷ num 0x200 ∷ num 0x0EF1 ∷ []))
      λ win_cert. ok (timestamp ++ (win_cert ++ efi_cert_pkcs7_guid))

pub pack_time : DateTime → Result Bytes
pack_time t = efi_pack efi_time (
    num t.year
    ∷ num t.month
    ∷ num t.day
    ∷ num t.hour
    ∷ num t.minute
    ∷ num t.second
    ∷ num 0
    ∷ num 0
    ∷ num 0
    ∷ num 0
    ∷ num 0
    ∷ [])

module _ (C : Crypto) where
  -- A PEM file, or if that raises `ValueError` a DER file.
  pub load_certificate : Bytes → Result (C.Cert)
  load_certificate cert_raw = elim (C.load_pem_x509_certificate cert_raw) [
    | ok cert ↦ ok cert
    | err value_error ↦ C.load_der_x509_certificate cert_raw
    | err e ↦ err e
  ]

  pub cert_to_efi_sig_list : Text → Exec EfiState Bytes
  cert_to_efi_sig_list cert = do
    cert_raw ← read_file cert
    cert_obj ← lift (load_certificate cert_raw)
    lift (esl_of_der (C.public_bytes cert_obj))

  -- The loop of `certs_to_sig_db`, over what `db` holds so far.
  sig_db_from : Bytes → List Text → Exec EfiState Bytes
  sig_db_from db [] = pure db
  sig_db_from db (cert ∷ certs) = do tmp ← cert_to_efi_sig_list cert; sig_db_from (db ++ tmp) certs

  pub certs_to_sig_db : List Text → Exec EfiState Bytes
  certs_to_sig_db certs = sig_db_from [] certs

  pub sign : Bytes → Text → Text → Exec EfiState Bytes
  sign payload key_file cert_file = do
    key_bytes ← read_file key_file
    priv_key ← lift (C.load_pem_private_key key_bytes)
    cert_bytes ← read_file cert_file
    cert ← lift (C.load_pem_x509_certificate cert_bytes)
    lift (C.pkcs7_sign payload cert priv_key)

  -- `if p7_out: …`
  save_p7 : Bytes → Exec EfiState (Unit {0})
  save_p7 p7 s = elim s.p7_out [ [] ↦ (ok tt, s) | c ∷ path ↦ write_file (c ∷ path) p7 s ]

  module _ (H : Host) where
    pub sign_efi_sig_db :
        Bytes → Text → Text → Text → Option DateTime → Option Bytes → Exec EfiState Bytes
    sign_efi_sig_db sig_db var key cert time guid = do
      guid_bytes ← lift (elim guid [ none ↦ get_secure_boot_guid var | some g ↦ ok g ])
      at ← gets (λ s. elim time [ none ↦ H.now s | some t ↦ t ])
      timestamp ← lift (pack_time at)
      var_utf16 ← lift (utf_16_le var)
      p7 ← sign (var_utf16 ++ (guid_bytes ++ (efi_at_attrs ++ (timestamp ++ sig_db)))) key cert
      save_p7 p7
      header ← lift (create_auth2_header p7 timestamp)
      pure (header ++ (p7 ++ sig_db))

    -- `timestamp()`: every call is one second after the one before.
    unfoldable pub timestamp : Exec EfiState DateTime
    timestamp s =
        let s' = record s { time_offset = s.time_offset + 1 } in
        (ok (H.seed_plus s'.time_offset), s')

-- `data.index(pattern)`, the position of the first occurrence, counted from `i`.
pub index_from : Bytes → Bytes → ℕ → Result ℕ
index_from pattern [] i = if list_eq ◌==◌ pattern [] then ok i else err value_error
index_from pattern (b ∷ bytes) i =
    if list_eq ◌==◌ (take (length pattern) (b ∷ bytes)) pattern
    then ok i
    else index_from pattern bytes (i + 1)

pub esl_from_auth_bytes : Bytes → Result Bytes
esl_from_auth_bytes auth_data =
    bind (index_from efi_cert_x509_guid auth_data 0) λ i. ok (drop i auth_data)

pub esl_from_auth_file : Text → Exec EfiState Bytes
esl_from_auth_file auth = do data_read ← read_file auth; lift (esl_from_auth_bytes data_read)
