-- ===== src/Efi/Signature/Auth.antt =====
-- lib/efi.py: certificates, and the variables that are made of them and signed with them. Their state
-- is the files and globals of the module (`EfiState`) and the trace of the commands; what a command
-- does to the files is the parameter `ran`. The directory of the temporary files is made on the
-- first use and removed at the end of the program, which no other code sees.
pub mod Images
pub mod Laws
mod Tests
use xcp_ng_tests.Prelude.{
  ℕ, Bool, true, false, ◌+◌, Option, none, some, List, [], ◌∷◌, ◌++◌, Text, text_eq, lit, truthy,
  contains, if◌then◌else◌,
}
use xcp_ng_tests.Effect.{
  Exn, Result, ok, err, Exec, pure, raise, lift, gets, check, ◌>>=◌, ◌>>◌, assertion_error,
  os_error,
}
use xcp_ng_tests.Efi.Struct.{Bytes}
use xcp_ng_tests.Efi.Signature.{
  Crypto, EfiState, Host, read_file, write_file, certs_to_sig_db, sign_efi_sig_db, timestamp,
}
use xcp_ng_tests.Efi.Signature.Formats.{get_secure_boot_guid}
use xcp_ng_tests.Commands.{Env, Trace}
use xcp_ng_tests.Commands.Local.{local_cmd}

abbrev pub World : Type 0
World = EfiState × Trace

abbrev pub Files : Type 0
Files = Text → Option Bytes

-- The machine of the tester: the answers to commands, and what the last one did to the files.
pub record Machine : Type 0 where
  pub env : Env
  pub host : Host
  pub ran : Trace → Files → Files
  -- `shutil.which('sbsign')`
  pub has_sbsign : Bool

abbrev pub on_files : {A : Type 0} → Exec EfiState A → Exec World A
on_files m w = let (r, s) = m w.0 in (r, (s, w.1))

-- `SECURE_BOOT_VARIABLES`
abbrev pub secure_boot_variables : List Text
secure_boot_variables = lit "PK" ∷ lit "KEK" ∷ lit "db" ∷ lit "dbx" ∷ []

-- `shutil.copyfile`
pub copyfile : Text → Text → Exec EfiState (Unit {0})
copyfile src dst = do contents ← read_file src; write_file dst contents

pub record Certificate : Type 0 where
  pub pub_file : Text
  pub key : Option Text

-- An entry of `other_certs`.
pub data OtherCert : Type 0 where
  cert : Certificate → OtherCert
  path : Text → OtherCert

-- `EFIAuth`; `auth` is the path of the .auth file.
pub record Auth : Type 0 where
  pub name : Text
  pub guid : Bytes
  pub owner_cert : Option Certificate
  pub other_certs : List OtherCert
  pub efi_signature_list : Bytes
  pub auth_data : Option Bytes
  pub auth : Text

-- The condition of the second assertion of the constructor.
has_key : Option Certificate → Bool
has_key none = true
has_key (some c) = elim c.key [ none ↦ false | some key ↦ true ]

other_paths : List OtherCert → List Text
other_paths [] = []
other_paths (cert c ∷ others) = c.pub_file ∷ other_paths others
other_paths (path p ∷ others) = p ∷ other_paths others

-- The files that the signature list is made of.
pub cert_paths : Option Certificate → List OtherCert → List Text
cert_paths none others = other_paths others
cert_paths (some owner) others = owner.pub_file ∷ other_paths others

pub is_signed : Auth → Bool
is_signed a = elim a.auth_data [ none ↦ false | some bytes ↦ true ]

get_owner_cert : Auth → Result Certificate
get_owner_cert a = elim a.owner_cert [ none ↦ err assertion_error | some c ↦ ok c ]

get_key : Certificate → Result Text
get_key c = elim c.key [ none ↦ err assertion_error | some key ↦ ok key ]

copy_auth_data : Auth → Auth → Exec EfiState Auth
copy_auth_data a copied =
    if is_signed a
    then copyfile a.auth copied.auth >>= (λ _. pure (record copied { auth_data = a.auth_data }))
    else pure copied

module _ (M : Machine) where
  -- `_tempdir.getfile`, which makes an empty file.
  pub getfile : Text → Exec EfiState Text
  getfile suffix s =
      let name = M.host.mkstemp s.temp_files suffix in
      (
        ok name,
        record s {
          temp_files = s.temp_files + 1;
          files = λ q. if text_eq name q then some [] else s.files q;
        },
      )

  -- `commands.local_cmd(cmd)`, with what it does to the files, whether it raises or not.
  pub run_local : List Text → Exec World (Unit {0})
  run_local cmd (s, t) =
      let (r, t') = local_cmd M.env cmd true true t in
      (elim r [ ok out ↦ ok tt | err e ↦ err e ], (record s { files = M.ran t' s.files }, t'))

  pub self_signed_cert : Text → Exec World Certificate
  self_signed_cert common_name = do
    pub_file ← on_files (getfile (lit ".pem"))
    key ← on_files (getfile (lit ".pem"))
    run_local (
        lit "openssl"
        ∷ lit "req"
        ∷ lit "-new"
        ∷ lit "-x509"
        ∷ lit "-newkey"
        ∷ lit "rsa:2048"
        ∷ lit "-subj"
        ∷ (lit "/CN=" ++ (common_name ++ lit "/"))
        ∷ lit "-nodes"
        ∷ lit "-keyout"
        ∷ key
        ∷ lit "-sha256"
        ∷ lit "-days"
        ∷ lit "3650"
        ∷ lit "-out"
        ∷ pub_file
        ∷ [])
    pure (record { pub_file = pub_file; key = some key })

  copy_key : Option Text → Exec EfiState (Option Text)
  copy_key none = pure none
  copy_key (some key) = do newkey ← getfile (lit ".pem"); copyfile key newkey; pure (some newkey)

  pub copy_cert : Certificate → Exec EfiState Certificate
  copy_cert c = do
    newpub ← getfile (lit ".pem")
    copyfile c.pub_file newpub
    newkey ← copy_key c.key
    pure (record { pub_file = newpub; key = newkey })

  module _ (C : Crypto) where
    -- `Certificate.sign_efi_sig_db`
    pub cert_sign_efi_sig_db : Certificate → Text → Bytes → Option Bytes → Exec EfiState Bytes
    cert_sign_efi_sig_db c var sig_db guid = do
      key ← lift (get_key c)
      time ← timestamp C M.host
      sign_efi_sig_db C M.host sig_db var key c.pub_file (some time) guid

    -- The constructor of `EFIAuth`.
    pub new_auth : Text → Option Certificate → List OtherCert → Exec EfiState Auth
    new_auth name owner_cert other_certs = do
      check (contains secure_boot_variables name)
      check (has_key owner_cert)
      guid ← lift (get_secure_boot_guid name)
      sig_db ← certs_to_sig_db C (cert_paths owner_cert other_certs)
      auth ← getfile (lit ".auth")
      pure (record {
        name = name;
        guid = guid;
        owner_cert = owner_cert;
        other_certs = other_certs;
        efi_signature_list = sig_db;
        auth_data = none;
        auth = auth;
      })

    pub self_signed_auth : Text → List OtherCert → Exec World Auth
    self_signed_auth name other_certs = do
      owner ← self_signed_cert (name ++ lit " Owner")
      on_files (new_auth name (some owner) other_certs)

    -- The object that is signed, with the new value of `_auth_data`. Nothing raises behind the
    -- assignment, so that an object whose signing raised is as it was.
    pub sign_with : Auth → Auth → Exec EfiState Auth
    sign_with a signer = do
      owner_cert ← lift (get_owner_cert signer)
      signed ← cert_sign_efi_sig_db owner_cert a.name a.efi_signature_list (some a.guid)
      write_file a.auth signed
      pure (record a { auth_data = some signed })

    pub sign_auth : Auth → Auth → Exec EfiState Auth
    sign_auth a to_be_signed = sign_with to_be_signed a

    -- `EFIAuth.copy`
    pub copy_auth : Auth → Option Text → Exec EfiState Auth
    copy_auth a name = do
      owner ← lift (get_owner_cert a)
      owner_copy ← copy_cert owner
      copied ←
          new_auth (elim name [ none ↦ a.name | some n ↦ if truthy n then n else a.name ])
            (some owner_copy) a.other_certs
      copy_auth_data a (record copied { efi_signature_list = a.efi_signature_list })
