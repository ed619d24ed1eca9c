-- ===== src/Efi/Signature/Auth/Images.antt =====
-- lib/efi.py: signing the image of a boot loader, by `sbsign` or by `pesign`.
use mathlib.Core.List.{reverse}
use xcp_ng_tests.Prelude.{
  Bool, true, false, ◌+◌, ◌==◌, Option, none, some, List, [], ◌∷◌, ◌++◌, Text, lit, starts_with,
  if◌then◌else◌,
}
use xcp_ng_tests.Effect.{ok, Exec, pure, lift, ◌>>=◌, ◌>>◌, try_finally}
use xcp_ng_tests.Efi.Signature.{EfiState}
use xcp_ng_tests.Efi.Signature.Auth.{
  Machine, World, Auth, on_files, run_local, get_owner_cert, get_key,
}

-- A text read backwards has a character that is no dot before the next slash.
has_name : Text → Bool
has_name [] = false
has_name (c ∷ t) = if c == b'/' then false else if c == b'.' then has_name t else true

-- The extension of a path read backwards, and what stands before it, backwards.
ext_from : Text → Text → Option (Text × Text)
ext_from ext [] = none
ext_from ext (c ∷ t) =
    let longer = ext_from (c ∷ ext) t in
    if c == b'/'
    then none
    else if c == b'.'
    then (if has_name t then some (c ∷ ext, t) else none)
    else longer

-- `fpath + '-signed' + ext` for `os.path.splitext`.
unfoldable pub get_signed_name : Text → Text
unfolding ext_from has_name
get_signed_name image = elim (ext_from [] (reverse image)) [
  | none ↦ image ++ lit "-signed"
  | some (ext, fpath) ↦ reverse fpath ++ (lit "-signed" ++ ext)
]

module _ (M : Machine) where
  -- `TemporaryDirectory(prefix='certdir_')`, and its removal with all that it holds.
  make_certdir : Exec EfiState Text
  make_certdir s = (
    ok (M.host.mkstemp s.temp_files (lit "certdir_")),
    record s { temp_files = s.temp_files + 1 },
  )

  remove_certdir : Text → Exec EfiState (Unit {0})
  remove_certdir certdir s = (
    ok tt,
    record s { files = λ q. if starts_with (certdir ++ lit "/") q then none else s.files q },
  )

  pub pesign_commands : Text → Text → Text → Text → Text → List (List Text)
  pesign_commands certdir key cert name image =
      let common_name = name ++ lit " Owner" in
      let pk12 = certdir ++ (lit "/" ++ (name ++ lit ".p12")) in
      (lit "certutil" ∷ lit "-N" ∷ lit "-d" ∷ certdir ∷ lit "--empty-password" ∷ [])
      ∷ (lit "certutil"
          ∷ lit "-A"
          ∷ lit "-n"
          ∷ common_name
          ∷ lit "-d"
          ∷ certdir
          ∷ lit "-t"
          ∷ lit "CT,CT,CT"
          ∷ lit "-i"
          ∷ cert
          ∷ [])
      ∷ (lit "openssl"
          ∷ lit "pkcs12"
          ∷ lit "-export"
          ∷ lit "-out"
          ∷ pk12
          ∷ lit "-in"
          ∷ cert
          ∷ lit "-inkey"
          ∷ key
          ∷ lit "-passin"
          ∷ lit "pass:root"
          ∷ lit "-passout"
          ∷ lit "pass:root"
          ∷ [])
      ∷ (lit "pk12util" ∷ lit "-d" ∷ certdir ∷ lit "-i" ∷ pk12 ∷ lit "-W" ∷ lit "root" ∷ [])
      ∷ (lit "pesign"
          ∷ lit "-f"
          ∷ lit "-n"
          ∷ certdir
          ∷ lit "-c"
          ∷ common_name
          ∷ lit "-s"
          ∷ lit "-i"
          ∷ image
          ∷ lit "-o"
          ∷ get_signed_name image
          ∷ [])
      ∷ []

  run_all : List (List Text) → Exec World (Unit {0})
  run_all [] = pure tt
  run_all (cmd ∷ cmds) = run_local M cmd >> run_all cmds

  pub pesign : Text → Text → Text → Text → Exec World Text
  pesign key cert name image = do
    certdir ← on_files make_certdir
    try_finally
        (run_all (pesign_commands certdir key cert name image) >>= λ _.
          pure (get_signed_name image))
        (on_files (remove_certdir certdir))

  sbsign : Text → Text → Text → Exec World Text
  sbsign key cert image =
      run_local M (
        lit "sbsign"
        ∷ lit "--key"
        ∷ key
        ∷ lit "--cert"
        ∷ cert
        ∷ image
        ∷ lit "--output"
        ∷ get_signed_name image
        ∷ [])
      >>= λ _. pure (get_signed_name image)

  pub sign_image : Auth → Text → Exec World Text
  sign_image a image = do
    owner ← lift (get_owner_cert a)
    key ← lift (get_key owner)
    if M.has_sbsign then sbsign key owner.pub_file image else pesign key owner.pub_file a.name image
