-- ===== src/Pool/Certs.antt =====
-- lib/pool.py: the UEFI certificates of a pool, and hosts and ISO images that come and go.
pub mod Laws
mod Tests
use xcp_ng_tests.Prelude.{
  ℕ, Bool, true, false, not, ◌&&◌, ◌||◌, Option, none, some, List, [], ◌∷◌, ◌++◌, Text, text_eq,
  lit, split, join, includes, contains, ltb, parse_int, if◌then◌else◌,
}
use xcp_ng_tests.Effect.{
  Exn, Result, ok, err, bind, Exec, pure, raise, lift, check, catch_ssh, try_finally, for_each,
  ◌>>=◌, ◌>>◌, value_error, key_error, runtime_error, exception,
}
use xcp_ng_tests.Commands.{Env, Trace}
use xcp_ng_tests.Common.Values.{set_item}
use xcp_ng_tests.Common.Waiting.{wait_for}
use xcp_ng_tests.Common.Xe.{text, bool, stdout_of}
use xcp_ng_tests.Objects.{Obj, on_trace, with_obj, assign, obj_clock}
use xcp_ng_tests.Hosts.{
  Host, Pool, before_8_3, varstore_dir, host_ssh, host_run, host_xe, host_scp, hosts_uuids,
  get_iso_sr,
}
use xcp_ng_tests.Hosts.Power.{rounds_for, reboot_verify}
use xcp_ng_tests.Sr.{scan}

-- A dictionary of certificate names and files.
abbrev pub Files : Type 0
Files = List (Text × Text)

pub file_of : Text → Files → Option Text
file_of name [] = none
file_of name ((key, file) ∷ files) = if text_eq key name then some file else file_of name files

pub values : Files → List Text
values [] = []
values ((key, file) ∷ files) = file ∷ values files

-- `name in files`
pub has_cert : Text → Files → Bool
has_cert name files = elim (file_of name files) [ none ↦ false | some file ↦ true ]

-- `files[name]`
pub cert_file : Text → Files → Result Text
cert_file name files = elim (file_of name files) [ none ↦ err key_error | some file ↦ ok file ]

-- The file for `dbx`, or the word `none`.
pub dbx_of : Files → Text
dbx_of files = elim (file_of (lit "dbx") files) [ none ↦ lit "none" | some file ↦ file ]

-- `[d['PK'], d['KEK'], d['db'], …]`
pub install_params : Files → Result (List Text)
install_params files = bind (cert_file (lit "PK") files) λ pk.
    bind (cert_file (lit "KEK") files)
      λ kek. bind (cert_file (lit "db") files) λ db. ok (pk ∷ kek ∷ db ∷ dbx_of files ∷ [])

-- The condition of a save: no certificate at all, or at least the three.
pub restorable : Files → Bool
restorable [] = true
restorable (f ∷ files) =
    has_cert (lit "PK") (f ∷ files)
    && (has_cert (lit "KEK") (f ∷ files) && has_cert (lit "db") (f ∷ files))

-- `int(output.split(".")[0])`
major_version : Text → Result ℕ
major_version output = elim (split b'.' output) [
  | [] ↦ err value_error
  | part ∷ parts ↦ elim (parse_int part) [ none ↦ err value_error | some n ↦ ok n ]
]

-- The attribute `saved_uefi_certs`.
pub record SavedCerts : Type 0 where
  pub saved_uefi_certs : Option Files

-- A method whose object is a local dictionary, which is empty at first.
with_dict : {D A : Type 0} → D → Exec (Obj D) A → Exec Trace A
with_dict d m t = let (r, s) = m (t, d) in (r, s.0)

module _ (E : Env) (p : Pool) where
  temp_file : Exec Trace Text
  temp_file = host_ssh E p.master (lit "mktemp")

  pub remove_file : Text → Exec Trace (Unit {0})
  remove_file file = host_run E p.master (lit "rm -f " ++ file)

  -- Whether the entry stays; a failure of another kind is passed over.
  pub extract : Text → Text → Exec Trace Bool
  extract cert file =
      catch_ssh
        (host_run E p.master (lit "secureboot-certs extract " ++ (cert ++ (lit " " ++ file)))
          >>= λ _. pure true)
        λ e.
          if includes (lit "does not exist in XAPI pool DB") (stdout_of e)
          then (remove_file file >>= λ _. pure false)
          else pure true

  pub extract_all : Files → Exec Trace Files
  extract_all [] = pure []
  extract_all ((cert, file) ∷ files) = do
    stays ← extract cert file
    rest ← extract_all files
    pure (if stays then (cert, file) ∷ rest else rest)

  check_version : Exec Trace (Unit {0})
  check_version = do
    output ← host_ssh E p.master (lit "secureboot-certs --version")
    major ← lift (major_version output)
    if ltb major 1 then raise runtime_error else pure tt

  -- The files with the certificates that the pool has.
  pub extracted : Exec Trace Files
  extracted = do
    check_version
    pk ← temp_file
    kek ← temp_file
    db ← temp_file
    dbx ← temp_file
    extract_all ((lit "PK", pk) ∷ (lit "KEK", kek) ∷ (lit "db", db) ∷ (lit "dbx", dbx) ∷ [])

  -- The end of a save.
  pub keep_certs : Files → Exec (Obj SavedCerts) (Unit {0})
  keep_certs files =
      if restorable files
      then assign (λ o. record { saved_uefi_certs = some files })
      else (on_trace (for_each remove_file (values files)) >>= λ _. raise exception)

  pub save_uefi_certs : Exec (Obj SavedCerts) (Unit {0})
  save_uefi_certs = do check (before_8_3 p.master); files ← on_trace extracted; keep_certs files

  pub clear_host : Host → Exec Trace (Unit {0})
  clear_host h = host_run E h (lit "rm -f " ++ (varstore_dir h ++ lit "/*"))

  -- `for host in self.hosts`
  pub clear_hosts : List Host → Exec Trace (Unit {0})
  clear_hosts hosts = for_each clear_host hosts

  pub clear_uefi_certs : Exec Trace (Unit {0})
  clear_uefi_certs = do
    check (before_8_3 p.master)
    host_run E p.master (lit "secureboot-certs clear")
    clear_hosts p.hosts

  pub clear_custom_uefi_certs : Exec Trace (Unit {0})
  clear_custom_uefi_certs = do
    check (not (before_8_3 p.master))
    host_run E p.master (lit "secureboot-certs clear")

  pub install : List Text → Exec Trace (Unit {0})
  install params =
      host_run E p.master (join (lit " ") (lit "secureboot-certs" ∷ lit "install" ∷ params))

  pub install_saved : List Text → Files → Exec (Obj SavedCerts) (Unit {0})
  install_saved params files = do
    on_trace (install params)
    on_trace (for_each remove_file (values files))
    assign (λ o. record { saved_uefi_certs = none })

  -- An empty dictionary stays saved.
  pub restore_certs : Files → Exec (Obj SavedCerts) (Unit {0})
  restore_certs [] = on_trace clear_uefi_certs
  restore_certs (f ∷ files) = do
    check (
        has_cert (lit "PK") (f ∷ files)
        && (has_cert (lit "KEK") (f ∷ files) && has_cert (lit "db") (f ∷ files)))
    params ← lift (install_params (f ∷ files))
    install_saved params (f ∷ files)

  pub restore_saved_certs : Option Files → Exec (Obj SavedCerts) (Unit {0})
  restore_saved_certs none = check false
  restore_saved_certs (some files) = restore_certs files

  pub restore_uefi_certs : Exec (Obj SavedCerts) (Unit {0})
  restore_uefi_certs = do
    check (before_8_3 p.master)
    with_obj λ o. restore_saved_certs o.saved_uefi_certs

  -- The certificates to install: names with local files.
  upload_auths : Files → Exec (Obj Files) (Unit {0})
  upload_auths [] = pure tt
  upload_auths ((name, auth) ∷ auths) = do
    file ← on_trace temp_file
    on_trace (host_scp E p.master auth file)
    assign (λ o. set_item name file o)
    upload_auths auths

  -- The checksums, which are only logged.
  checksum : Text → Exec Trace (Unit {0})
  checksum file = host_run E p.master (lit "md5sum " ++ (file ++ lit " | cut -d \" \" -f 1"))

  install_uploaded : Files → Exec (Obj Files) (Unit {0})
  install_uploaded files = do
    check (has_cert (lit "PK") files)
    check (has_cert (lit "KEK") files)
    check (has_cert (lit "db") files)
    on_trace (for_each checksum (values files))
    params ← lift (install_params files)
    on_trace (install params)

  -- The files on the host are removed however the installation ends.
  pub install_custom_uefi_certs : Files → Exec Trace (Unit {0})
  install_custom_uefi_certs auths = with_dict [] (
      try_finally (upload_auths auths >>= λ _. with_obj install_uploaded)
        (with_obj λ o. on_trace (host_run E p.master (lit "rm -f " ++ join (lit " ") (values o)))))

  base_name : Text → Text
  base_name path = elim (split b'/' path) as (λ x. Text) [
    | [] ↦ path
    | part ∷ parts ↦ last part parts
  ]
    where
      last : Text → List Text → Text
      last part [] = part
      last part (next ∷ parts) = last next parts

  -- The file on the ISO SR: the one given, or a new one.
  iso_file : Text → Option Text → Exec Trace Text
  iso_file mountpoint (some name) = pure name
  iso_file mountpoint none = do
    name ← host_ssh E p.master (lit "mktemp --suffix=.iso -p " ++ mountpoint)
    host_run E p.master (lit "chmod 644 " ++ name)
    pure name

  pub push_iso : Text → Option Text → Exec Trace Text
  push_iso local_file remote_filename = do
    iso_sr ← get_iso_sr E p
    name ← iso_file (lit "/run/sr-mount/" ++ iso_sr) remote_filename
    host_scp E p.master local_file name
    scan E p.master.hostname_or_ip iso_sr
    pure (base_name name)

-- The attribute `hosts` of a pool changes when one leaves it.
pub other_hosts : Host → List Host → List Host
other_hosts h [] = []
other_hosts h (g ∷ hosts) =
    let rest = other_hosts h hosts in if text_eq g.uuid h.uuid then rest else g ∷ rest

module _ (E : Env) (p : Pool) where
  in_pool : Host → Exec Trace Bool
  in_pool h = hosts_uuids E p >>= λ uuids. pure (contains uuids h.uuid)

  pub eject_host : Host → Exec (Obj (List Host)) (Unit {0})
  eject_host h = do
    on_trace (
        host_xe E p.master (lit "pool-eject")
          ((lit "host-uuid", text h.uuid) ∷ (lit "force", bool true) ∷ []))
    wait_for (obj_clock E) (on_trace (in_pool h)) 120 2 true (rounds_for 120 2)
    assign (λ hosts. other_hosts h hosts)
    on_trace (reboot_verify E h)
