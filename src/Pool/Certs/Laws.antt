-- ===== src/Pool/Certs/Laws.antt =====
-- Saving the UEFI certificates of a pool, and restoring them.
use xcp_ng_tests.Prelude.{
  ◌≡◌, refl, sym, ap, ◌∙◌, inl, inr, ◌⊎◌, true, false, Bool, Bool-cases, Option-cases, ◌&&◌, ◌++◌,
  lit, join, Option, none, some, List, [], ◌∷◌, Text,
}
use mathlib.Core.Path.{subst}
use xcp_ng_tests.Effect.{ok, err, Exec, check, for_each, ◌>>=◌, exception}
use xcp_ng_tests.Effect.Laws.{>>=-eq-ok, >>=-step, check-eq-ok}
use xcp_ng_tests.Commands.{Env, Trace}
use xcp_ng_tests.Objects.{Obj, on_trace, assign}
use xcp_ng_tests.Objects.Laws.{
  Atomic, on_trace-Keeps, lift-Keeps, with_obj-Atomic, Keeps-Atomic, assign-Atomic, >>=-Atomic,
  >>=-Fixes,
}
use xcp_ng_tests.Hosts.{Pool, before_8_3, varstore_dir, host_run}
use xcp_ng_tests.Pool.Certs.{
  Files, file_of, values, has_cert, cert_file, dbx_of, install_params, install, remove_file,
  clear_host, clear_hosts, restorable, SavedCerts, keep_certs, save_uefi_certs, clear_uefi_certs,
  install_saved, restore_certs, restore_saved_certs, restore_uefi_certs,
}

and-eq-true : (a b : Bool) → (a && b) ≡ true → (a ≡ true) × (b ≡ true)
and-eq-true true b h = (refl, h)
and-eq-true false b h = absurd (cc)

has_cert-some :
    (name : Text) (files : Files)
    → has_cert name files ≡ true
    → (file : Text) × (file_of name files ≡ some file)
unfolding has_cert
has_cert-some name files h = elim (Option-cases (file_of name files)) [
  | inl missing ↦ absurd (let h' = rw (has_cert, missing) at h in cc)
  | inr (file, there) ↦ (file, there)
]

-- What is installed as `dbx`: its file, or else the word `none`.
abbrev pub IsDbx : Files → Text → Type 0
IsDbx files dbx =
    (file_of (lit "dbx") files ≡ some dbx)
    ⊎ ((file_of (lit "dbx") files ≡ none) × (dbx ≡ lit "none"))

dbx_of-IsDbx : (files : Files) → IsDbx files (dbx_of files)
unfolding dbx_of
dbx_of-IsDbx files = elim (Option-cases (file_of (lit "dbx") files)) [
  | inl missing ↦ inr (missing, rw (dbx_of, missing) refl)
  | inr (file, there) ↦ inl (there ∙ ap some (sym (rw (dbx_of, there) refl)))
]

cert_file-eq :
    (name : Text) (files : Files) {file : Text}
    → file_of name files ≡ some file
    → cert_file name files ≡ ok file
unfolding cert_file
cert_file-eq name files e = rw (cert_file, e) refl

install_params-eq :
    (files : Files) {pk kek db : Text}
    → file_of (lit "PK") files ≡ some pk
    → file_of (lit "KEK") files ≡ some kek
    → file_of (lit "db") files ≡ some db
    → install_params files ≡ ok (pk ∷ kek ∷ db ∷ dbx_of files ∷ [])
unfolding install_params
install_params-eq files pk kek db =
    let pk' = cert_file-eq (lit "PK") files pk in
    let kek' = cert_file-eq (lit "KEK") files kek in
    let db' = cert_file-eq (lit "db") files db in rw (install_params, pk', kek', db') refl

module _ (E : Env) (p : Pool) where
  keep_certs-eq-ok :
      (files : Files) (s : Obj SavedCerts) {u : Unit {0}} {s' : Obj SavedCerts}
      → keep_certs E p files s ≡ (ok u, s')
      → (restorable files ≡ true) × (s' ≡ (s.0, record { saved_uefi_certs = some files }))
  unfolding keep_certs
  keep_certs-eq-ok files s e = elim (Bool-cases (restorable files)) [
    | inl fine ↦ (fine, ap (λ q. q.1) (sym (rw fine at e)))
    | inr other ↦ absurd (
        let (v, s₁, removed, e₁) = >>=-eq-ok _ _ s (rw other at e) in
        let raised = ap (λ q. q.0) e₁ in cc)
  ]

  -- The commands that clear the certificates: of the pool, and of each host in turn.
  abbrev cleared : Exec Trace (Unit {0})
  cleared = host_run E p.master (lit "secureboot-certs clear") >>= λ _.
      for_each (λ h. host_run E h (lit "rm -f " ++ (varstore_dir h ++ lit "/*"))) p.hosts

  -- The command that installs certificates, those that remove the saved files, and then none is
  -- saved any more.
  abbrev reinstalled : Text → Text → Text → Text → Files → Exec (Obj SavedCerts) (Unit {0})
  reinstalled pk kek db dbx files =
      on_trace (
        host_run E p.master
          (join (lit " ") (lit "secureboot-certs" ∷ lit "install" ∷ pk ∷ kek ∷ db ∷ dbx ∷ [])))
      >>= λ _.
          on_trace (for_each (λ file. host_run E p.master (lit "rm -f " ++ file)) (values files))
          >>= λ _. assign λ o. record { saved_uefi_certs = none }

  -- What a restore from a state would do: clear the certificates of the pool if none was saved, or
  -- install the saved files, the three that are needed among them, and forget them.
  abbrev pub Restores : Obj SavedCerts → Type 0
  Restores s =
      (files : Files) × (s.1.saved_uefi_certs ≡ some files)
      × (((files ≡ []) × (restore_uefi_certs E p s ≡ on_trace cleared s))
          ⊎ ((pk kek db dbx : Text) × (file_of (lit "PK") files ≡ some pk)
              × (file_of (lit "KEK") files ≡ some kek)
              × (file_of (lit "db") files ≡ some db)
              × IsDbx files dbx
              × (restore_uefi_certs E p s ≡ reinstalled pk kek db dbx files s)))

  -- Behind the version check a restore goes on with the saved files.
  restored_files :
      (files : Files) (t : Trace)
      → before_8_3 p.master ≡ true
      → restore_uefi_certs E p (t, record { saved_uefi_certs = some files })
        ≡ restore_certs E p files (t, record { saved_uefi_certs = some files })
  unfolding restore_uefi_certs restore_saved_certs ◌>>=◌
  restored_files files t old = rw old refl

  clears :
      (s : Obj SavedCerts)
      → before_8_3 p.master ≡ true
      → restore_certs E p [] s ≡ on_trace cleared s
  unfolding restore_certs clear_uefi_certs clear_hosts clear_host
  clears s old = ap (λ q. (q.0, (q.1, s.1))) (>>=-step _ _ s.0 (ap (λ b. check b s.0) old))

  reinstalls :
      (f : Text × Text) (files : Files) (s : Obj SavedCerts) {pk kek db dbx : Text}
      → restorable (f ∷ files) ≡ true
      → install_params (f ∷ files) ≡ ok (pk ∷ kek ∷ db ∷ dbx ∷ [])
      → restore_certs E p (f ∷ files) s ≡ reinstalled pk kek db dbx (f ∷ files) s
  unfolding restore_certs restorable install_saved install remove_file
  reinstalls f files s fine e =
      >>=-step _ _ s (ap (λ b. check b s) fine) ∙ >>=-step _ _ s (ap (λ r. (r, s)) e)

  saved-Restores :
      (files : Files) (t : Trace)
      → before_8_3 p.master ≡ true
      → restorable files ≡ true
      → Restores (t, record { saved_uefi_certs = some files })
  unfolding restorable
  saved-Restores [] t old fine = ([], refl, inl (refl, restored_files [] t old ∙ clears _ old))
  saved-Restores (f ∷ files) t old fine =
      let (has_pk, others) = and-eq-true (has_cert (lit "PK") (f ∷ files)) _ fine in
      let (has_kek, has_db) = and-eq-true (has_cert (lit "KEK") (f ∷ files)) _ others in
      let (pk, is_pk) = has_cert-some (lit "PK") (f ∷ files) has_pk in
      let (kek, is_kek) = has_cert-some (lit "KEK") (f ∷ files) has_kek in
      let (db, is_db) = has_cert-some (lit "db") (f ∷ files) has_db in
      (
        f ∷ files,
        refl,
        inr (
          pk,
          kek,
          db,
          dbx_of (f ∷ files),
          is_pk,
          is_kek,
          is_db,
          dbx_of-IsDbx (f ∷ files),
          restored_files (f ∷ files) t old
              ∙ reinstalls f files _ fine (install_params-eq (f ∷ files) is_pk is_kek is_db),
        ),
      )

  -- Whenever a save returns, certificates are saved that a restore accepts: run from there, it
  -- passes its assertions. If the dictionary is empty, the rest of the restore is to clear the
  -- certificates of the pool and of each host; else `PK`, `KEK` and `db` are among the saved files, and
  -- the rest is to install these, with `dbx` or the word `none`, to remove the saved files and to
  -- forget them.
  pub restore_uefi_certs-save_uefi_certs :
      (s : Obj SavedCerts) {u : Unit {0}} {s' : Obj SavedCerts}
      → save_uefi_certs E p s ≡ (ok u, s')
      → Restores s'
  unfolding save_uefi_certs
  restore_uefi_certs-save_uefi_certs s e =
      let (a, s₁, checked, e₁) = >>=-eq-ok _ _ s e in
      let (files, s₂, extracted, e₂) = >>=-eq-ok _ _ s₁ e₁ in
      let (old, k) = check-eq-ok _ s checked in
      let (fine, same) = keep_certs-eq-ok files s₂ e₂ in
      subst Restores (sym same) (saved-Restores files s₂.0 old fine)

  keep_certs-Atomic : (files : Files) → Atomic (keep_certs E p files)
  unfolding keep_certs
  keep_certs-Atomic files = elim (Bool-cases (restorable files)) [
    | inl fine ↦ rw fine (assign-Atomic _)
    | inr other ↦ rw other (
        Keeps-Atomic _ (
          >>=-Fixes (λ v. v) _ _ (on_trace-Keeps SavedCerts _)
            λ u. lift-Keeps SavedCerts (err exception)))
  ]

  -- A save that raised has left the certificates that were saved before as they were.
  pub save_uefi_certs-Atomic : Atomic (save_uefi_certs E p)
  unfolding save_uefi_certs
  save_uefi_certs-Atomic =
      >>=-Atomic _ _ (lift-Keeps SavedCerts _)
        λ u. >>=-Atomic _ _ (on_trace-Keeps SavedCerts _) keep_certs-Atomic

  install_saved-Atomic :
      (params : List Text) (files : Files) → Atomic (install_saved E p params files)
  unfolding install_saved
  install_saved-Atomic params files =
      >>=-Atomic _ _ (on_trace-Keeps SavedCerts _)
        λ u. >>=-Atomic _ _ (on_trace-Keeps SavedCerts _) λ v. assign-Atomic _

  restore_saved_certs-Atomic : (saved : Option Files) → Atomic (restore_saved_certs E p saved)
  unfolding restore_saved_certs restore_certs
  restore_saved_certs-Atomic none = Keeps-Atomic _ (lift-Keeps SavedCerts _)
  restore_saved_certs-Atomic (some []) = Keeps-Atomic _ (on_trace-Keeps SavedCerts _)
  restore_saved_certs-Atomic (some (f ∷ files)) = >>=-Atomic _ _ (lift-Keeps SavedCerts _) λ u.
      >>=-Atomic _ _ (lift-Keeps SavedCerts _) λ params. install_saved-Atomic params (f ∷ files)

  -- A restore that raised has left the saved certificates as they were.
  pub restore_uefi_certs-Atomic : Atomic (restore_uefi_certs E p)
  unfolding restore_uefi_certs
  restore_uefi_certs-Atomic =
      >>=-Atomic _ _ (lift-Keeps SavedCerts _)
        λ u. with_obj-Atomic _ λ o. restore_saved_certs-Atomic o.saved_uefi_certs
