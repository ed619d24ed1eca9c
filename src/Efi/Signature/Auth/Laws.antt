-- ===== src/Efi/Signature/Auth/Laws.antt =====
-- What the file of a signed variable holds, and what a copy of a variable shares with it.
use mathlib.Core.Path.{subst}
use xcp_ng_tests.Prelude.{
  ◌+◌, ◌≡◌, refl, sym, ap, ◌∙◌, true, false, Bool-cases, inl, inr, Option, Option-cases, none, some,
  List, arith, Text, text_eq_refl, length,
}
use xcp_ng_tests.Effect.{Result, ok, err, os_error}
use xcp_ng_tests.Effect.Laws.{lift-eq-ok, check-eq-ok, >>=-eq-ok, ok-inj, pure-eq-ok}
use xcp_ng_tests.Efi.Struct.{Bytes}
use xcp_ng_tests.Efi.Signature.{
  Crypto, EfiState, read_file, write_file, certs_to_sig_db, timestamp, pack_time,
}
use xcp_ng_tests.Efi.Signature.RoundTrip.{AllHold, read_db, certs_to_sig_db-read_db}
use xcp_ng_tests.Efi.Signature.Authenticated.{read_auth2, sign_efi_sig_db-read_auth2}
use xcp_ng_tests.Efi.Signature.Auth.{
  Machine, Certificate, OtherCert, Auth, copyfile, cert_paths, is_signed, new_auth,
  cert_sign_efi_sig_db, sign_with, copy_auth, copy_auth_data,
}

written :
    (path : Text) (contents : Bytes) (s s' : EfiState)
    → write_file path contents s ≡ (ok tt, s')
    → s'.files path ≡ some contents
unfolding write_file
written path contents s s' e =
    subst (λ (t : EfiState). t.files path ≡ some contents) (ap (λ p. p.1) e)
      (rw (text_eq_refl path) refl)

found_file :
    (o : Option Bytes) (s : EfiState) {contents : Bytes} {s' : EfiState}
    → ◌≡◌ {A = Result Bytes × EfiState}
        (elim o [ none ↦ (err os_error, s) | some b ↦ (ok b, s) ])
        (ok contents, s')
    → (o ≡ some contents) × (s ≡ s')
found_file none s e = absurd (cc)
found_file (some b) s e = (ap some (ok-inj (ap (λ p. p.0) e)), ap (λ p. p.1) e)

read_file-eq-ok :
    (path : Text) (s : EfiState) {contents : Bytes} {s' : EfiState}
    → read_file path s ≡ (ok contents, s')
    → (s.files path ≡ some contents) × (s ≡ s')
unfolding read_file
read_file-eq-ok path s e = found_file (s.files path) s e

-- A copy has the signature list and the signed data of the original, and its file, if there are
-- signed data, holds what the file of the original holds.
abbrev pub IsCopy : Auth → Auth → EfiState → Type 0
IsCopy a b s =
    (b.efi_signature_list ≡ a.efi_signature_list)
    × (b.auth_data ≡ a.auth_data)
    × (is_signed a ≡ true → s.files b.auth ≡ s.files a.auth)

unsigned : (a : Auth) → is_signed a ≡ false → a.auth_data ≡ none
unfolding is_signed
unsigned a h = elim (Option-cases a.auth_data) [
  | inl nothing ↦ nothing
  | inr (d, something) ↦ absurd (let h' = rw something at h in cc)
]

module _ (M : Machine) (C : Crypto) where
  new_auth-read_db :
      (name : Text) (owner : Option Certificate) (others : List OtherCert) (ders : List Bytes)
      (s : EfiState) {a : Auth} {s' : EfiState}
      → AllHold C s (cert_paths owner others) ders
      → new_auth M C name owner others s ≡ (ok a, s')
      → read_db (length ders) a.efi_signature_list ≡ some ders
  unfolding new_auth
  new_auth-read_db name owner others ders s {a} h e =
      let (u₁, s₁, e₁, k₁) = >>=-eq-ok _ _ s e in
      let at₁ = (check-eq-ok _ s e₁).1 in
      let (u₂, s₂, e₂, k₂) = >>=-eq-ok _ _ s₁ k₁ in
      let at₂ = (check-eq-ok _ s₁ e₂).1 in
      let (guid, eg, k₃) = lift-eq-ok _ _ s₂ k₂ in
      let (db, s₃, e₃, k₄) = >>=-eq-ok (certs_to_sig_db C (cert_paths owner others)) _ s₂ k₃ in
      let (auth, s₄, e₄, k₅) = >>=-eq-ok _ _ s₃ k₄ in
      let (made, em, reads) = certs_to_sig_db-read_db C s (cert_paths owner others) ders h in
      let here =
        subst (λ t. certs_to_sig_db C (cert_paths owner others) t ≡ (ok db, s₃)) (at₂ ∙ at₁) e₃ in
      let same = ok-inj (ap (λ p. p.0) (sym em ∙ here)) in
      let kept = ap (λ b. b.efi_signature_list) (pure-eq-ok _ s₄ k₅).0 in
      subst (λ d. read_db (length ders) d ≡ some ders) (same ∙ kept) reads

  -- The file of a variable that was signed.
  abbrev pub IsSigned : Auth → Bytes → Auth → EfiState → EfiState → Type 0
  IsSigned a db a' s s' =
      (signed ts p7 : Bytes) × (a'.auth_data ≡ some signed)
      × (a'.auth ≡ a.auth)
      × (s'.files a'.auth ≡ some signed)
      × (read_auth2 signed ≡ some (ts, p7, db))
      × (pack_time (M.host.seed_plus (s.time_offset + 1)) ≡ ok ts)

  sign_with-IsSigned :
      (a signer : Auth) (s : EfiState) {a' : Auth} {s' : EfiState}
      → sign_with M C a signer s ≡ (ok a', s')
      → IsSigned a a.efi_signature_list a' s s'
  unfolding sign_with cert_sign_efi_sig_db timestamp
  sign_with-IsSigned a signer s {a'} {s'} e =
      let (owner, eo, k₁) = lift-eq-ok _ _ s e in
      let (signed, s₁, es, k₂) = >>=-eq-ok _ _ s k₁ in
      let (u, s₂, ew, k₃) = >>=-eq-ok _ _ s₁ k₂ in
      let (key, ek, j₁) = lift-eq-ok _ _ s es in
      let (time, s₃, et, j₂) = >>=-eq-ok (timestamp C M.host) _ s j₁ in
      let (ts, p7, reads, packed) =
        sign_efi_sig_db-read_auth2 C M.host a.efi_signature_list a.name key owner.pub_file
          (some time) (some a.guid) s₃ j₂ in
      let (same, at) = pure-eq-ok _ s₂ k₃ in
      subst (λ b. IsSigned a a.efi_signature_list b s s') same
        (
          signed,
          ts,
          p7,
          refl,
          refl,
          subst (λ (t : EfiState). t.files a.auth ≡ some signed) at
              (written a.auth signed s₁ s₂ (let w = ew in cc)),
          reads,
          subst (λ d. pack_time d ≡ ok ts) (sym (ok-inj (ap (λ p. p.0) et))) packed,
        )

  -- A variable made from files that hold certificates and signed later, in whatever state: when
  -- both return, the file of the signed object holds what its `auth_data` are, an authenticated
  -- variable with the time stamp of the next second, whose database reads back as the certificate
  -- of the owner and those of the others, in this order.
  pub sign_with-read_db :
      (name : Text) (owner : Option Certificate) (others : List OtherCert) (ders : List Bytes)
      (signer : Auth) (s₀ s : EfiState) {a a' : Auth} {s₁ s' : EfiState}
      → AllHold C s₀ (cert_paths owner others) ders
      → new_auth M C name owner others s₀ ≡ (ok a, s₁)
      → sign_with M C a signer s ≡ (ok a', s')
      → (db : Bytes) × IsSigned a db a' s s' × (read_db (length ders) db ≡ some ders)
  sign_with-read_db name owner others ders signer s₀ s {a} holds made signed = (
    a.efi_signature_list,
    sign_with-IsSigned a signer s signed,
    new_auth-read_db name owner others ders s₀ holds made,
  )

  -- The source is read before the copy is written, so that they hold the same afterwards.
  copyfile-same :
      (src dst : Text) (s : EfiState) {u : Unit {0}} {s' : EfiState}
      → copyfile src dst s ≡ (ok u, s')
      → s'.files dst ≡ s'.files src
  unfolding copyfile write_file
  copyfile-same src dst s {s' = s'} e =
      let (contents, s₁, er, ew) = >>=-eq-ok (read_file src) _ s e in
      let (there, at) = read_file-eq-ok src s er in
      let there' = subst (λ (t : EfiState). t.files src ≡ some contents) at there in
      let same = ap (λ p. p.1) ew in
      subst (λ (t : EfiState). t.files dst ≡ t.files src) same
        (rw (text_eq_refl dst) (ground (arith, there')))

  new_auth-unsigned :
      (name : Text) (owner : Option Certificate) (others : List OtherCert) (s : EfiState) {a : Auth}
      {s' : EfiState}
      → new_auth M C name owner others s ≡ (ok a, s')
      → a.auth_data ≡ none
  unfolding new_auth
  new_auth-unsigned name owner others s e =
      let (u₁, s₁, e₁, k₁) = >>=-eq-ok _ _ s e in
      let (u₂, s₂, e₂, k₂) = >>=-eq-ok _ _ s₁ k₁ in
      let (guid, eg, k₃) = lift-eq-ok _ _ s₂ k₂ in
      let (db, s₃, e₃, k₄) = >>=-eq-ok (certs_to_sig_db C (cert_paths owner others)) _ s₂ k₃ in
      let (auth, s₄, e₄, k₅) = >>=-eq-ok _ _ s₃ k₄ in
      ap (λ b. b.auth_data) (sym (pure-eq-ok _ s₄ k₅).0)

  copy_auth_data-IsCopy :
      (a c : Auth) (s : EfiState) {b : Auth} {s' : EfiState}
      → c.efi_signature_list ≡ a.efi_signature_list
      → c.auth_data ≡ none
      → copy_auth_data a c s ≡ (ok b, s')
      → IsCopy a b s'
  unfolding copy_auth_data
  copy_auth_data-IsCopy a c s {b} {s'} list fresh e = elim (Bool-cases (is_signed a)) [
    | inl signed ↦
        let (u, s₁, ec, k) = >>=-eq-ok (copyfile a.auth c.auth) _ s (rw signed at e) in
        let (same, at) = pure-eq-ok _ s₁ k in
        subst (λ d. IsCopy a d s') same
          (
            list,
            refl,
            λ _.
                subst (λ (t : EfiState). t.files c.auth ≡ t.files a.auth) at
                  (copyfile-same a.auth c.auth s ec),
          )
    | inr not_signed ↦
        let (same, at) = pure-eq-ok c s (rw not_signed at e) in
        subst (λ d. IsCopy a d s') same
          (list, fresh ∙ sym (unsigned a not_signed), λ signed. absurd (cc))
  ]

  -- Whenever `copy` of a signed variable returns, the copy has the signature list and the signed
  -- data of the original, and its file holds what the file of the original holds; a copy of a
  -- variable that was not signed has the list and is not signed.
  pub copy_auth-IsCopy :
      (a : Auth) (name : Option Text) (s : EfiState) {b : Auth} {s' : EfiState}
      → copy_auth M C a name s ≡ (ok b, s')
      → IsCopy a b s'
  unfolding copy_auth
  copy_auth-IsCopy a name s e =
      let (owner, eo, k₁) = lift-eq-ok _ _ s e in
      let (copy, s₁, ec, k₂) = >>=-eq-ok _ _ s k₁ in
      let (c, s₂, en, k₃) = >>=-eq-ok _ _ s₁ k₂ in
      copy_auth_data-IsCopy a _ s₂ refl (new_auth-unsigned _ (some copy) a.other_certs s₁ en) k₃
