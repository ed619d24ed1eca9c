-- ===== src/Hosts/Making/Laws.antt =====
-- What the return of the constructor of a pool means, and where joining a pool can stop.
use mathlib.Core.Path.{subst}
use xcp_ng_tests.Prelude.{
  ◌≡◌, refl, ap, ◌∙◌, inl, inr, Bool, true, false, Bool-cases, List, [], ◌∷◌, Text, text_eq,
  if◌then◌else◌,
}
use xcp_ng_tests.Effect.{Exn, not_a_master_host_error, ok, pure, raise}
use xcp_ng_tests.Effect.Laws.{>>=-eq-ok, pure-eq-ok}
use xcp_ng_tests.Commands.{Env, Trace}
use xcp_ng_tests.Hosts.{Host, Pool, is_master, host_ip, hosts_uuids}
use xcp_ng_tests.Hosts.Making.{Settings, make_host, other_hosts, alone, make_pool}

required :
    {S : Type 0} (b : Bool) (e : Exn) (s : S) {u : Unit {0}} {s' : S}
    → (if b then pure tt else raise e) s ≡ (ok u, s')
    → b ≡ true
required true e s h = refl
required false e s h = absurd (cc)

module _ (E : Env) (D : Settings) where
  -- A host was made for a UUID: from the address that the pool answered for it.
  abbrev pub MadeFor : Pool → Text → Host → Type 0
  MadeFor p host_uuid host =
      (t t₁ t₂ : Trace) × (ip : Text) × (host_ip E p host_uuid t ≡ (ok ip, t₁))
      × (make_host E D ip t₁ ≡ (ok host, t₂))

  -- One host for each UUID that is not that of the master, in order.
  pub data AllMade (p : Pool) : List Text → List Host → Type 0 where
    none_left : AllMade p [] []
    the_master :
        (host_uuid : Text) {uuids : List Text} {hosts : List Host}
        → text_eq host_uuid p.master.uuid ≡ true
        → AllMade p uuids hosts
        → AllMade p (host_uuid ∷ uuids) hosts
    another :
        (host_uuid : Text) {uuids : List Text} {host : Host} {hosts : List Host}
        → text_eq host_uuid p.master.uuid ≡ false
        → MadeFor p host_uuid host
        → AllMade p uuids hosts
        → AllMade p (host_uuid ∷ uuids) (host ∷ hosts)

  other_hosts-AllMade :
      (p : Pool) (uuids : List Text) (t : Trace) {hosts : List Host} {t' : Trace}
      → other_hosts E D p uuids t ≡ (ok hosts, t')
      → AllMade p uuids hosts
  unfolding other_hosts
  other_hosts-AllMade p [] t e = subst (λ hosts. AllMade p [] hosts) (pure-eq-ok [] t e).0 none_left
  other_hosts-AllMade p (host_uuid ∷ uuids) t e =
      elim (Bool-cases (text_eq host_uuid p.master.uuid)) [
        | inl h ↦ the_master host_uuid h (other_hosts-AllMade p uuids t (rw h at e))
        | inr h ↦
            let (ip, t₁, asked, e₁) = >>=-eq-ok _ _ t (rw h at e) in
            let (host, t₂, made, e₂) = >>=-eq-ok _ _ t₁ e₁ in
            let (others, t₃, went_on, e₃) = >>=-eq-ok _ _ t₂ e₂ in
            subst (λ hosts. AllMade p (host_uuid ∷ uuids) hosts)
              (pure-eq-ok (host ∷ others) t₃ e₃).0
              (another host_uuid h (t, t₁, t₂, ip, asked, made)
                (other_hosts-AllMade p uuids t₂ went_on))
      ]

  -- What a pool that was made holds: the host of the address, which says that it is the master, and a
  -- host for each other UUID that this master listed.
  abbrev pub Listed : Text → Pool → Type 0
  Listed address p =
      (t t₁ t₂ t₃ t₄ : Trace) × (uuids : List Text) × (others : List Host) × (make_host E D address
          t
        ≡ (ok p.master, t₁))
      × (is_master E p.master t₁ ≡ (ok true, t₂))
      × (hosts_uuids E (alone E D p.master) t₃ ≡ (ok uuids, t₄))
      × (p.hosts ≡ p.master ∷ others)
      × AllMade (alone E D p.master) uuids others

  -- Whenever the constructor of a pool returns, its master is the host of the address, which said that
  -- it is the master, and its hosts are this master and then one host for each other UUID that the
  -- master listed, in this order, each made from the address that was answered for it.
  pub make_pool-Listed :
      (address : Text) (t : Trace) {p : Pool} {srs : List Text} {t' : Trace}
      → make_pool E D address t ≡ (ok (p, srs), t')
      → Listed address p
  unfolding make_pool
  make_pool-Listed address t e =
      let (master, t₁, made, e₁) = >>=-eq-ok _ _ t e in
      let (is, t₂, asked, e₂) = >>=-eq-ok _ _ t₁ e₁ in
      let (a, t₃, checked, e₃) = >>=-eq-ok _ _ t₂ e₂ in
      let (b, t₄, enabled, e₄) = >>=-eq-ok _ _ t₃ e₃ in
      let (uuids, t₅, listed, e₅) = >>=-eq-ok _ _ t₄ e₄ in
      let (others, t₆, rest, e₆) = >>=-eq-ok _ _ t₅ e₅ in
      let (uuid, t₇, named, e₇) = >>=-eq-ok _ _ t₆ e₆ in
      let (srs, t₈, found, e₈) = >>=-eq-ok _ _ t₇ e₇ in
      subst (Listed address) (ap (λ r. r.0) (pure-eq-ok _ t₈ e₈).0) (
        t,
        t₁,
        t₂,
        t₄,
        t₅,
        uuids,
        others,
        made,
        asked ∙ ap {A = Bool} (λ b. (ok b, t₂)) (required is not_a_master_host_error t₂ checked),
        listed,
        refl,
        other_hosts-AllMade (alone E D master) uuids t₅ rest,
      )
