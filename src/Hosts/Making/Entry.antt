-- ===== src/Hosts/Making/Entry.antt =====
-- Where joining a pool ends: what it did when it returns, and what it leaves behind when it raises.
use mathlib.Core.Path.{subst}
use xcp_ng_tests.Prelude.{◌≡◌, refl, ap, ◌⊎◌, inl, inr, true, false, Text}
use xcp_ng_tests.Effect.{Result, ok, err, Exec, ◌>>=◌}
use xcp_ng_tests.Effect.Ends.{EndsIn, >>=-EndsIn}
use xcp_ng_tests.Effect.Laws.{>>=-eq-ok}
use xcp_ng_tests.Commands.{Env, Trace}
use xcp_ng_tests.Common.Waiting.{trace_clock, wait_for}
use xcp_ng_tests.Common.Waiting.Passed.{Answered, wait_for-Answered}
use xcp_ng_tests.Objects.{Obj, on_trace, with_obj, assign}
use xcp_ng_tests.Hosts.{Host, Pool, host_ip}
use xcp_ng_tests.Hosts.Making.{
  Settings, Joining, make_host, in_pool, seen_enabled, add_host, join_first, join_pool,
}

module _ {V A : Type 0} (Q : A → Obj V → Type 0) (F : Obj V → Type 0) where
  on_trace-EndsIn_of :
      (m : Exec Trace A) (s : Obj V) (p : Result A × Trace)
      → m s.0 ≡ p
      → ((a : A) (t : Trace) → m s.0 ≡ (ok a, t) → Q a (t, s.1))
      → ((t : Trace) → F (t, s.1))
      → EndsIn Q F (p.0, (p.1, s.1))
  on_trace-EndsIn_of m s (ok a, t) e returns raises = returns a t e
  on_trace-EndsIn_of m s (err x, t) e returns raises = raises t

  -- A step that needs no attribute leaves them all alone, however it ends.
  on_trace-EndsIn :
      (m : Exec Trace A) (s : Obj V)
      → ((a : A) (t : Trace) → m s.0 ≡ (ok a, t) → Q a (t, s.1))
      → ((t : Trace) → F (t, s.1))
      → EndsIn Q F (on_trace m s)
  on_trace-EndsIn m s = on_trace-EndsIn_of m s (m s.0) refl

module _ (E : Env) (D : Settings) (h : Host) where
  -- The pool listed the host, and then answered the address from which the new entry was made.
  abbrev pub Found : Pool → Host → Type 0
  Found pool new =
      (t t₁ t₂ : Trace) × (ip : Text) × Answered (in_pool E D h pool) true t
      × (host_ip E pool h.uuid t ≡ (ok ip, t₁))
      × (make_host E D ip t₁ ≡ (ok new, t₂))

  join_first-Found :
      (pool : Pool) (t : Trace) {new : Host} {t' : Trace}
      → join_first E D h pool t ≡ (ok new, t')
      → Found pool new
  unfolding join_first
  join_first-Found pool t {t' = t'} e =
      let (a, t₁, ordered, e₁) = >>=-eq-ok _ _ t e in
      let (b, t₂, waited, e₂) = >>=-eq-ok _ _ t₁ e₁ in
      let (ip, t₃, asked, made) = >>=-eq-ok _ _ t₂ e₂ in
      (
        t₂,
        t₃,
        t',
        ip,
        wait_for-Answered (trace_clock E) (in_pool E D h pool) 120 2 false _ t₁ waited,
        asked,
        made,
      )

  -- The entry was added, the master said that it is enabled, and the host is in the pool.
  abbrev pub HasJoined : Joining → Unit {0} → Obj Joining → Type 0
  HasJoined j u s' =
      (new : Host) × Found j.joined new
      × Answered (seen_enabled E D h (add_host E D h new j).joined) true s'.0
      × (s'.1.joined ≡ (add_host E D h new j).joined)
      × (s'.1.own ≡ (add_host E D h new j).joined)

  -- Nothing has changed, or only the entry was added.
  abbrev pub LeftBehind : Joining → Obj Joining → Type 0
  LeftBehind j s' = (s'.1 ≡ j) ⊎ ((new : Host) × Found j.joined new × (s'.1 ≡ add_host E D h new j))

  abbrev Enabled : Host → Joining → Unit {0} → Obj Joining → Type 0
  Enabled new j u s' =
      Answered (seen_enabled E D h (add_host E D h new j).joined) true s'.0
      × (s'.1 ≡ add_host E D h new j)

  finish-HasJoined :
      (j : Joining) (new : Host) (s : Obj Joining)
      → Found j.joined new
      → s.1 ≡ add_host E D h new j
      → EndsIn (HasJoined j) (LeftBehind j) (
          (with_obj (λ j.
                on_trace (wait_for (trace_clock E) (seen_enabled E D h j.joined) 120 2 false 61))
              >>= λ _. assign {V = Joining} (λ j. record j { own = j.joined }))
            s)
  finish-HasJoined j new s found same =
      >>=-EndsIn (Enabled new j) (HasJoined j) (LeftBehind j) _ _ s
        (on_trace-EndsIn (Enabled new j) (LeftBehind j)
          (wait_for (trace_clock E) (seen_enabled E D h s.1.joined) 120 2 false 61) s
          (λ u t waited. (
            subst (λ j'. Answered (seen_enabled E D h j'.joined) true t) same
                (wait_for-Answered (trace_clock E) (seen_enabled E D h s.1.joined) 120 2 false 61
                  s.0 waited),
            same,
          ))
          (λ t. inr (new, found, same)))
        (λ u s' (enabled, kept).
          (new, found, enabled, ap (λ j. j.joined) kept, ap (λ j. j.joined) kept))

  abbrev Made : Joining → Host → Obj Joining → Type 0
  Made j new s' = Found j.joined new × (s'.1 ≡ j)

  -- If join_pool returns, the pool had listed the host, its hosts have one more, made from the address
  -- that was answered for it, the run of commands ended with the master saying that the host is
  -- enabled, and the host has this pool. If it raises, either nothing has changed, or only that host
  -- was added to the pool.
  pub join_pool-HasJoined :
      (s : Obj Joining) → EndsIn (HasJoined s.1) (LeftBehind s.1) (join_pool E D h s)
  unfolding join_pool
  join_pool-HasJoined s =
      >>=-EndsIn (Made s.1) (HasJoined s.1) (LeftBehind s.1) _ _ s
        (on_trace-EndsIn (Made s.1) (LeftBehind s.1) (join_first E D h s.1.joined) s
          (λ new t made. (join_first-Found s.1.joined s.0 made, refl)) (λ t. inl refl))
        (λ new s' (found, kept).
          >>=-EndsIn (λ u t. t.1 ≡ add_host E D h new s.1) (HasJoined s.1) (LeftBehind s.1) _ _ s'
            (ap (add_host E D h new) kept) (λ u t added. finish-HasJoined s.1 new t found added))
