-- ===== src/Commands/Laws.antt =====
-- Which return codes raise.
use xcp_ng_tests.Prelude.{◌≡◌, ◌≢◌, sym, ap, ◌∙◌, true, false, ℕ, ◌∷◌, arith, Text}
use xcp_ng_tests.Effect.{ok, ◌>>=◌}
use xcp_ng_tests.Effect.Laws.{>>=-eq-ok}
use xcp_ng_tests.Commands.{
  start_ssh, Env, Trace, ssh_process, Completed, SshFlags, SshOutput, ssh_options, ssh_outcome,
  run_ssh, ssh,
}

module _ (E : Env) where
  ssh_outcome-eq-ok :
      (f : SshFlags) (cmd : Text) (skip : ℕ) (res : Completed) {out : SshOutput}
      → ssh_outcome E f cmd skip res ≡ ok out
      → (res.returncode ≢ 255) × (f.check ≡ true → res.returncode ≡ 0)
  unfolding ssh_outcome
  ssh_outcome-eq-ok f cmd skip res e = ground arith

  run_ssh_fg :
      (address cmd : Text) (f : SshFlags) (skip : ℕ) (t : Trace)
      → f.background ≡ false
      → run_ssh E address cmd f skip t ≡ (
        ssh_outcome E f cmd skip (E.reply (ssh_process address (ssh_options E f) cmd ∷ t)),
        ssh_process address (ssh_options E f) cmd ∷ t,
      )
  unfolding run_ssh start_ssh ◌>>=◌
  run_ssh_fg address cmd f skip t fg = simp fg

  run_ssh-eq-ok :
      (address cmd : Text) (f : SshFlags) (skip : ℕ) (t : Trace) {out : SshOutput} {t' : Trace}
      → f.background ≡ false
      → run_ssh E address cmd f skip t ≡ (ok out, t')
      → (t' ≡ ssh_process address (ssh_options E f) cmd ∷ t)
        × ((E.reply t').returncode ≢ 255)
        × (f.check ≡ true → (E.reply t').returncode ≡ 0)
  run_ssh-eq-ok address cmd f skip t {t' = u} fg e =
      let t₁ : Trace = ssh_process address (ssh_options E f) cmd ∷ t in
      let e' = sym (run_ssh_fg address cmd f skip t fg) ∙ e in
      let same : t₁ ≡ u = ap (λ p. p.1) e' in
      let (not255, zero) = ssh_outcome-eq-ok f cmd skip (E.reply t₁) (ap (λ p. p.0) e') in
      (sym same, rw (← same) not255, rw (← same) zero)

  -- A command in the foreground that returned: the last event is its process, with the options of
  -- the flags, whose return code is not 255 and, with `check`, is 0.
  pub ssh-eq-ok :
      (address cmd : Text) (f : SshFlags) (t : Trace) {out : SshOutput} {t' : Trace}
      → f.background ≡ false
      → ssh E address cmd f t ≡ (ok out, t')
      → (before : Trace) × (t' ≡ ssh_process address (ssh_options E f) cmd ∷ before)
        × ((E.reply t').returncode ≢ 255)
        × (f.check ≡ true → (E.reply t').returncode ≡ 0)
  unfolding ssh
  ssh-eq-ok address cmd f t fg e =
      let (skip, before, eb, e') = >>=-eq-ok _ _ t e in
      let (last, not255, zero) = run_ssh-eq-ok address cmd f skip before fg e' in
      (before, last, not255, zero)
