-- ===== src/Hosts/Power/Laws.antt =====
-- What the return of a reboot means.
use xcp_ng_tests.Prelude.{◌≡◌, sym, ap, ◌∙◌, Bool, true, false, lit}
use xcp_ng_tests.Effect.{ok}
use xcp_ng_tests.Effect.Laws.{>>=-eq-ok, check-eq-ok}
use xcp_ng_tests.Commands.{Env, Trace}
use xcp_ng_tests.Common.Waiting.{trace_clock}
use xcp_ng_tests.Common.Waiting.Passed.{Answered, wait_for-Answered}
use xcp_ng_tests.Hosts.{Host, host_run}
use xcp_ng_tests.Hosts.Power.{
  ping, ssh_port_open, is_enabled, wait_for_host_down, wait_for_host_up, wait_for_ssh_reachable,
  wait_for_xapi_enabled, reboot_verify, reboot,
}

module _ (E : Env) (h : Host) where
  wait_for_xapi_enabled-Answered :
      (t : Trace) {u : Unit {0}} {t' : Trace}
      → wait_for_xapi_enabled E h t ≡ (ok u, t')
      → Answered (is_enabled E h) true t'
  unfolding wait_for_xapi_enabled
  wait_for_xapi_enabled-Answered t {t' = t'} e =
      let (a, t₁, initialised, e₁) = >>=-eq-ok _ _ t e in
      let (enabled, t₂, asked, e₂) = >>=-eq-ok _ _ t₁ e₁ in
      let (yes_enabled, same) = check-eq-ok enabled t₂ e₂ in
      (
        t₁,
        asked
            ∙ ap {A = Bool} (λ b. (ok b, t₂)) yes_enabled
            ∙ ap {A = Trace} (λ s. (ok true, s)) (sym same),
      )

  -- The course of a reboot that was verified, from the state behind its command on.
  abbrev pub Rebooted : Trace → Trace → Type 0
  Rebooted t t' =
      (t₁ t₂ t₃ : Trace) × (wait_for_host_down E h t ≡ (ok tt, t₁))
      × Answered (ping E h) false t₁
      × (wait_for_host_up E h t₁ ≡ (ok tt, t₂))
      × Answered (ping E h) true t₂
      × (wait_for_ssh_reachable E h t₂ ≡ (ok tt, t₃))
      × Answered (ssh_port_open E h) true t₃
      × Answered (is_enabled E h) true t'

  reboot_verify-Rebooted :
      (t : Trace) {u : Unit {0}} {t' : Trace} → reboot_verify E h t ≡ (ok u, t') → Rebooted t t'
  unfolding reboot_verify wait_for_host_down wait_for_host_up wait_for_ssh_reachable
  reboot_verify-Rebooted t e =
      let (c, t₃, e₃, enabled) = >>=-eq-ok _ _ t e in
      let (b, t₂, e₂, reachable) = >>=-eq-ok _ _ t e₃ in
      let (a, t₁, down, up) = >>=-eq-ok _ _ t e₂ in
      (
        t₁,
        t₂,
        t₃,
        down,
        wait_for-Answered (trace_clock E) (ping E h) 120 2 true _ t down,
        up,
        wait_for-Answered (trace_clock E) (ping E h) 600 10 false _ t₁ up,
        reachable,
        wait_for-Answered (trace_clock E) (ssh_port_open E h) 600 5 false _ t₂ reachable,
        wait_for_xapi_enabled-Answered t₃ enabled,
      )

  -- Whenever a reboot with verify returns, it did, in this order: the command returned; a ping failed;
  -- a later one was answered; a later attempt found the ssh port open; and the run ended with a
  -- question whether the host is enabled that was answered with yes.
  pub reboot-Rebooted :
      (t : Trace) {u : Unit {0}} {t' : Trace}
      → reboot E h true t ≡ (ok u, t')
      → (t₀ : Trace) × (host_run E h (lit "systemd-run --on-active=2s reboot") t ≡ (ok tt, t₀))
        × Rebooted t₀ t'
  unfolding reboot
  reboot-Rebooted t e =
      let (a, t₀, ordered, e₁) = >>=-eq-ok _ _ t e in (t₀, ordered, reboot_verify-Rebooted t₀ e₁)
