-- ===== src/Vm/Cleanup.antt =====
-- What is cleaned up behind a step on a VM, however the step ends.
use xcp_ng_tests.Prelude.{
  ◌≡◌, refl, sym, ap, ◌∙◌, Bool, true, false, not, none, [], Text, lit, ◌++◌,
}
use xcp_ng_tests.Effect.{ok}
use xcp_ng_tests.Effect.Laws.{>>=-eq-ok, >>=-step, check-eq-ok, try_finally-last, try_finally-eq-ok}
use xcp_ng_tests.Commands.{Env}
use xcp_ng_tests.Common.Waiting.Passed.{Answered}
use xcp_ng_tests.Objects.{Obj, on_trace, with_obj}
use xcp_ng_tests.Hosts.{host_ssh}
use xcp_ng_tests.Vm.{Vm, wait_for_vm_running_and_ssh_up}
use xcp_ng_tests.Vm.Migration.{snapshot}
use xcp_ng_tests.Vm.Guest.{
  snapshot_exists, snapshot_destroy, snapshot_reverts, test_snapshot_on_running_vm,
}
use xcp_ng_tests.Vm.Uefi.{on_host, set_variable_from_file}

not-true : (b : Bool) → not b ≡ true → b ≡ false
not-true true h = absurd (cc)
not-true false h = refl

module _ (E : Env) where
  snapshot_destroy-Answered :
      (uuid : Text) (s : Obj Vm) {u : Unit {0}} {s' : Obj Vm}
      → snapshot_destroy E uuid true s ≡ (ok u, s')
      → Answered (snapshot_exists E uuid) false s'
  unfolding snapshot_destroy
  snapshot_destroy-Answered uuid s e =
      let (out, s₁, removed, e₁) = >>=-eq-ok _ _ s e in
      let (there, s₂, asked, e₂) = >>=-eq-ok _ _ s₁ e₁ in
      let (gone, same) = check-eq-ok (not there) s₂ e₂ in
      (
        s₁,
        asked
            ∙ ap {A = Bool} (λ b. (ok b, s₂)) (not-true there gone)
            ∙ ap {A = Obj Vm} (λ s. (ok false, s)) (sym same),
      )

  -- Once the VM was up and the snapshot was taken, the test of snapshots ends with the destruction of
  -- that snapshot, whether what it tests held or raised.
  pub test_snapshot_on_running_vm-last :
      (s : Obj Vm) {u : Unit {0}} {s₁ : Obj Vm} {uuid : Text} {s₂ : Obj Vm}
      → wait_for_vm_running_and_ssh_up E s ≡ (ok u, s₁)
      → snapshot E [] none s₁ ≡ (ok uuid, s₂)
      → (test_snapshot_on_running_vm E s).1
        ≡ (snapshot_destroy E uuid true (snapshot_reverts E uuid s₂).1).1
  unfolding test_snapshot_on_running_vm
  test_snapshot_on_running_vm-last s {s₁ = s₁} {uuid = uuid} {s₂ = s₂} up taken =
      ap (λ p. p.1) (>>=-step _ _ s up ∙ >>=-step _ _ s₁ taken)
      ∙ try_finally-last (snapshot_reverts E uuid) (snapshot_destroy E uuid true) s₂

  -- A run of the test of snapshots that returned: the VM was up, a snapshot was taken, all that the
  -- test does with it returned, then it was destroyed, and the last question whether it exists was
  -- answered with no.
  abbrev pub HasTested : Obj Vm → Unit {0} → Obj Vm → Type 0
  HasTested s v s' =
      (s₁ s₂ : Obj Vm) × (u : Unit {0}) × (uuid : Text) × (wait_for_vm_running_and_ssh_up E s
        ≡ (ok u, s₁))
      × (snapshot E [] none s₁ ≡ (ok uuid, s₂))
      × ((snapshot_reverts E uuid s₂).0 ≡ ok v)
      × (snapshot_destroy E uuid true (snapshot_reverts E uuid s₂).1 ≡ (ok tt, s'))
      × Answered (snapshot_exists E uuid) false s'

  -- Whenever the test of snapshots returns, the VM was up, then a snapshot was taken, and then all
  -- that the test does from there on, up to the file that is gone, returned, and so did the
  -- destruction of this very snapshot; the run ended with a question whether it exists that was
  -- answered with no.
  pub test_snapshot_on_running_vm-Answered :
      (s : Obj Vm) {v : Unit {0}} {s' : Obj Vm}
      → test_snapshot_on_running_vm E s ≡ (ok v, s')
      → HasTested s v s'
  unfolding test_snapshot_on_running_vm
  test_snapshot_on_running_vm-Answered s e =
      let (u, s₁, up, e₁) = >>=-eq-ok _ _ s e in
      let (uuid, s₂, taken, e₂) = >>=-eq-ok _ _ s₁ e₁ in
      let (w, destroyed, held) =
        try_finally-eq-ok (snapshot_reverts E uuid) (snapshot_destroy E uuid true) s₂ e₂ in
      (
        s₁,
        s₂,
        u,
        uuid,
        up,
        taken,
        held,
        destroyed,
        snapshot_destroy-Answered uuid (snapshot_reverts E uuid s₂).1 destroyed,
      )

  -- Once the file on the host has its name, setting a variable from a file ends with the removal of
  -- that file, whether the copy or the setting raised or not.
  pub set_variable_from_file-removes :
      (filepath guid name attr : Text) (s : Obj Vm) {dest : Text} {s₁ : Obj Vm}
      → (with_obj {A = Text} λ (o : Vm). on_trace (host_ssh E o.host.host (lit "mktemp"))) s
        ≡ (ok dest, s₁)
      → (s₂ : Obj Vm) × ((set_variable_from_file E filepath guid name attr s).1
          ≡ (on_host E (λ o. lit "rm -f " ++ dest) s₂).1)
  unfolding set_variable_from_file
  set_variable_from_file-removes filepath guid name attr s {dest = dest} {s₁ = s₁} made =
      (_, ap (λ p. p.1) (>>=-step _ _ s made) ∙ try_finally-last _ _ s₁)
