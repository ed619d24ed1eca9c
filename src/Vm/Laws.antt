-- ===== src/Vm/Laws.antt =====
-- Which methods of a VM leave its attributes alone.
use xcp_ng_tests.Prelude.{Bool, Option, Text}
use xcp_ng_tests.Effect.{ok}
use xcp_ng_tests.Commands.{Env}
use xcp_ng_tests.Common.Xe.{Args}
use xcp_ng_tests.Objects.Laws.{Keeps, on_trace-Keeps, lift-Keeps, with_obj-Fixes, >>=-Fixes}
use xcp_ng_tests.Vm.{
  Vm, vm_host_xe, vm_host_xe_minimal, vm_xe, vm_param_get, power_state_is, is_running, is_halted,
}

abbrev all_of : Vm → Vm
all_of o = o

module _ (E : Env) where
  pub vm_host_xe-Keeps : (action : Text) (args : Vm → Args) → Keeps (vm_host_xe E action args)
  unfolding vm_host_xe
  vm_host_xe-Keeps action args = with_obj-Fixes all_of _ λ o. on_trace-Keeps Vm _

  pub vm_host_xe_minimal-Keeps :
      (action : Text) (args : Vm → Args) → Keeps (vm_host_xe_minimal E action args)
  unfolding vm_host_xe_minimal
  vm_host_xe_minimal-Keeps action args = with_obj-Fixes all_of _ λ o. on_trace-Keeps Vm _

  pub vm_xe-Keeps : (action : Text) (args : Args) → Keeps (vm_xe E action args)
  unfolding vm_xe
  vm_xe-Keeps action args = vm_host_xe-Keeps action _

  pub vm_param_get-Keeps :
      (param_name : Text) (key : Option Text) (b : Bool) → Keeps (vm_param_get E param_name key b)
  unfolding vm_param_get
  vm_param_get-Keeps param_name key b = with_obj-Fixes all_of _ λ o. on_trace-Keeps Vm _

  power_state_is-Keeps : (state : Text) → Keeps (power_state_is E state)
  unfolding power_state_is
  power_state_is-Keeps state =
      >>=-Fixes all_of _ _ (vm_param_get-Keeps _ _ _) λ p. lift-Keeps Vm (ok _)

  pub is_running-Keeps : Keeps (is_running E)
  unfolding is_running
  is_running-Keeps = power_state_is-Keeps _

  pub is_halted-Keeps : Keeps (is_halted E)
  unfolding is_halted
  is_halted-Keeps = power_state_is-Keeps _
