-- ===== src/Jobs/Command/Rendered.antt =====
-- The arguments that the parameters of a job become, one after the other.

use mathlib.Core.Path.{subst}
use xcp_ng_tests.Prelude.{
  ◌≡◌, sym, ap, ◌∙◌, ◌⊎◌, inl, inr, Bool, true, false, Bool-cases, Option, some, List, [], ◌∷◌,
  ◌++◌, Text, text_eq, text_eq_iff, lit, contains,
}
use xcp_ng_tests.Effect.{ok}
use xcp_ng_tests.Effect.Laws.{bind-eq-ok}
use xcp_ng_tests.Jobs.{Refs}
use xcp_ng_tests.Jobs.Command.{
  Vms, strip_brackets, job_params, vm_arg, vm_args, vms_str, get_vm_or_vms_refs, param_args,
  params_args,
}
use xcp_ng_tests.Jobs.Command.Params.{mapped, split_params_args}

module _ (re_match : Text → Text → Bool) (vms : Option Vms) (host_version : Option Text) where
  -- The VMs that a reference stands for, for the version of the host.
  abbrev pub Named : Text → Refs → Type 0
  Named handle refs = get_vm_or_vms_refs re_match vms handle host_version ≡ ok (some refs)

  -- What one parameter becomes: an argument for each of several VMs, one for the VM, or itself.
  abbrev pub IsArgs : Text → Text → List Text → Type 0
  IsArgs key value args =
      ((key ≡ lit "--vm[]") × ((refs : Refs) × Named value refs × (args ≡ vm_args refs)))
      ⊎ (((key ≡ lit "--vm")
            × ((refs : Refs) × Named value refs × (args ≡ (lit "--vm=" ++ vms_str refs) ∷ [])))
          ⊎ ((text_eq key (lit "--vm[]") ≡ false)
              × (text_eq key (lit "--vm") ≡ false)
              × (args ≡ (key ++ (b'=' ∷ value)) ∷ [])))

  param_args-IsArgs :
      (key value : Text) {args : List Text}
      → param_args re_match vms key value host_version ≡ ok (some args)
      → IsArgs key value args
  unfolding param_args vm_arg
  param_args-IsArgs key value e = elim (Bool-cases (text_eq key (lit "--vm[]"))) [
    | inl multi ↦
        let (o, eo, e₁) =
          bind-eq-ok (get_vm_or_vms_refs re_match vms value host_version) _ (rw multi at e) in
        let (refs, named, same) = mapped vm_args o e₁ in
        inl ((text_eq_iff key (lit "--vm[]")).0 multi, (refs, eo ∙ ap ok named, sym same))
    | inr other ↦ elim (Bool-cases (text_eq key (lit "--vm"))) [
      | inl vm ↦
          let (o, eo, e₁) =
            bind-eq-ok (get_vm_or_vms_refs re_match vms value host_version) _
              (rw vm at (rw other at e)) in
          let (refs, named, same) = mapped (λ refs. vm_arg (vms_str refs) ∷ []) o e₁ in
          inr (inl ((text_eq_iff key (lit "--vm")).0 vm, (refs, eo ∙ ap ok named, sym same)))
      | inr neither ↦ inr (inr (other, neither, cc (rw neither at (rw other at e))))
    ]
  ]

  -- All parameters in their order: one that is overridden becomes nothing.
  pub data Rendered (given : List Text) : List (Text × Text) → List Text → Type 0 where
    no_more : Rendered given [] []
    overridden :
        (key value : Text) {params : List (Text × Text)} {args : List Text}
        → contains given (strip_brackets key) ≡ true
        → Rendered given params args
        → Rendered given ((key, value) ∷ params) args
    passed :
        (key value : Text) {first : List Text} {params : List (Text × Text)} {args : List Text}
        → contains given (strip_brackets key) ≡ false
        → IsArgs key value first
        → Rendered given params args
        → Rendered given ((key, value) ∷ params) (first ++ args)

  pub params_args-Rendered :
      (given : List Text) (params : List (Text × Text)) {args : List Text}
      → params_args re_match vms (job_params given params) host_version ≡ ok (some args)
      → Rendered given params args
  unfolding params_args job_params
  params_args-Rendered given [] e = let same : [] ≡ _ = cc in subst (Rendered given []) same no_more
  params_args-Rendered given ((key, value) ∷ params) e =
      elim (Bool-cases (contains given (strip_brackets key))) [
        | inl taken ↦ overridden key value taken (params_args-Rendered given params (rw taken at e))
        | inr free ↦
            let (o, eo, e₁) =
              bind-eq-ok (param_args re_match vms key value host_version) _ (rw free at e) in
            let (a, r, ea, er, same) = split_params_args re_match vms given o _ e₁ in
            subst (Rendered given ((key, value) ∷ params)) same (
              passed key value free (param_args-IsArgs key value (eo ∙ ap ok ea))
                (params_args-Rendered given params er))
      ]
