-- ===== src/Jobs/Command/Params.antt =====
-- Which arguments the parameters of a job that the user does not override become.
use mathlib.Core.Option
use mathlib.Core.Path.{subst}
use xcp_ng_tests.Prelude.{
  ◌≡◌, refl, ◌⊎◌, inl, inr, Bool, true, false, Bool-cases, ◌||◌, Option, none, some, List, [], ◌∷◌,
  ◌++◌, Text, All, text_eq, text_eq_iff, text_eq_refl, lit, contains, includes, arith,
}
use xcp_ng_tests.Effect.{Result, ok, bind}
use xcp_ng_tests.Effect.Laws.{bind-eq-ok}
use xcp_ng_tests.Jobs.{Refs, one, many}
use xcp_ng_tests.Jobs.Command.{
  Vms, before, strip_brackets, drop_brackets, job_params, vm_arg, vm_args, vms_str,
  get_vm_or_vms_refs, param_args, params_args,
}

-- The argument gives a value to no option of the given names.
abbrev pub NotGiven : List Text → Text → Type 0
NotGiven given arg = contains given (before b'=' arg) ≡ false

-- A key of a parameter that is the name of an option: it has no `=`, and no bracket at its end.
abbrev pub IsPlain : Text → Type 0
IsPlain key = (includes (b'=' ∷ []) key ≡ false) × (strip_brackets key ≡ key)

-- The keys that the jobs have.
abbrev pub IsKey : Text × Text → Type 0
IsKey param = (text_eq param.0 (lit "--vm[]") ≡ true) ⊎ IsPlain param.0

before-append :
    (key value : Text)
    → includes (b'=' ∷ []) key ≡ false
    → before b'=' (key ++ (b'=' ∷ value)) ≡ key
unfolding before
before-append [] value h = refl
before-append (c ∷ key) value h = ground (arith, before-append key value)

vm_arg-NotGiven :
    (given : List Text) (vm : Text)
    → contains given (lit "--vm") ≡ false
    → NotGiven given (vm_arg vm)
unfolding before vm_arg lit
vm_arg-NotGiven given vm h = h

vm_args-NotGiven :
    (given : List Text) (refs : Refs)
    → contains given (lit "--vm") ≡ false
    → All (NotGiven given) (vm_args refs)
unfolding vm_args
vm_args-NotGiven given (one []) h = tt
vm_args-NotGiven given (one (c ∷ vm)) h =
    (vm_arg-NotGiven given (c ∷ []) h, vm_args-NotGiven given (one vm) h)
vm_args-NotGiven given (many []) h = tt
vm_args-NotGiven given (many (vm ∷ vms)) h =
    (vm_arg-NotGiven given vm h, vm_args-NotGiven given (many vms) h)

strip_brackets-vms : strip_brackets (lit "--vm[]") ≡ lit "--vm"
unfolding strip_brackets drop_brackets lit
strip_brackets-vms = refl

pub mapped :
    (f : Refs → List Text) (o : Option Refs) {args : List Text}
    → ok (Option.map f o) ≡ ok (some args)
    → (refs : Refs) × (o ≡ some refs) × (f refs ≡ args)
mapped f none e = absurd (cc)
mapped f (some refs) e = (refs, refl, cc)

All-append : {A : Type 0} (P : A → Type 0) (xs ys : List A) → All P xs → All P ys → All P (xs ++ ys)
All-append P [] ys h k = k
All-append P (x ∷ xs) ys (p, h) k = (p, All-append P xs ys h k)

contains-append :
    (xs ys : List Text) (t : Text) → contains (xs ++ ys) t ≡ contains xs t || contains ys t
contains-append [] ys t = refl
contains-append (x ∷ xs) ys t = ground (arith, contains-append xs ys t)

-- The parameter of an option that is left to the job is among the arguments as it stands.
abbrev pub IsPassed : List Text → List Text → Text × Text → Type 0
IsPassed given args param =
    IsPlain param.0
    → text_eq param.0 (lit "--vm") ≡ false
    → text_eq param.0 (lit "--vm[]") ≡ false
    → contains given param.0 ≡ false
    → contains args (param.0 ++ (b'=' ∷ param.1)) ≡ true

-- No argument of the job is for an option that was given, and none of its options is lost.
abbrev pub IsRendered : List Text → List (Text × Text) → List Text → Type 0
IsRendered given params args = All (NotGiven given) args × All (IsPassed given args) params

module _ (re_match : Text → Text → Bool) (vms : Option Vms) (given : List Text) where
  param_args-NotGiven :
      (key value : Text) (host_version : Option Text) {args : List Text}
      → IsKey (key, value)
      → contains given (strip_brackets key) ≡ false
      → param_args re_match vms key value host_version ≡ ok (some args)
      → All (NotGiven given) args
  unfolding param_args
  param_args-NotGiven key value host_version {args} k free e =
      elim (Bool-cases (text_eq key (lit "--vm[]"))) [
        | inl multi ↦
            let (o, eo, e₁) =
              bind-eq-ok (get_vm_or_vms_refs re_match vms value host_version) _ (rw multi at e) in
            let (refs, named, same) = mapped vm_args o e₁ in
            let is_vms : key ≡ lit "--vm[]" = (text_eq_iff key (lit "--vm[]")).0 multi in
            subst (All (NotGiven given)) same (
              vm_args-NotGiven given refs
                (let f₁ = rw is_vms at free in rw strip_brackets-vms at f₁))
        | inr other ↦ elim k [
          | inl multi ↦ absurd (cc)
          | inr plain ↦ elim (Bool-cases (text_eq key (lit "--vm"))) [
            | inl vm ↦
                let (o, eo, e₁) =
                  bind-eq-ok (get_vm_or_vms_refs re_match vms value host_version) _
                    (rw vm at (rw other at e)) in
                let (refs, named, same) = mapped (λ refs. vm_arg (vms_str refs) ∷ []) o e₁ in
                let is_vm : key ≡ lit "--vm" = (text_eq_iff key (lit "--vm")).0 vm in
                let free' : contains given (lit "--vm") ≡ false =
                  rw (← is_vm) (rw plain.1 at free) in
                subst (All (NotGiven given)) same (vm_arg-NotGiven given (vms_str refs) free', tt)
            | inr neither ↦
                let same : ((key ++ (b'=' ∷ value)) ∷ []) ≡ args =
                  cc (rw neither at (rw other at e)) in
                subst (All (NotGiven given)) same
                  (rw (before-append key value plain.0) (rw plain.1 at free), tt)
          ]
        ]
      ]

  param_args-plain :
      (key value : Text) (host_version : Option Text)
      → text_eq key (lit "--vm") ≡ false
      → text_eq key (lit "--vm[]") ≡ false
      → param_args re_match vms key value host_version ≡ ok (some ((key ++ (b'=' ∷ value)) ∷ []))
  unfolding param_args
  param_args-plain key value host_version other multi = rw (multi, other) refl

  appended :
      (args : List Text) (o : Option (List Text)) {all : List Text}
      → ok (Option.map (λ l. args ++ l) o) ≡ ok (some all)
      → (rest : List Text) × (o ≡ some rest) × (args ++ rest ≡ all)
  appended args none e = absurd (cc)
  appended args (some rest) e = (rest, refl, cc)

  IsPassed-append :
      (xs ys : List Text) (param : Text × Text)
      → IsPassed given ys param
      → IsPassed given (xs ++ ys) param
  IsPassed-append xs ys param h plain other multi free =
      ground (arith, contains-append xs ys (param.0 ++ (b'=' ∷ param.1)), h plain other multi free)

  All-IsPassed-append :
      (xs ys : List Text) (params : List (Text × Text))
      → All (IsPassed given ys) params
      → All (IsPassed given (xs ++ ys)) params
  All-IsPassed-append xs ys [] h = tt
  All-IsPassed-append xs ys (param ∷ params) (p, h) =
      (IsPassed-append xs ys param p, All-IsPassed-append xs ys params h)

  -- The arguments of the first parameter and of the others.
  pub split_params_args :
      (first : Option (List Text)) (rest : Result (Option (List Text))) {args : List Text}
      → (elim first [ none ↦ ok none | some a ↦ bind rest (λ r. ok (Option.map (λ l. a ++ l) r)) ])
        ≡ ok (some args)
      → (a : List Text) × (r : List Text) × (first ≡ some a)
        × (rest ≡ ok (some r))
        × (a ++ r ≡ args)
  split_params_args none rest e = absurd (cc)
  split_params_args (some a) rest e =
      let (o, eo, e₁) = bind-eq-ok rest _ e in
      let (r, er, same) = appended a o e₁ in (a, r, refl, cc, same)

  pub params_args-IsRendered :
      (params : List (Text × Text)) (host_version : Option Text) {args : List Text}
      → All IsKey params
      → params_args re_match vms (job_params given params) host_version ≡ ok (some args)
      → IsRendered given params args
  unfolding params_args job_params
  params_args-IsRendered [] host_version k e =
      let same : [] ≡ _ = cc in subst (IsRendered given []) same (tt, tt)
  params_args-IsRendered ((key, value) ∷ params) host_version {args} (k, keys) e =
      elim (Bool-cases (contains given (strip_brackets key))) [
        | inl overridden ↦
            let (own, passed) =
              params_args-IsRendered params host_version keys (rw overridden at e) in
            (
              own,
              (λ plain other multi free. absurd (let c = rw plain.1 at overridden in cc), passed),
            )
        | inr free ↦
            let (o, eo, e₁) =
              bind-eq-ok (param_args re_match vms key value host_version) _ (rw free at e) in
            let (a, r, ea, er, same) = split_params_args o _ e₁ in
            let (own, passed) = params_args-IsRendered params host_version keys er in
            subst (IsRendered given ((key, value) ∷ params)) same (
              All-append (NotGiven given) a r
                  (param_args-NotGiven key value host_version k free (let x = ea in cc)) own,
              (
                λ plain other multi kept.
                    let e₂ = param_args-plain key value host_version other multi in
                    let is : ((key ++ (b'=' ∷ value)) ∷ []) ≡ a = cc in
                    subst (λ l. contains (l ++ r) (key ++ (b'=' ∷ value)) ≡ true) is
                      (rw (text_eq_refl (key ++ (b'=' ∷ value))) refl),
                All-IsPassed-append a r params passed,
              ),
            )
      ]
