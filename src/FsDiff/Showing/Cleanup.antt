-- ===== src/FsDiff/Showing/Cleanup.antt =====
-- `remote_diff` leaves no temporary file behind.
use mathlib.Core.Path.{subst}
use xcp_ng_tests.Prelude.{
  ◌≡◌, refl, sym, ap, ◌∙◌, false, not, Option, none, some, List, [], ◌∷◌, Text, text_eq,
  text_eq_refl, contains, select, arith, Bool-cases, inl, inr, lit, lower, starts_with, ◌++◌, ◌==◌,
}
use xcp_ng_tests.Effect.{Result, ok, err, Exec, pure, lift, ◌>>=◌, catch}
use xcp_ng_tests.Effect.Ends.{EndsIn, >>=-EndsIn, catch-EndsIn, lift-EndsIn}
use xcp_ng_tests.Effect.Laws.{try_finally-last, try_finally-result}
use xcp_ng_tests.Commands.{Env, Trace, Completed, decoded}
use xcp_ng_tests.Common.Xe.{quote}
use xcp_ng_tests.FsDiff.Collect.{ssh_cmd}
use xcp_ng_tests.FsDiff.Showing.{
  Script, on_trace, print, make_ref, make_test, sftp_get, start_diff, show_diff, fetch_and_diff,
  diff_text_files, remove_both, remove_files, remote_diff,
}

-- The same name, compared the other way.
text_eq_swap : (a b : Text) → text_eq a b ≡ text_eq b a
text_eq_swap [] [] = refl
text_eq_swap [] (d ∷ b) = refl
text_eq_swap (c ∷ a) [] = refl
text_eq_swap (c ∷ a) (d ∷ b) = ground (arith, text_eq_swap a b)

select_absent :
    (name : Text) (files : List Text)
    → contains files name ≡ false
    → select (λ f. not (text_eq f name)) files ≡ files
select_absent name [] h = refl
select_absent name (f ∷ files) h = ground (arith, select_absent name files, text_eq_swap f name)

-- What the `finally` of `remote_diff` does in this state ends with the given files.
abbrev pub Removable : List Text → Script → Type 0
Removable files s = ((remove_files s).0 ≡ ok tt) × ((remove_files s).1.temp_files ≡ files)

-- The states of the body: no file was made yet, the first was, or both were.
abbrev Start : List Text → Script → Type 0
Start files s = (s.temp_files ≡ files) × (s.file_ref ≡ none) × (s.file_test ≡ none)

abbrev One : List Text → Text → Script → Type 0
One files ref s =
    (s.temp_files ≡ ref ∷ files)
    × (s.file_ref ≡ some ref)
    × (s.file_test ≡ none)
    × (contains files ref ≡ false)

abbrev Two : List Text → Text → Text → Script → Type 0
Two files ref test s =
    (s.temp_files ≡ test ∷ ref ∷ files)
    × (s.file_ref ≡ some ref)
    × (s.file_test ≡ some test)
    × (contains files ref ≡ false)
    × (contains (ref ∷ files) test ≡ false)

-- What is left when both variables are known.
module _ (files : List Text) (ref test : Option Text) (s : Script) where
  remove_both-Removable :
      (s.file_ref ≡ ref)
      → (s.file_test ≡ test)
      → ((remove_both ref test s).0 ≡ ok tt) × ((remove_both ref test s).1.temp_files ≡ files)
      → Removable files s
  unfolding remove_files
  remove_both-Removable at_ref at_test h =
      subst
        (λ r.
          ((remove_both r s.file_test s).0 ≡ ok tt)
          × ((remove_both r s.file_test s).1.temp_files ≡ files))
        (sym at_ref)
        (subst
          (λ t. ((remove_both ref t s).0 ≡ ok tt) × ((remove_both ref t s).1.temp_files ≡ files))
          (sym at_test) h)

Start-Removable : (files : List Text) (s : Script) → Start files s → Removable files s
unfolding remove_both
Start-Removable files s (temps, ref, test) =
    remove_both-Removable files none none s ref test (refl, temps)

One-Removable : (files : List Text) (ref : Text) (s : Script) → One files ref s → Removable files s
unfolding remove_both
One-Removable files ref s (temps, at_ref, at_test, new) =
    remove_both-Removable files (some ref) none s at_ref at_test (
      refl,
      ap (select (λ f. not (text_eq f ref))) temps
          ∙ rw (text_eq_refl ref) (select_absent ref files new),
    )

Two-Removable :
    (files : List Text) (ref test : Text) (s : Script) → Two files ref test s → Removable files s
unfolding remove_both
Two-Removable files ref test s (temps, at_ref, at_test, new, new') =
    remove_both-Removable files (some ref) (some test) s at_ref at_test (
      refl,
      ap (λ l. select (λ f. not (text_eq f test)) (select (λ f. not (text_eq f ref)) l)) temps
          ∙ ground (
            arith,
            text_eq_swap test ref,
            text_eq_refl ref,
            text_eq_refl test,
            select_absent ref files,
            select_absent test files,
          ),
    )

traced :
    {A : Type 0} (P : Script → Type 0) (p : Result A × Trace) (s : Script)
    → ((t : Trace) → P (record s { trace = t }))
    → EndsIn (λ _. P) P (p.0, record s { trace = p.1 })
traced P (ok a, t) s h = h t
traced P (err e, t) s h = h t

-- A command changes no temporary file.
on_trace-EndsIn :
    {A : Type 0} (P : Script → Type 0) (m : Exec Trace A) (s : Script)
    → ((t : Trace) → P (record s { trace = t }))
    → EndsIn (λ _. P) P (on_trace m s)
on_trace-EndsIn P m s h = traced P (m s.trace) s h

EndsIn-map :
    {A : Type 0} {Q R : A → Script → Type 0} {E F : Script → Type 0} (p : Result A × Script)
    → ((a : A) (s : Script) → Q a s → R a s)
    → ((s : Script) → E s → F s)
    → EndsIn Q E p
    → EndsIn R F p
EndsIn-map (ok a, s) f g h = f a s h
EndsIn-map (err e, s) f g h = g s h

module _ (E : Env) (mkstemp : List Text → Text → Text)
    (fresh : (temps : List Text) (suffix : Text) → contains temps (mkstemp temps suffix) ≡ false)
    (files : List Text) where
  abbrev Ends : {A : Type 0} → Result A × Script → Type 0
  Ends p = EndsIn (λ _. Removable files) (Removable files) p

  -- A command between the steps, in a state from which the files can be removed.
  command :
      {A B : Type 0} (P : Script → Type 0) (m : Exec Trace A) (f : A → Exec Script B) (s : Script)
      → ((s' : Script) → P s' → Removable files s')
      → ((t : Trace) → P (record s { trace = t }))
      → ((a : A) (s' : Script) → P s' → Ends (f a s'))
      → Ends ((on_trace m >>= f) s)
  command P m f s removable h next =
      >>=-EndsIn (λ _. P) _ _ (on_trace m) f s
        (EndsIn-map (on_trace m s) (λ a s' p. p) removable (on_trace-EndsIn P m s h)) next

  show_diff-Ends :
      (ref test : Text) (res : Completed) (s : Script)
      → Two files ref test s
      → Ends (show_diff E mkstemp res s)
  unfolding show_diff print
  show_diff-Ends ref test res s two = elim (Bool-cases (res.returncode == 1)) [
    | inl differs ↦ rw differs (
        >>=-EndsIn (λ _. Two files ref test) _ _ (lift (decoded E res.stdout)) _ s
          (EndsIn-map (lift (decoded E res.stdout) s) (λ a s' p. p) (Two-Removable files ref test)
            (lift-EndsIn (Two files ref test) (decoded E res.stdout) s two))
          λ line s' two'. Two-Removable files ref test _ two')
    | inr other ↦ elim (Bool-cases (res.returncode == 2)) [
      | inl failed ↦ rw (other, failed) (Two-Removable files ref test s two)
      | inr same ↦ rw (other, same) (Two-Removable files ref test s two)
    ]
  ]

  make_ref-Ends :
      (s : Script) → Start files s → EndsIn (One files) (Removable files) (make_ref E mkstemp s)
  unfolding make_ref
  make_ref-Ends s (temps, at_ref, at_test) =
      let ref = mkstemp s.temp_files (lit "_ref") in
      (
        ap (λ l. ref ∷ l) temps,
        refl,
        at_test,
        subst (λ l. contains l ref ≡ false) temps (fresh s.temp_files (lit "_ref")),
      )

  make_test-Ends :
      (ref : Text) (s : Script)
      → One files ref s
      → EndsIn (Two files ref) (Removable files) (make_test E mkstemp s)
  unfolding make_test
  make_test-Ends ref s (temps, at_ref, at_test, new) =
      let test = mkstemp s.temp_files (lit "_test") in
      (
        ap (λ l. test ∷ l) temps,
        at_ref,
        refl,
        new,
        subst (λ l. contains l test ≡ false) temps (fresh s.temp_files (lit "_test")),
      )

  fetch_and_diff-Ends :
      (host_ref host_test filename : Text) (s : Script)
      → Start files s
      → Ends (fetch_and_diff E mkstemp host_ref host_test filename s)
  unfolding fetch_and_diff
  fetch_and_diff-Ends host_ref host_test filename s start =
      >>=-EndsIn (One files) _ _ (make_ref E mkstemp) _ s (make_ref-Ends s start) λ ref s₁ one.
        command (One files ref) (sftp_get E mkstemp host_ref filename ref) _ s₁
          (One-Removable files ref) (λ t. one)
          λ u s₂ one'.
            >>=-EndsIn (Two files ref) _ _ (make_test E mkstemp) _ s₂ (make_test-Ends ref s₂ one')
              λ test s₃ two.
                command (Two files ref test) (sftp_get E mkstemp host_test filename test) _ s₃
                  (Two-Removable files ref test) (λ t. two)
                  λ v s₄ two'.
                    command (Two files ref test) (start_diff E mkstemp ref test) _ s₄
                      (Two-Removable files ref test) (λ t. two')
                      λ res s₅ two''. show_diff-Ends ref test res s₅ two''

  diff_text_files-Ends :
      (host_ref host_test filename : Text) (s : Script)
      → Start files s
      → Ends (diff_text_files E mkstemp host_ref host_test filename s)
  unfolding diff_text_files print
  diff_text_files-Ends host_ref host_test filename s start =
      command (Start files) (ssh_cmd E host_ref (lit "file -b " ++ quote filename)) _ s
        (Start-Removable files) (λ t. start)
        λ file_type s₁ start'. elim (Bool-cases (starts_with (lit "ascii") (lower file_type))) [
          | inl text ↦ rw text (fetch_and_diff-Ends host_ref host_test filename s₁ start')
          | inr binary ↦ rw binary (Start-Removable files _ start')
        ]

-- What is known once the body and its handler are through.
handled_and_removed :
    (files : List Text) (p : Result (Unit {0}) × Script)
    → EndsIn (λ _. Removable files) (λ _. ⊥) p
    → (p.0 ≡ ok tt) × ((remove_files p.1).0 ≡ ok tt) × ((remove_files p.1).1.temp_files ≡ files)
handled_and_removed files (ok u, s) (done, left) = (refl, done, left)
handled_and_removed files (err e, s) h = absurd h

-- Where the names that `mkstemp` chooses are new, `remote_diff` never raises, and it leaves exactly
-- the temporary files that were there before, whatever its commands answer.
pub remote_diff-clean :
    (E : Env) (mkstemp : List Text → Text → Text) (host_ref host_test filename : Text) (s : Script)
    → ((temps : List Text) (suffix : Text) → contains temps (mkstemp temps suffix) ≡ false)
    → ((remote_diff E mkstemp host_ref host_test filename s).0 ≡ ok tt)
      × ((remote_diff E mkstemp host_ref host_test filename s).1.temp_files ≡ s.temp_files)
unfolding remote_diff
remote_diff-clean E mkstemp host_ref host_test filename s fresh =
    let files = s.temp_files in
    let begin : Script = record s { file_ref = none; file_test = none } in
    let body = diff_text_files E mkstemp host_ref host_test filename in
    let safe : Exec Script (Unit {0}) = catch body (λ e. pure tt) in
    let ends =
      diff_text_files-Ends E mkstemp fresh files host_ref host_test filename begin
        (refl, refl, refl) in
    let (fine, done, left) = handled_and_removed files (safe begin) (
      catch-EndsIn (λ _. Removable files) (Removable files) (λ _. ⊥) body (λ e. pure tt) begin ends
        (λ e s' removable. removable)) in
    (
      try_finally-result safe remove_files begin done ∙ fine,
      ap (λ (t : Script). t.temp_files) (try_finally-last safe remove_files begin) ∙ left,
    )
