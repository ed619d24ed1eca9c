-- ===== src/Commands/Tests.antt =====
-- A host that prints the banner `hi` before the output `ok` of any command.
use xcp_ng_tests.Prelude.{ℕ, ◌+◌, ◌≡◌, ◌≢◌, refl, true, false, some, [], ◌∷◌, Text, lit, strip}
use xcp_ng_tests.Effect.{ok, ◌>>=◌}
use xcp_ng_tests.Commands.{
  ssh_process, local_process, shell_process, sleep, Trace, Completed, Env, simple, default_flags,
  ssh_options, start_ssh, ssh_outcome, decoded, fetch_banner, run_ssh, ssh,
}
use xcp_ng_tests.Commands.Laws.{ssh-eq-ok}

-- One second for each process, and the length of each sleep.
abbrev pub elapsed : Trace → ℕ
elapsed [] = 0
elapsed (sleep n ∷ t) = elapsed t + n
elapsed (ssh_process address options cmd ∷ t) = elapsed t + 1
elapsed (local_process cmd ∷ t) = elapsed t + 1
elapsed (shell_process cmd input ∷ t) = elapsed t + 1

abbrev output : Text → Text
output (c ∷ d ∷ cmd) = lit "hiok"
output cmd = lit "hi"

abbrev reply : Trace → Completed
reply (ssh_process address options cmd ∷ t) = record {
  returncode = 0;
  stdout = output cmd;
  ssherr = [];
}
reply t = record { returncode = 0; stdout = []; ssherr = [] }

abbrev pub env : Env
env = record {
  reply = reply;
  clock = elapsed;
  decode = λ t. some t;
  decode_replace = λ t. t;
  ignore_ssh_banner = true;
  is_ipv6 = λ t. false;
  on_windows = true;
  pid = lit "42";
}

abbrev asked : Trace
asked =
    ssh_process (lit "host") (ssh_options env default_flags) (lit "true")
    ∷ ssh_process (lit "host") (ssh_options env default_flags) (10 ∷ [])
    ∷ []

answered : ssh env (lit "host") (lit "true") default_flags [] ≡ (ok (simple (lit "ok")), asked)
unfolding ssh fetch_banner run_ssh start_ssh ssh_outcome decoded ◌>>=◌ lit strip
answered = refl

ssh-eq-ok_example :
    (before : Trace) × (asked
      ≡ ssh_process (lit "host") (ssh_options env default_flags) (lit "true") ∷ before)
    × ((env.reply asked).returncode ≢ 255)
    × (default_flags.check ≡ true → (env.reply asked).returncode ≡ 0)
ssh-eq-ok_example = ssh-eq-ok env (lit "host") (lit "true") default_flags [] refl answered
