-- ===== src/Commands.antt =====
-- lib/commands.py: commands on a host through the `ssh` client. What the outside answers may
-- depend on all that was asked before: it is a function of the history, the parameter `Env`.
pub mod Laws
pub mod Local
pub mod PowerShell
pub mod Tests
use xcp_ng_tests.Prelude.{
  ℕ, zero, Bool, true, false, not, ◌&&◌, ◌||◌, Option, none, some, List, [], ◌∷◌, ◌++◌, Text, lit,
  strip, length, drop, leb, ◌==◌, if◌then◌else◌,
}
use xcp_ng_tests.Effect.{
  Exn, Result, ok, err, Exec, pure, raise, lift, gets, ◌>>=◌, ◌>>◌, ssh_command_failed,
  unicode_decode_error, assertion_error,
}

-- What the program does that others can see.
pub data Event : Type 0 where
  ssh_process : (address : Text) (options : List Text) (cmd : Text) → Event
  local_process : List Text → Event
  shell_process : (cmd input : Text) → Event
  sleep : ℕ → Event

-- The latest event comes first.
abbrev pub Trace : Type 0
Trace = List Event

-- How a process ended: its code, its output, and the log that `ssh -E` wrote.
pub record Completed : Type 0 where
  pub returncode : ℕ
  pub stdout : Text
  pub ssherr : Text

pub record Env : Type 0 where
  -- The answer to the process that was started last.
  pub reply : Trace → Completed
  -- `time.perf_counter()`, in seconds.
  pub clock : Trace → ℕ
  -- `bytes.decode()`, which may raise, and `decode(errors='replace')`.
  pub decode : Text → Option Text
  pub decode_replace : Text → Text
  -- `lib.netutil.is_ipv6`, which asks the socket library.
  pub is_ipv6 : Text → Bool
  -- `config.ignore_ssh_banner`, `platform.system() == "Windows"` and `os.getpid()`.
  pub ignore_ssh_banner : Bool
  pub on_windows : Bool
  pub pid : Text

pub data SshOutput : Type 0 where
  -- `simple_output`
  simple : Text → SshOutput
  -- `SSHResult`
  full : (returncode : ℕ) (stdout ssherr : Text) → SshOutput
  -- `background`
  started : SshOutput

pub record SshFlags : Type 0 where
  pub check : Bool
  pub simple_output : Bool
  pub suppress_fingerprint_warnings : Bool
  pub background : Bool
  pub decode : Bool
  pub options : List Text
  pub multiplexing : Bool

abbrev pub default_flags : SshFlags
default_flags = record {
  check = true;
  simple_output = true;
  suppress_fingerprint_warnings = true;
  background = false;
  decode = true;
  options = [];
  multiplexing = true;
}

module _ (E : Env) where
  pub ssh_options : SshFlags → List Text
  ssh_options f =
      f.options
      ++ (lit "-o" ∷ lit "BatchMode yes" ∷ lit "-o" ∷ lit "PubkeyAcceptedKeyTypes +ssh-rsa" ∷ [])
      ++ (if f.suppress_fingerprint_warnings
          then lit "-o"
            ∷ lit "StrictHostKeyChecking no"
            ∷ lit "-o"
            ∷ lit "LogLevel ERROR"
            ∷ lit "-o"
            ∷ lit "UserKnownHostsFile /dev/null"
            ∷ []
          else [])
      ++ (if f.multiplexing && not E.on_windows
          then lit "-o"
            ∷ lit "ControlMaster auto"
            ∷ lit "-o"
            ∷ (lit "ControlPath ~/.ssh/control-" ++ (E.pid ++ lit ":%h:%p:%r"))
            ∷ lit "-o"
            ∷ lit "ControlPersist 10m"
            ∷ lit "-o"
            ∷ lit "ServerAliveInterval 10s"
            ∷ []
          else lit "-o" ∷ lit "ControlMaster no" ∷ [])

  unfoldable pub start_ssh : Text → List Text → Text → Exec Trace Completed
  start_ssh address options cmd t =
      let t' = ssh_process address options cmd ∷ t in (ok (E.reply t'), t')

  unfoldable pub decoded : Text → Result Text
  decoded bytes = elim (E.decode bytes) [ none ↦ err unicode_decode_error | some s ↦ ok s ]

  -- The part of `_ssh` behind the end of the process. `skip` is the length of the banner.
  unfoldable pub ssh_outcome : SshFlags → Text → ℕ → Completed → Result SshOutput
  ssh_outcome f cmd skip res =
      let failed =
        err (
          ssh_command_failed res.returncode (strip (E.decode_replace res.stdout)) cmd res.ssherr) in
      let output = drop skip res.stdout in
      if res.returncode == 255
      then err (
          ssh_command_failed 255 (lit "SSH Error: " ++ strip (E.decode_replace res.stdout)) cmd
            res.ssherr)
      else if not (res.returncode == 0) && f.check
      then failed
      else if f.decode
      then elim (decoded output) [
        | err e ↦ err e
        | ok s ↦ ok (if f.simple_output then simple (strip s) else full res.returncode s res.ssherr)
      ]
      else ok
          (if f.simple_output then simple (strip output) else full res.returncode output res.ssherr)

  -- The length of the banner that the host prints before the output of any command.
  unfoldable pub fetch_banner : Text → SshFlags → Text → Exec Trace ℕ
  fetch_banner address f cmd = if not E.ignore_ssh_banner then pure 0 else do
    banner ← start_ssh address (ssh_options f) (10 ∷ [])
    if banner.returncode == 255
        then raise (ssh_command_failed 255 (lit "SSH Error: " ++ banner.ssherr) cmd banner.ssherr)
        else pure (length banner.stdout)

  -- The command itself, in the background or not.
  unfoldable pub run_ssh : Text → Text → SshFlags → ℕ → Exec Trace SshOutput
  run_ssh address cmd f skip =
      if f.background
      then start_ssh address (ssh_options f) cmd >>= (λ _. pure started)
      else start_ssh address (ssh_options f) cmd >>= (λ res. lift (ssh_outcome f cmd skip res))

  -- `_ssh`, and `ssh`, which raises the failure that `_ssh` returns.
  unfoldable pub ssh : Text → Text → SshFlags → Exec Trace SshOutput
  ssh address cmd f = do skip ← fetch_banner address f cmd; run_ssh address cmd f skip

  unfoldable pub as_text : SshOutput → Result Text
  as_text (simple s) = ok s
  as_text (full rc s ssherr) = err assertion_error
  as_text started = err assertion_error

  -- `ssh(address, cmd)` with its defaults, which returns a text.
  unfoldable pub ssh_text : Text → Text → Exec Trace Text
  ssh_text address cmd = do out ← ssh address cmd default_flags; lift (as_text out)

  unfoldable pub as_code : SshOutput → Result ℕ
  as_code (simple s) = err assertion_error
  as_code (full rc s ssherr) = ok rc
  as_code started = err assertion_error

  -- `ssh_with_result(address, cmd).returncode`
  unfoldable pub ssh_with_result : Text → Text → Exec Trace ℕ
  ssh_with_result address cmd = do
    out ← ssh address cmd (record default_flags { check = false; simple_output = false })
    lift (as_code out)

  -- `ssh(address, cmd, check=False)`
  pub ssh_unchecked : Text → Text → Exec Trace Text
  ssh_unchecked address cmd = do
    out ← ssh address cmd (record default_flags { check = false })
    lift (as_text out)

  -- `ssh(address, cmd, decode=False)`: the bytes of the output.
  pub ssh_bytes : Text → Text → Exec Trace Text
  ssh_bytes address cmd = do
    out ← ssh address cmd (record default_flags { decode = false })
    lift (as_text out)

  -- `ssh(address, cmd, background=True)`
  pub ssh_background : Text → Text → Exec Trace (Unit {0})
  ssh_background address cmd =
      ssh address cmd (record default_flags { background = true }) >>= λ _. pure tt
