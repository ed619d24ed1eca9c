-- ===== src/Commands/Local.antt =====
-- lib/commands.py and lib/netutil.py: commands on the machine of the tester, and file transfer.
use xcp_ng_tests.Prelude.{
  ℕ, Bool, not, ◌&&◌, List, [], ◌∷◌, ◌++◌, Text, lit, strip, join, ◌==◌, if◌then◌else◌,
}
use xcp_ng_tests.Effect.{
  Result, ok, err, bind, Exec, lift, ◌>>=◌, ssh_command_failed, local_command_failed,
}
use xcp_ng_tests.Commands.{Env, Trace, Completed, local_process, shell_process, decoded}

-- Every other command of the two has them; see `scp_options`.
abbrev batch_mode : List Text
batch_mode = lit "-o" ∷ lit "BatchMode=yes" ∷ []

abbrev pub no_fingerprints : List Text
no_fingerprints =
    lit "-o"
    ∷ lit "StrictHostKeyChecking=no"
    ∷ lit "-o"
    ∷ lit "LogLevel=ERROR"
    ∷ lit "-o"
    ∷ lit "UserKnownHostsFile=/dev/null"
    ∷ []

-- The options of `scp`: the second list is assigned, so it replaces the first.
pub scp_options : Bool → List Text
scp_options suppress_fingerprint_warnings =
    if suppress_fingerprint_warnings then no_fingerprints else batch_mode

module _ (E : Env) where
  unfoldable pub start_local : List Text → Exec Trace Completed
  start_local cmd t = let t' = local_process cmd ∷ t in (ok (E.reply t'), t')

  start_shell : Text → Text → Exec Trace Completed
  start_shell cmd input t = let t' = shell_process cmd input ∷ t in (ok (E.reply t'), t')

  unfoldable pub local_outcome : Bool → Bool → Completed → Result (ℕ × Text)
  local_outcome check decode res =
      if not (res.returncode == 0) && check
      then err (local_command_failed res.returncode (strip (E.decode_replace res.stdout)))
      else if decode
      then bind (decoded E res.stdout) (λ s. ok (res.returncode, s))
      else ok (res.returncode, res.stdout)

  -- The return code and the output.
  unfoldable pub local_cmd : List Text → Bool → Bool → Exec Trace (ℕ × Text)
  local_cmd cmd check decode = start_local cmd >>= λ res. lift (local_outcome check decode res)

  pub wrap_ip : Text → Text
  wrap_ip ip = if E.is_ipv6 ip then lit "[" ++ (ip ++ lit "]") else ip

  -- How `scp` and `sftp` end: the return code, or with `check` an exception if it is not 0.
  pub transfer_outcome : Bool → Text → Completed → Result ℕ
  transfer_outcome check command res =
      if check && not (res.returncode == 0)
      then bind (decoded E res.stdout) (λ s. err (ssh_command_failed res.returncode s command []))
      else ok res.returncode

  remote_path : Text → Text → Text
  remote_path address path = lit "root@" ++ (wrap_ip address ++ (lit ":" ++ path))

  pub scp_command : Text → Text → Text → Bool → Bool → List Text
  scp_command address src dest suppress_fingerprint_warnings local_dest =
      lit "scp"
      ∷ (scp_options suppress_fingerprint_warnings
          ++ (if local_dest
              then remote_path address src ∷ dest ∷ []
              else src ∷ remote_path address dest ∷ []))

  pub scp : Text → Text → Text → Bool → Bool → Bool → Exec Trace ℕ
  scp address src dest check suppress_fingerprint_warnings local_dest =
      let command = scp_command address src dest suppress_fingerprint_warnings local_dest in
      start_local command >>= λ res. lift (transfer_outcome check (join (lit " ") command) res)

  sftp_command : Text → Bool → Text
  sftp_command address suppress_fingerprint_warnings =
      lit "sftp "
      ++ ((if suppress_fingerprint_warnings
            then lit
                "-o \"StrictHostKeyChecking no\" -o \"LogLevel ERROR\" -o \"UserKnownHostsFile /dev/null\""
            else [])
          ++ (lit " -b - root@" ++ address))

  pub sftp : Text → List Text → Bool → Bool → Exec Trace ℕ
  sftp address cmds check suppress_fingerprint_warnings =
      let args = sftp_command address suppress_fingerprint_warnings in
      start_shell args (join (10 ∷ []) cmds) >>= λ res. lift (transfer_outcome check args res)
