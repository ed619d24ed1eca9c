-- ===== src/Sr/Tests.antt =====
-- The destruction of an SR on a host that every command succeeds on.
use xcp_ng_tests.Prelude.{false, lit, [], ◌≡◌, refl, strip, split}
use xcp_ng_tests.Effect.{ok, for_each, catch, catch_ssh, ◌>>=◌}
use xcp_ng_tests.Commands.{
  Trace, start_ssh, decoded, ssh_outcome, fetch_banner, run_ssh, ssh, as_text, ssh_text,
}
use xcp_ng_tests.Commands.Tests.{env}
use xcp_ng_tests.Common.Values.{safe_split}
use xcp_ng_tests.Common.Xe.{xe_command, xe, xe_minimal}
use xcp_ng_tests.Sr.{
  run_xe, list_xe, pbd_uuids, unplug_pbd, unplug_pbds, scan, sr_destroy, wait_destroyed,
  destroy_loop, destroy,
}
use xcp_ng_tests.Sr.Destroy.{Succeeds, destroy-Succeeds}

-- Where the run ends.
after : Trace
after = (destroy env (lit "host") (lit "sr") false false []).1

destroyed : destroy env (lit "host") (lit "sr") false false [] ≡ (ok tt, after)
unfolding after destroy destroy_loop wait_destroyed sr_destroy scan unplug_pbds unplug_pbd pbd_uuids
    list_xe run_xe xe xe_minimal xe_command safe_split ssh_text as_text ssh run_ssh fetch_banner
    ssh_outcome decoded start_ssh for_each catch_ssh catch ◌>>=◌ lit strip split
destroyed = refl

destroy-Succeeds_example :
    (t₀ : Trace) × (scan env (lit "host") (lit "sr") [] ≡ (ok tt, t₀))
    × Succeeds env (lit "host") (lit "sr") false false 5 t₀ after
destroy-Succeeds_example = destroy-Succeeds env (lit "host") (lit "sr") false false [] destroyed
