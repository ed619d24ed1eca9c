-- ===== src/Hosts/Making/Tests.antt =====
-- A pool of two hosts, whose master answers the commands of the constructor in turn.
use xcp_ng_tests.Prelude.{
  ℕ, zero, suc, ◌≡◌, refl, List, [], ◌∷◌, ◌++◌, Text, lit, strip, split, splitlines,
}
use xcp_ng_tests.Effect.{ok, catch, catch_ssh, ◌>>=◌}
use xcp_ng_tests.Effect.Ends.{EndsIn}
use xcp_ng_tests.Commands.{
  Trace, Completed, Env, ssh_text, ssh, fetch_banner, run_ssh, start_ssh, ssh_outcome, decoded,
  as_text,
}
use xcp_ng_tests.Common.Values.{strtobool, safe_split}
use xcp_ng_tests.Common.Xe.{xe, xe_minimal, param_get}
use xcp_ng_tests.BlockDevices.{rescan_block_devices_info, scan_rows, sort_devices}
use xcp_ng_tests.Hosts.{
  Host, Pool, host_ssh, host_run, host_xe, host_xe_minimal, is_master, hosts_uuids, host_ip,
}
use xcp_ng_tests.Hosts.Power.{is_enabled, wait_for_xapi_enabled}
use xcp_ng_tests.Vm.Disks.Tests
use xcp_ng_tests.Hosts.Making.{
  Settings, host_data, data_among, drop_quotes, key_and_value, strip_quotes, inventory_from, item,
  value_or_empty, make_host, other_hosts, make_pool, join_pool, Joining,
}
use xcp_ng_tests.Hosts.Making.Entry.{HasJoined, LeftBehind, join_pool-HasJoined}
use xcp_ng_tests.Hosts.Making.Laws.{Listed, make_pool-Listed}

inventory_of : Text → Text
inventory_of uuid =
    lit "INSTALLATION_UUID='" ++ uuid ++ lit "'" ++ (10 ∷ []) ++ lit "PRODUCT_VERSION='8.3'"

answers : List Text
answers =
    inventory_of (lit "hu")
    ∷ []
    ∷ lit "master"
    ∷ []
    ∷ lit "true"
    ∷ lit "hu,h2"
    ∷ lit "10.0.0.2"
    ∷ inventory_of (lit "h2")
    ∷ []
    ∷ lit "pu"
    ∷ lit "s1,s2"
    ∷ []

answer : List Text → ℕ → Text
answer [] n = []
answer (x ∷ xs) zero = x
answer (x ∷ xs) (suc n) = answer xs n

later : Trace → ℕ
later [] = 0
later (e ∷ []) = 0
later (e ∷ t) = suc (later t)

reply : List Text → Trace → Completed
reply texts t = record { returncode = 0; stdout = answer texts (later t); ssherr = [] }

abbrev env : Env
env = record Tests.env { reply = reply answers }

abbrev settings : Settings
settings = record {
  hosts = [];
  default_user = lit "root";
  default_password = lit "pw";
  parse_version = λ t. ok (8, 3);
  lsblk_rows = λ t. [];
  depth = 100;
}

abbrev master : Host
master = record {
  hostname_or_ip = lit "10.0.0.1";
  uuid = lit "hu";
  user = lit "root";
  password = lit "pw";
  management_interface = [];
  major = 8;
  minor = 3;
}

abbrev two_hosts : Pool
two_hosts = record {
  uuid = lit "pu";
  master = master;
  hosts = master ∷ record master { hostname_or_ip = lit "10.0.0.2"; uuid = lit "h2" } ∷ [];
}

end : Trace
end = (make_pool env settings (lit "10.0.0.1") []).1

made : make_pool env settings (lit "10.0.0.1") [] ≡ (ok (two_hosts, lit "s1" ∷ lit "s2" ∷ []), end)
unfolding end answers answer later inventory_of reply make_pool other_hosts make_host host_data
    data_among drop_quotes key_and_value strip_quotes inventory_from item value_or_empty is_master
    hosts_uuids host_ip wait_for_xapi_enabled is_enabled strtobool safe_split xe xe_minimal
    param_get catch catch_ssh ◌>>=◌ lit strip split splitlines host_run host_ssh host_xe
    host_xe_minimal ssh_text ssh fetch_banner run_ssh start_ssh ssh_outcome decoded as_text
    rescan_block_devices_info scan_rows sort_devices
made = refl

make_pool-Listed_example : Listed env settings (lit "10.0.0.1") two_hosts
make_pool-Listed_example = make_pool-Listed env settings (lit "10.0.0.1") [] made

-- A third host joins: the pool lists it at once, and says that it is enabled.
joining_env : Env
joining_env = record Tests.env {
  reply =
      reply ([] ∷ lit "hu,h2,h3" ∷ lit "10.0.0.3" ∷ inventory_of (lit "h3") ∷ [] ∷ lit "true" ∷ []);
}

abbrev third : Host
third = record master { hostname_or_ip = lit "10.0.0.3"; uuid = lit "h3" }

abbrev before : Joining
before = record {
  joined = two_hosts;
  own = record { uuid = lit "p3"; master = third; hosts = third ∷ [] };
}

join_pool-HasJoined_example :
    EndsIn
      (HasJoined joining_env settings third before)
      (LeftBehind joining_env settings third before)
      (join_pool joining_env settings third ([], before))
join_pool-HasJoined_example = join_pool-HasJoined joining_env settings third ([], before)
