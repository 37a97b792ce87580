-- ===== src/Tests/Config.antt =====
-- A configuration that turns the management network on.
use kube_vim.Common.{true, none, some, ◌≡◌, refl}
use kube_vim.Go.{ok}
use kube_vim.K8s.Memory.{empty}
use kube_vim.Network.Kubeovn.Mgmt.{ManagementNetworkConfig, check_mgmt_config}
use kube_vim.Config.{Config, is_on, normalize}
use kube_vim.Config.Normalized.{normalize_twice, normalize-accepted}
use kube_vim.Tests.{test_env}

abbrev given : ManagementNetworkConfig
given = record {
  enabled = some true;
  name = some "osm-mgmt";
  cidr = some "10.240.0.0/24";
  gateway = none;
  exclude_ips = none;
  net_attach_def_name = none;
  net_attach_def_namespace = none;
}

abbrev resolved : ManagementNetworkConfig
resolved = record given {
  net_attach_def_name = some "osm-mgmt-subnet-0-netattach";
  net_attach_def_namespace = some "kube-nfv";
}

abbrev config_with : ManagementNetworkConfig → Config
config_with mgmt = record { network = some (record { management_network = some mgmt }) }

normalize_run : normalize "kube-nfv" (some (config_with given)) ≡ ok (config_with resolved)
unfolding normalize kube_vim.Config.normalize_mgmt
normalize_run = refl

normalize_twice_example :
    normalize "other" (some (config_with resolved)) ≡ ok (config_with resolved)
normalize_twice_example =
    normalize_twice "kube-nfv" "other" (config_with given) (config_with resolved) normalize_run

normalize-accepted_example : check_mgmt_config test_env resolved empty ≡ (ok tt, empty)
normalize-accepted_example =
    normalize-accepted test_env "kube-nfv" (config_with given) (config_with resolved) resolved empty
      normalize_run refl refl refl
