-- ===== src/Tests/Mgmt.antt =====
-- A management network that is set up in an empty cluster, and set up again.
use kube_vim.Common.{true, some, none, [], ◌≡◌, refl}
use kube_vim.Go.{ok}
use kube_vim.K8s.Memory.{empty, objects, with_objects, create_in, get_in}
use kube_vim.K8s.Memory.Lawful.{memory_lawful}
use kube_vim.K8s.Same.{Same}
use kube_vim.Tests.{test_env}
use kube_vim.Network.Kubeovn.Mgmt.{
  ManagementNetworkConfig, ensure_management_network, check_mgmt_config, ensure_mgmt_objects,
  ensure_mgmt_vpc, ensure_mgmt_subnet, ensure_mgmt_net_attach, ensure_object, create_object,
  reconcile_labels,
}
use kube_vim.Network.Kubeovn.Mgmt.Reconciled.{
  Reconciled, ensure_management_network-Reconciled, ensure_management_network_twice,
}

abbrev config : ManagementNetworkConfig
config = record {
  enabled = some true;
  name = some "mgmt";
  cidr = some "10.0.0.0/16";
  gateway = some "10.0.0.1";
  exclude_ips = none;
  net_attach_def_name = some "mgmt-nad";
  net_attach_def_namespace = some "kube-nfv";
}

config_run : (ensure_management_network test_env (some config) empty).0 ≡ ok tt
unfolding ensure_management_network check_mgmt_config ensure_mgmt_objects ensure_mgmt_vpc
    ensure_mgmt_subnet ensure_mgmt_net_attach ensure_object create_object reconcile_labels create_in
    get_in objects with_objects kube_vim.Common.find kube_vim.Errors.root
config_run = refl

ensure_management_network-Reconciled_example :
    Reconciled test_env memory_lawful config empty
      (ensure_management_network test_env (some config) empty).1
ensure_management_network-Reconciled_example =
    ensure_management_network-Reconciled test_env memory_lawful config empty refl config_run

ensure_management_network_twice_example :
    let t = (ensure_management_network test_env (some config) empty).1 in
    Same memory_lawful t (ensure_management_network test_env (some config) t).1
ensure_management_network_twice_example =
    ensure_management_network_twice test_env memory_lawful config empty refl config_run
