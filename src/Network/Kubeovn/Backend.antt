-- ===== src/Network/Kubeovn/Backend.antt =====
-- The manager of internal/kubevim/network/kubeovn behind the interface of the network managers.
use kube_vim.Network.Types.{Env}
use kube_vim.Network.Manager.{Manager}
use kube_vim.Network.Kubeovn.Create.{create_network, create_subnet}
use kube_vim.Network.Kubeovn.Networks.{get_network, list_networks, delete_network}
use kube_vim.Network.Kubeovn.Subnets.{get_subnet, list_subnets, delete_subnet}
use kube_vim.Network.Kubeovn.Mgmt.{ensure_management_network}

abbrev pub kubeovn_manager : {S : Type 0} → Env S → Manager S
kubeovn_manager env = record {
  create_network = create_network env;
  get_network = get_network env;
  list_networks = list_networks env;
  delete_network = delete_network env;
  create_subnet = create_subnet env;
  get_subnet = get_subnet env;
  list_subnets = list_subnets env;
  delete_subnet = delete_subnet env;
  ensure_management_network = ensure_management_network env;
}
