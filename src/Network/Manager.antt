-- ===== src/Network/Manager.antt =====
-- internal/kubevim/network/manager.go: what every network manager offers, the `Manager` interface.
use kube_vim.Common.{String, Option, List}
use kube_vim.Go.{Exec}
use kube_vim.Network.Types.{
  VirtualNetworkData, VirtualNetwork, NetworkSubnetData, NetworkSubnet, GetNetworkOpt, GetSubnetOpt,
}
use kube_vim.Network.Kubeovn.Mgmt.{ManagementNetworkConfig}

pub record Manager (S : Type 0) : Type 0 where
  pub create_network : String → Option VirtualNetworkData → Exec S VirtualNetwork
  pub get_network : List GetNetworkOpt → Exec S VirtualNetwork
  pub list_networks : Exec S (List VirtualNetwork)
  pub delete_network : List GetNetworkOpt → Exec S (Unit {0})
  pub create_subnet : String → Option NetworkSubnetData → Exec S NetworkSubnet
  pub get_subnet : List GetSubnetOpt → Exec S NetworkSubnet
  pub list_subnets : Exec S (List NetworkSubnet)
  pub delete_subnet : List GetSubnetOpt → Exec S (Unit {0})
  pub ensure_management_network : Option ManagementNetworkConfig → Exec S (Unit {0})
