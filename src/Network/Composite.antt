-- ===== src/Network/Composite.antt =====
-- internal/kubevim/network/composite/manager.go: one manager over an OVN and an SR-IOV manager.
pub mod Routing
use kube_vim.Common.{String, Bool, Option, none, some, List, [], ◌∷◌, ◌++◌, if◌then◌else◌}
use kube_vim.Errors.{Error, is_err_not_found}
use kube_vim.Go.{Exec, Result, pure, raise, panics, context, inspect, ◌>>=◌, ◌>>◌}
use kube_vim.Network.Types.{
  Identifier, NetworkType, same_type, sriov, VirtualNetworkData, VirtualNetwork, NetworkSubnetData,
  NetworkSubnet, GetNetworkOpt, GetSubnetOpt,
}
use kube_vim.Network.Manager.{Manager}
use kube_vim.Network.Kubeovn.Mgmt.{ManagementNetworkConfig}

-- `isNotFound`
abbrev pub is_not_found : Error → Bool
is_not_found = is_err_not_found

-- `x, err := first(); if err == nil {...}`: the second backend is asked where the first one does not
-- find the object. If neither does, the first one's error stands.
unfoldable pub first_found : {S A : Type 0} → Exec S A → Exec S A → Exec S A
first_found first second = inspect first pure λ e.
    if is_not_found e
    then inspect second pure (λ e'. if is_not_found e' then raise e else raise e')
    else raise e

module _ {S : Type 0} (ovn sriov_manager : Manager S) where
  abbrev pub is_sriov : Option NetworkType → Bool
  is_sriov none = Bool.false
  is_sriov (some t) = same_type t sriov

  unfoldable pub create_network : String → Option VirtualNetworkData → Exec S VirtualNetwork
  create_network name none = panics
  create_network name (some network_data) =
      if is_sriov network_data.network_type
      then sriov_manager.create_network name (some network_data)
      else ovn.create_network name (some network_data)

  unfoldable pub get_network : List GetNetworkOpt → Exec S VirtualNetwork
  get_network opts = first_found (ovn.get_network opts) (sriov_manager.get_network opts)

  unfoldable pub list_networks : Exec S (List VirtualNetwork)
  list_networks = do
    ovn_nets ← context "list ovn networks" ovn.list_networks
    sriov_nets ← context "list sriov networks" sriov_manager.list_networks
    pure (ovn_nets ++ sriov_nets)

  unfoldable pub delete_network : List GetNetworkOpt → Exec S (Unit {0})
  delete_network opts = first_found (ovn.delete_network opts) (sriov_manager.delete_network opts)

  -- A network id, an empty one too, is looked up as a uid.
  abbrev pub create_subnet_in :
      Option Identifier → String → NetworkSubnetData → Exec S NetworkSubnet
  create_subnet_in none name subnet_data = ovn.create_subnet name (some subnet_data)
  create_subnet_in (some id) name subnet_data = do
    net ←
        context "resolve network for subnet creation"
          (get_network (GetNetworkOpt.by_uid (some id) ∷ []))
    if same_type net.network_type sriov
        then sriov_manager.create_subnet name (some subnet_data)
        else ovn.create_subnet name (some subnet_data)

  unfoldable pub create_subnet : String → Option NetworkSubnetData → Exec S NetworkSubnet
  create_subnet name none = panics
  create_subnet name (some subnet_data) = create_subnet_in subnet_data.network_id name subnet_data

  -- The composite as a manager. Subnets are OVN's only.
  abbrev pub composite : Manager S
  composite = record {
    create_network = create_network;
    get_network = get_network;
    list_networks = list_networks;
    delete_network = delete_network;
    create_subnet = create_subnet;
    get_subnet = ovn.get_subnet;
    list_subnets = ovn.list_subnets;
    delete_subnet = ovn.delete_subnet;
    ensure_management_network = ovn.ensure_management_network;
  }
