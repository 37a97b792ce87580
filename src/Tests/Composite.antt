-- ===== src/Tests/Composite.antt =====
-- The composite manager over the kube-ovn and the SR-IOV manager, in a cluster in memory.
use kube_vim.Common.{String, some, none, false, [], ◌∷◌, ◌≡◌, ◌↔◌, ◌⊎◌, refl}
use kube_vim.Go.{ok}
use kube_vim.K8s.Memory.{Cluster, empty}
use kube_vim.Network.Types.{
  VirtualNetwork, VirtualNetworkData, NetworkSubnetData, NetworkSubnet, GetNetworkOpt, ipv4,
  overlay, sriov, same_type,
}
use kube_vim.Network.Manager.{Manager}
use kube_vim.Network.Kubeovn.Backend.{kubeovn_manager}
use kube_vim.Network.Sriov.{sriov_manager}
use kube_vim.Network.Composite.{create_network, get_network, delete_network, create_subnet}
use kube_vim.Network.Composite.Routing.{
  NotFound, get_network-NotFound_iff, delete_network-backend, create_subnet-not_sriov,
}
use kube_vim.Tests.{test_env, ok_or}
use kube_vim.Tests.Sriov.{test_json, request}

abbrev ovn : Manager Cluster
ovn = kubeovn_manager test_env

abbrev other : Manager Cluster
other = sriov_manager test_env test_json ""

get_network-NotFound_iff_example :
    NotFound (get_network ovn other (GetNetworkOpt.by_name "fast" ∷ [])) empty ↔ (
      NotFound (ovn.get_network (GetNetworkOpt.by_name "fast" ∷ [])) empty
      × NotFound
          (other.get_network (GetNetworkOpt.by_name "fast" ∷ []))
          (ovn.get_network (GetNetworkOpt.by_name "fast" ∷ []) empty).1)
get_network-NotFound_iff_example =
    get_network-NotFound_iff ovn other (GetNetworkOpt.by_name "fast" ∷ []) empty

-- A cluster with the SR-IOV network "fast".
abbrev with_fast : Cluster
with_fast = (create_network ovn other "fast" (some request) empty).1

fast_deleted : (delete_network ovn other (GetNetworkOpt.by_name "fast" ∷ []) with_fast).0 ≡ ok tt
unfolding create_network delete_network kube_vim.Network.Composite.first_found
    kube_vim.Network.Kubeovn.Networks.delete_network kube_vim.Network.Kubeovn.Networks.get_network
    kube_vim.Network.Kubeovn.Networks.get_overlay_network
    kube_vim.Network.Kubeovn.Networks.find_network_object kube_vim.K8s.Memory.get_in
    kube_vim.Common.find kube_vim.K8s.Memory.objects same_type kube_vim.Network.Sriov.create_network
    kube_vim.Network.Sriov.check_sriov_data kube_vim.Network.Sriov.format_ovs_cni_config
    kube_vim.K8s.Memory.create_in kube_vim.K8s.Memory.with_objects kube_vim.Errors.is_missing
    kube_vim.Network.Kubeovn.Networks.get_underlay_network kube_vim.Network.Sriov.delete_network
    kube_vim.Common.Maps.at kube_vim.K8s.Client.key_of kube_vim.K8s.Client.same_key
    kube_vim.K8s.Objects.is_object_managed_by_kube_nfv kube_vim.K8s.Objects.new_meta
    kube_vim.Network.Sriov.get_network kube_vim.Network.Sriov.get_network_by_name
    kube_vim.Network.Sriov.get_network_with kube_vim.Network.Sriov.nad_to_nfv_network
    kube_vim.Network.Sriov.show_sriov kube_vim.K8s.Memory.delete_in kube_vim.K8s.Memory.cached_get
    kube_vim.K8s.Client.is_cached
fast_deleted = refl

delete_network-backend_example :
    (delete_network ovn other (GetNetworkOpt.by_name "fast" ∷ []) with_fast
      ≡ ovn.delete_network (GetNetworkOpt.by_name "fast" ∷ []) with_fast)
    ⊎ (NotFound (ovn.delete_network (GetNetworkOpt.by_name "fast" ∷ [])) with_fast
        × (delete_network ovn other (GetNetworkOpt.by_name "fast" ∷ []) with_fast
            ≡ other.delete_network
                (GetNetworkOpt.by_name "fast" ∷ [])
                (ovn.delete_network (GetNetworkOpt.by_name "fast" ∷ []) with_fast).1))
delete_network-backend_example =
    delete_network-backend ovn other (GetNetworkOpt.by_name "fast" ∷ []) with_fast fast_deleted

-- A cluster with the overlay network "tenant".
abbrev tenant_data : VirtualNetworkData
tenant_data = record {
  network_type = some overlay;
  provider_network = none;
  segmentation_id = none;
  layer3_attributes = [];
}

abbrev with_tenant : Cluster
with_tenant = (create_network ovn other "tenant" (some tenant_data) empty).1

abbrev subnet_data : NetworkSubnetData
subnet_data = record {
  network_id = some "u";
  ip_version = some ipv4;
  gateway_ip = none;
  cidr = some "10.1.0.0/24";
  is_dhcp_enabled = none;
}

abbrev pub no_subnet : NetworkSubnet
no_subnet = record {
  resource_id = "";
  network_id = none;
  ip_version = ipv4;
  gateway_ip = "";
  cidr = none;
  is_dhcp_enabled = false;
  metadata = [];
}

abbrev shown : NetworkSubnet
shown = ok_or no_subnet (create_subnet ovn other "web" (some subnet_data) with_tenant).0

subnet_created : (create_subnet ovn other "web" (some subnet_data) with_tenant).0 ≡ ok shown
unfolding create_network create_subnet get_network kube_vim.Network.Composite.first_found
    kube_vim.Network.Kubeovn.Networks.get_network
    kube_vim.Network.Kubeovn.Networks.get_overlay_network
    kube_vim.Network.Kubeovn.Networks.find_network_object kube_vim.Common.find
    kube_vim.Common.filter kube_vim.K8s.Memory.objects same_type
    kube_vim.Network.Kubeovn.Create.create_network
    kube_vim.Network.Kubeovn.Create.create_overlay_network
    kube_vim.Network.Kubeovn.Convert.kubeovn_vpc_from_nfv_network_data kube_vim.K8s.Memory.create_in
    kube_vim.Network.Kubeovn.Create.subnets_or_cleanup
    kube_vim.Network.Kubeovn.Create.allocate_l3_attributes kube_vim.K8s.Memory.with_objects
    kube_vim.Common.Maps.matches kube_vim.Common.Maps.insert
    kube_vim.K8s.Objects.is_object_instantiated kube_vim.K8s.Objects.is_object_managed_by_kube_nfv
    kube_vim.K8s.Objects.new_meta
    kube_vim.Network.Kubeovn.Convert.kubeovn_subnet_from_nfv_subnet_data
    kube_vim.Network.Kubeovn.Convert.kubeovn_vpc_to_nfv_network
    kube_vim.Network.Kubeovn.Convert.nfv_network_subnet_from_kubeovn_subnet
    kube_vim.Network.Kubeovn.Create.attach_to_network
    kube_vim.Network.Kubeovn.Create.converted_or_deleted
    kube_vim.Network.Kubeovn.Create.create_subnet
    kube_vim.Network.Kubeovn.Create.create_subnet_objects
    kube_vim.Network.Kubeovn.Create.create_with_cleanup
    kube_vim.Network.Kubeovn.Create.subnet_network
    kube_vim.Network.Kubeovn.Networks.status_subnet_ids kube_vim.K8s.Client.is_cached
subnet_created = refl

create_subnet-not_sriov_example :
    (net : VirtualNetwork) × ((get_network ovn other
        (GetNetworkOpt.by_uid (some "u") ∷ [])
        with_tenant).0
      ≡ ok net)
    × (same_type net.network_type sriov ≡ false)
    × (create_subnet ovn other "web" (some subnet_data) with_tenant
        ≡ ovn.create_subnet "web"
            (some subnet_data)
            (get_network ovn other (GetNetworkOpt.by_uid (some "u") ∷ []) with_tenant).1)
create_subnet-not_sriov_example =
    create_subnet-not_sriov ovn test_env test_json "" "web" subnet_data "u" with_tenant shown refl
      subnet_created
