-- ===== src/Tests/Convert.antt =====
-- A subnet and a Vlan, from a client's data to what the client is shown.
use kube_vim.Common.{some, none, true, false, [], ◌∷◌, ◌≡◌, refl}
use kube_vim.Go.{ok}
use kube_vim.K8s.Objects.{
  Kind, Object, new_meta, is_object_instantiated, k8s_managed_by_label, kube_nfv_name,
}
use kube_vim.Network.Types.{
  NetworkSubnetData, NetworkSubnet, VirtualNetworkData, VirtualNetwork, ipv6, underlay,
  k8s_subnet_name_label,
}
use kube_vim.Network.Kubeovn.Convert.{
  kubeovn_subnet_from_nfv_subnet_data, nfv_network_subnet_from_kubeovn_subnet,
  kubeovn_vlan_from_nfv_network_data, kubeovn_vlan_to_nfv_network, subnet_spec, managed_labels,
}
use kube_vim.Network.Kubeovn.Convert.RoundTrip.{
  Carries, ShowsData, subnet_data-round_trip, vlan_data-round_trip,
}
use kube_vim.Tests.{test_lib}

abbrev subnet_data : NetworkSubnetData
subnet_data = record {
  network_id = none;
  ip_version = some ipv6;
  gateway_ip = some "fd00::1";
  cidr = some "fd00::/64";
  is_dhcp_enabled = some false;
}

abbrev built : Object Kind.subnet
built = record {
  meta =
      new_meta "" "net-subnet-0"
        ((k8s_managed_by_label, kube_nfv_name) ∷ (k8s_subnet_name_label, "net-subnet-0") ∷ []) [];
  spec = record (subnet_spec "IPv6" false "fd00::/64") { gateway = "fd00::1" };
}

abbrev stored : Object Kind.subnet
stored = record {
  meta = record built.meta { uid = "u"; resource_version = "1"; created = some 1 };
  spec = record built.spec { vpc = "net"; provider = "ovn" };
}

built_from_data :
    kubeovn_subnet_from_nfv_subnet_data test_lib "net-subnet-0" (some subnet_data) ≡ ok built
unfolding kubeovn_subnet_from_nfv_subnet_data
built_from_data = refl

built-Carries : Carries built stored
unfolding is_object_instantiated new_meta
built-Carries = record {
  instantiated = refl;
  labels = record { at = λ k v e. e };
  protocol = refl;
  cidr_block = refl;
  gateway = refl;
  enable_dhcp = refl;
}

subnet_data-round_trip_example :
    (s : NetworkSubnet) × (nfv_network_subnet_from_kubeovn_subnet stored ≡ ok s)
    × ShowsData subnet_data stored s
subnet_data-round_trip_example =
    subnet_data-round_trip test_lib "net-subnet-0" subnet_data built stored built_from_data
      built-Carries

abbrev vlan_data : VirtualNetworkData
vlan_data = record {
  network_type = some underlay;
  provider_network = some "physnet1";
  segmentation_id = some 100;
  layer3_attributes = [];
}

abbrev vlan_built : Object Kind.vlan
vlan_built = record {
  meta = new_meta "" "edge" managed_labels [];
  spec = record { id = 100; provider = "physnet1"; status_subnets = [] };
}

abbrev vlan_stored : Object Kind.vlan
vlan_stored = record vlan_built {
  meta = record vlan_built.meta { uid = "u"; resource_version = "1"; created = some 1 };
}

vlan_built_from_data : kubeovn_vlan_from_nfv_network_data "edge" (some vlan_data) ≡ ok vlan_built
unfolding kubeovn_vlan_from_nfv_network_data
vlan_built_from_data = refl

vlan_instantiated : is_object_instantiated vlan_stored.meta ≡ true
unfolding is_object_instantiated
vlan_instantiated = refl

vlan_data-round_trip_example :
    (net : VirtualNetwork) × (kubeovn_vlan_to_nfv_network vlan_stored [] ≡ ok net)
    × (net.network_resource_name ≡ some "edge")
    × (net.subnet_id ≡ [])
    × (net.provider_network ≡ some "physnet1")
    × (net.segmentation_id ≡ some 100)
vlan_data-round_trip_example =
    vlan_data-round_trip "edge" vlan_data vlan_built vlan_stored [] vlan_built_from_data refl refl
      (record { at = λ k v e. e }) vlan_instantiated
