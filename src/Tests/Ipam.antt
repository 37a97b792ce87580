-- ===== src/Tests/Ipam.antt =====
-- The interfaces of a machine in a cluster with the overlay network "tenant" and its subnet "web".
use kube_vim.Common.{String, some, none, true, false, List, [], ◌∷◌, find, Map, ◌≡◌, refl}
use kube_vim.Go.{ok, panic, answer}
use kube_vim.K8s.Memory.{Cluster, no_cells}
use kube_vim.K8s.Objects.{Kind, Object, k8s_managed_by_label, kube_nfv_name}
use kube_vim.Network.Types.{GetSubnetOpt, NetworkSubnet}
use kube_vim.Network.Kubeovn.Backend.{kubeovn_manager}
use kube_vim.Compute.Types.{InterfaceIpam, InterfaceData}
use kube_vim.Compute.Ipam.{
  Resolver, Interfaces, pod_network, dynamic_ipam, named_by, resolve_interfaces, subnet_ipam,
  network_ipam,
}
use kube_vim.Compute.Ipam.Paired.{Paired}
use kube_vim.Compute.Ipam.Addresses.{InSomeSubnet, network_ipam-InSomeSubnet}
use kube_vim.Compute.Ipam.Selected.{Selected, network_ipam-Selected}
use kube_vim.Tests.{test_env, test_lib, ok_or}

abbrev web_labels : Map String
web_labels =
    ("network.kubevim.kubenfv.io/network-id", "u")
    ∷ ("network.kubevim.kubenfv.io/subnet-name", "web")
    ∷ ("network.kubevim.kubenfv.io/subnet-netattach-name", "web-nad")
    ∷ (k8s_managed_by_label, kube_nfv_name)
    ∷ []

abbrev web : Object Kind.subnet
web = record {
  meta = record {
    namespace = "";
    name = "web";
    uid = "u";
    resource_version = "1";
    deletion_timestamp = none;
    created = some 1;
    labels = web_labels;
    annotations = [];
  };
  spec = record {
    vpc = "tenant";
    vlan = "";
    protocol = "IPv4";
    cidr_block = "10.1.0.0/24";
    gateway = "10.1.0.1";
    gateway_type = "distributed";
    provider = "web-nad.kube-nfv.ovn";
    enable_dhcp = true;
    is_default = false;
    nat_outgoing = false;
    exclude_ips = [];
  };
}

abbrev web_nad : Object Kind.net_attach
web_nad = record {
  meta = record web.meta { namespace = "kube-nfv"; name = "web-nad"; labels = [] };
  spec = record { config = "" };
}

abbrev pub with_web : Cluster
with_web = record {
  next = 1;
  cells = record no_cells { subnets = web ∷ []; net_attaches = web_nad ∷ [] };
}

abbrev resolver : Resolver Cluster
resolver = record {
  net_manager = kubeovn_manager test_env;
  lib = test_lib;
  namespace = "kube-nfv";
  new_uuid = λ s. (answer "7c1d", s);
}

abbrev static_entry : InterfaceIpam
static_entry = record {
  network_id = some "u";
  subnet_id = some "u";
  ip_address = some "10.1.0.7";
  mac_address = none;
}

abbrev on_web : InterfaceData
on_web = record { network_id = none; subnet_id = some "u"; metadata = none }

abbrev attached : Interfaces
attached =
    ok_or pod_network (resolve_interfaces resolver (on_web ∷ []) (static_entry ∷ []) with_web).0

network_run :
    (network_ipam resolver "u" (static_entry ∷ []) true with_web).0
    ≡ ok (static_entry, static_entry ∷ [])
unfolding network_ipam find subnet_ipam kube_vim.Network.Kubeovn.Subnets.get_subnet
    kube_vim.Network.Kubeovn.Subnets.get_subnet_by_uid kube_vim.Common.filter
    kube_vim.K8s.Memory.objects kube_vim.Common.Maps.matches
    kube_vim.Network.Kubeovn.Convert.nfv_network_subnet_from_kubeovn_subnet
    kube_vim.K8s.Objects.is_object_instantiated kube_vim.K8s.Objects.is_object_managed_by_kube_nfv
    kube_vim.Network.Types.ip_belongs_to_cidr kube_vim.K8s.Client.is_cached
network_run = refl

network_ipam-InSomeSubnet_example : InSomeSubnet resolver (static_entry, static_entry ∷ [])
network_ipam-InSomeSubnet_example =
    network_ipam-InSomeSubnet resolver "u" (static_entry ∷ []) true with_web
      (static_entry, static_entry ∷ []) network_run

abbrev unplaced : InterfaceIpam
unplaced = record static_entry { subnet_id = none }

-- The subnet of the address is found, and its id is written through a nil pointer.
unplaced_run : (network_ipam resolver "u" (unplaced ∷ []) true with_web).0 ≡ panic
unfolding network_ipam find kube_vim.Network.Kubeovn.Subnets.get_subnet
    kube_vim.Network.Kubeovn.Subnets.get_subnet_by_network_ip
    kube_vim.Network.Kubeovn.Subnets.convert_subnets kube_vim.Common.filter
    kube_vim.K8s.Memory.objects kube_vim.Common.Maps.matches
    kube_vim.K8s.Objects.is_object_instantiated kube_vim.K8s.Objects.is_object_managed_by_kube_nfv
    kube_vim.Network.Kubeovn.Subnets.search_network_ip kube_vim.Network.Types.ip_belongs_to_cidr
    kube_vim.K8s.Client.is_cached
unplaced_run = refl

network_ipam-Selected_example : Selected resolver "u" (static_entry ∷ []) true with_web static_entry
network_ipam-Selected_example =
    network_ipam-Selected resolver "u" (static_entry ∷ []) true with_web
      (static_entry, static_entry ∷ []) network_run
