-- ===== src/Network/Kubeovn/Convert.antt =====
-- internal/kubevim/network/kubeovn/utils.go: between the API messages and the kube-ovn objects.
pub mod RoundTrip
use kube_vim.Common.{
  String, ℕ, Bool, true, false, Option, none, some, List, [], ◌∷◌, Map, ◌==◌, not, if◌then◌else◌,
}
use kube_vim.Common.Maps
use kube_vim.Errors.{
  Error, invalid_argument, object_not_instantiated, object_not_managed, unsupported, plain, wrap,
}
use kube_vim.Go.{Result, ok, err, wrapped}
use kube_vim.K8s.Objects.{
  Kind, Object, ObjectMeta, SubnetSpec, new_meta, k8s_managed_by_label, kube_nfv_name,
  is_object_instantiated, is_object_managed_by_kube_nfv,
}
use kube_vim.Network.Types.{
  Identifier, IpVersion, ipv4, ipv6, NetworkType, same_type, overlay, underlay, VirtualNetworkData,
  VirtualNetwork, NetworkSubnetData, NetworkSubnet, Libraries, k8s_subnet_name_label,
  k8s_network_id_label,
}

abbrev pub managed_labels : Map String
managed_labels = (k8s_managed_by_label, kube_nfv_name) ∷ []

unfoldable pub kubeovn_vpc_from_nfv_network_data :
    String → Option VirtualNetworkData → Result (Object Kind.vpc)
kubeovn_vpc_from_nfv_network_data name none =
    if name == ""
    then err (invalid_argument "name" "cannot be empty")
    else err (invalid_argument "network data" "cannot be nil")
kubeovn_vpc_from_nfv_network_data name (some nfv_net) =
    if name == ""
    then err (invalid_argument "name" "cannot be empty")
    else ok (record {
      meta = new_meta "" name managed_labels [];
      spec = record { status_subnets = [] };
    })

-- The checks that an object passes before it is shown as a network: a uid, a name, stored by the
-- apiserver, and managed by kube-nfv.
unfoldable pub check_network_object : String → ObjectMeta → Option Error
check_network_object what obj =
    if obj.uid == ""
    then some (invalid_argument what "UID cannot be empty")
    else if obj.name == ""
    then some (invalid_argument what "name cannot be empty")
    else if not (is_object_instantiated obj)
    then some (object_not_instantiated what obj.name)
    else if not (is_object_managed_by_kube_nfv obj)
    then some (object_not_managed what obj.name obj.uid)
    else none

unfoldable pub kubeovn_vpc_to_nfv_network :
    Object Kind.vpc → List Identifier → Result VirtualNetwork
unfolding check_network_object
kubeovn_vpc_to_nfv_network vpc subnet_ids = elim (check_network_object "vpc" vpc.meta) [
  | some e ↦ err e
  | none ↦ ok (record {
    network_resource_id = some vpc.meta.uid;
    network_resource_name = some vpc.meta.name;
    subnet_id = subnet_ids;
    network_type = overlay;
    provider_network = none;
    segmentation_id = none;
    metadata = none;
  })
]

unfoldable pub kubeovn_vlan_to_nfv_network :
    Object Kind.vlan → List Identifier → Result VirtualNetwork
unfolding check_network_object
kubeovn_vlan_to_nfv_network vlan subnet_ids = elim (check_network_object "vlan" vlan.meta) [
  | some e ↦ err e
  | none ↦ ok (record {
    network_resource_id = some vlan.meta.uid;
    network_resource_name = some vlan.meta.name;
    subnet_id = subnet_ids;
    network_type = underlay;
    provider_network = some vlan.spec.provider;
    segmentation_id = some vlan.spec.id;
    metadata = none;
  })
]

-- `GetNetworkType()` of an unset field is the enumeration's zero, which is no underlay.
abbrev pub is_underlay : Option NetworkType → Bool
is_underlay none = false
is_underlay (some t) = same_type t underlay

-- An unset segmentation id is 0. The conversions between uint64 and int keep the 64 bits, which
-- are what `id` holds.
unfoldable pub vlan_from_data : String → VirtualNetworkData → Result (Object Kind.vlan)
unfolding same_type
vlan_from_data name nfv_net =
    if not (is_underlay nfv_net.network_type)
    then err (wrap "vlan construction for network type '%s'" unsupported)
    else elim nfv_net.provider_network [
      | none ↦ err (invalid_argument "providerNetwork" "cannot be empty for underlay networks")
      | some provider ↦
          if provider == ""
          then err (invalid_argument "providerNetwork" "cannot be empty for underlay networks")
          else ok (record {
            meta = new_meta "" name managed_labels [];
            spec = record {
              id = elim nfv_net.segmentation_id [ none ↦ 0 | some id ↦ id ];
              provider = provider;
              status_subnets = [];
            };
          })
    ]

unfoldable pub kubeovn_vlan_from_nfv_network_data :
    String → Option VirtualNetworkData → Result (Object Kind.vlan)
unfolding vlan_from_data
kubeovn_vlan_from_nfv_network_data name none =
    if name == ""
    then err (invalid_argument "name" "cannot be empty")
    else err (invalid_argument "network data" "cannot be nil")
kubeovn_vlan_from_nfv_network_data name (some nfv_net) =
    if name == ""
    then err (invalid_argument "name" "cannot be empty")
    else vlan_from_data name nfv_net

unfoldable pub kubeovn_ip_version_from_nfv : Option IpVersion → Result String
kubeovn_ip_version_from_nfv none = err (invalid_argument "ip version" "not specified")
kubeovn_ip_version_from_nfv (some ipv4) = ok "IPv4"
kubeovn_ip_version_from_nfv (some ipv6) = ok "IPv6"
kubeovn_ip_version_from_nfv (some (IpVersion.unnamed n)) =
    err (wrap "unsupported ip version '%v'" unsupported)

unfoldable pub nfv_ip_version_from_kubeovn : String → Result IpVersion
nfv_ip_version_from_kubeovn ip_version =
    if ip_version == ""
    then err (invalid_argument "ip version" "not specified")
    else if ip_version == "IPv4"
    then ok ipv4
    else if ip_version == "IPv6"
    then ok ipv6
    else err (wrap "unsupported ip version '%s'" unsupported)

-- The default gateway is distributed, with outgoing NAT.
unfoldable pub subnet_spec : String → Bool → String → SubnetSpec
subnet_spec ip_proto enable_dhcp cidr = record {
  vpc = "";
  vlan = "";
  protocol = ip_proto;
  cidr_block = cidr;
  gateway = "";
  gateway_type = "distributed";
  provider = "";
  enable_dhcp = enable_dhcp;
  is_default = false;
  nat_outgoing = true;
  exclude_ips = [];
}

unfoldable pub with_gateway : Libraries → Option String → SubnetSpec → Result SubnetSpec
with_gateway lib none spec = ok spec
with_gateway lib (some gateway) spec =
    if lib.parse_ip gateway
    then ok (record spec { gateway = gateway })
    else err (invalid_argument "gateway ip" "invalid format: %s")

unfoldable pub subnet_with_spec : String → Result SubnetSpec → Result (Object Kind.subnet)
subnet_with_spec name (err e) = err e
subnet_with_spec name Result.panic = Result.panic
subnet_with_spec name (ok spec) = ok (record {
  meta =
      new_meta "" name ((k8s_managed_by_label, kube_nfv_name) ∷ (k8s_subnet_name_label, name) ∷ [])
        [];
  spec = spec;
})

abbrev pub or_true : Option Bool → Bool
or_true none = true
or_true (some on) = on

-- After the ip version: DHCP is on unless it is switched off, and the CIDR has to parse.
unfoldable pub subnet_from_protocol :
    Libraries → String → NetworkSubnetData → Result String → Result (Object Kind.subnet)
unfolding subnet_spec with_gateway subnet_with_spec
subnet_from_protocol lib name nfv_subnet (err e) = err (wrap "convert nfv IPVersion" e)
subnet_from_protocol lib name nfv_subnet Result.panic = Result.panic
subnet_from_protocol lib name nfv_subnet (ok ip_proto) = elim nfv_subnet.cidr [
  | none ↦ err (invalid_argument "cidr" "must be specified for NetworkSubnetData")
  | some cidr ↦
      if lib.parse_cidr cidr
      then subnet_with_spec name (
          with_gateway lib nfv_subnet.gateway_ip
            (subnet_spec ip_proto (or_true nfv_subnet.is_dhcp_enabled) cidr))
      else err (wrap "parse cidr '%s'" (plain "invalid CIDR address"))
]

unfoldable pub kubeovn_subnet_from_nfv_subnet_data :
    Libraries → String → Option NetworkSubnetData → Result (Object Kind.subnet)
unfolding subnet_from_protocol kubeovn_ip_version_from_nfv
kubeovn_subnet_from_nfv_subnet_data lib name none =
    if name == ""
    then err (invalid_argument "name" "cannot be empty")
    else err (invalid_argument "subnet data" "cannot be nil")
kubeovn_subnet_from_nfv_subnet_data lib name (some nfv_subnet) =
    if name == ""
    then err (invalid_argument "name" "cannot be empty")
    else subnet_from_protocol lib name nfv_subnet
        (kubeovn_ip_version_from_nfv nfv_subnet.ip_version)

-- A missing or empty network id label is no network id.
unfoldable pub network_id_of : Option String → Option Identifier
network_id_of none = none
network_id_of (some network_id) = if network_id == "" then none else some network_id

unfoldable pub subnet_with_version : Object Kind.subnet → Result IpVersion → Result NetworkSubnet
unfolding network_id_of
subnet_with_version sub (err e) = err (wrap "convert ip protocol from kubeovn resource spec" e)
subnet_with_version sub Result.panic = Result.panic
subnet_with_version sub (ok ip_version) = ok (record {
  resource_id = sub.meta.uid;
  network_id = network_id_of (Maps.lookup k8s_network_id_label sub.meta.labels);
  ip_version = ip_version;
  gateway_ip = sub.spec.gateway;
  cidr = some sub.spec.cidr_block;
  is_dhcp_enabled = sub.spec.enable_dhcp;
  metadata = sub.meta.labels;
})

unfoldable pub nfv_network_subnet_from_kubeovn_subnet : Object Kind.subnet → Result NetworkSubnet
unfolding subnet_with_version nfv_ip_version_from_kubeovn
nfv_network_subnet_from_kubeovn_subnet sub =
    if not (is_object_instantiated sub.meta)
    then err (object_not_instantiated "subnet" sub.meta.name)
    else if not (is_object_managed_by_kube_nfv sub.meta)
    then err (object_not_managed "subnet" sub.meta.name sub.meta.uid)
    else subnet_with_version sub (nfv_ip_version_from_kubeovn sub.spec.protocol)
