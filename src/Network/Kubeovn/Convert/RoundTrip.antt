-- ===== src/Network/Kubeovn/Convert/RoundTrip.antt =====
-- A subnet or a VLAN network that is asked for, built, stored, and shown again: the conversions of
-- internal/kubevim/network/kubeovn/utils.go, one after the other.
use mathlib.Core.Path.{subst}
use kube_vim.Common.{
  String, true, false, Option, none, some, List, ◌≡◌, refl, sym, ap, ◌∙◌, arith, ◌==◌, eq_iff,
  text_or_empty,
}
use kube_vim.Common.Maps
use kube_vim.Misc.Labels.{HasLabels}
use kube_vim.Go.{ok}
use kube_vim.K8s.Objects.{
  Kind, Object, ObjectMeta, VlanSpec, is_object_instantiated, is_object_managed_by_kube_nfv,
  is_managed_label, k8s_managed_by_label, kube_nfv_name, new_meta,
}
use kube_vim.Network.Types.{
  Identifier, IpVersion, ipv4, ipv6, underlay, VirtualNetworkData, VirtualNetwork,
  NetworkSubnetData, NetworkSubnet, Libraries,
}
use kube_vim.Network.Kubeovn.Convert.{
  kubeovn_ip_version_from_nfv, nfv_ip_version_from_kubeovn, kubeovn_subnet_from_nfv_subnet_data,
  subnet_from_protocol, subnet_with_spec, with_gateway, subnet_spec, or_true,
  nfv_network_subnet_from_kubeovn_subnet, subnet_with_version, vlan_from_data,
  kubeovn_vlan_from_nfv_network_data, kubeovn_vlan_to_nfv_network, check_network_object,
}

-- The names of the ip versions are read back as they were written.
pub ip_version-round_trip :
    (v : Option IpVersion) (text : String)
    → kubeovn_ip_version_from_nfv v ≡ ok text
    → (w : IpVersion) × (v ≡ some w) × (nfv_ip_version_from_kubeovn text ≡ ok w)
unfolding kubeovn_ip_version_from_nfv nfv_ip_version_from_kubeovn
ip_version-round_trip none text h = cc
ip_version-round_trip (some ipv4) text h = (
  ipv4,
  refl,
  subst (λ x. nfv_ip_version_from_kubeovn x ≡ ok ipv4) {x = "IPv4"} {y = text} (cc) refl,
)
ip_version-round_trip (some ipv6) text h = (
  ipv6,
  refl,
  subst (λ x. nfv_ip_version_from_kubeovn x ≡ ok ipv6) {x = "IPv6"} {y = text} (cc) refl,
)
ip_version-round_trip (some (IpVersion.unnamed n)) text h = cc

-- What a built subnet holds of the data it was built from.
pub record BuiltFrom (d : NetworkSubnetData) (sub : Object Kind.subnet) : Type 0 where
  pub protocol : kubeovn_ip_version_from_nfv d.ip_version ≡ ok sub.spec.protocol
  pub cidr : d.cidr ≡ some sub.spec.cidr_block
  pub gateway : sub.spec.gateway ≡ text_or_empty d.gateway_ip
  pub dhcp : sub.spec.enable_dhcp ≡ or_true d.is_dhcp_enabled
  pub managed : Maps.lookup k8s_managed_by_label sub.meta.labels ≡ some kube_nfv_name

pub subnet_from_data-BuiltFrom :
    (lib : Libraries) (name : String) (d : NetworkSubnetData) (sub : Object Kind.subnet)
    → kubeovn_subnet_from_nfv_subnet_data lib name (some d) ≡ ok sub
    → BuiltFrom d sub
unfolding kubeovn_subnet_from_nfv_subnet_data subnet_from_protocol subnet_with_spec with_gateway
    subnet_spec new_meta Maps.lookup
subnet_from_data-BuiltFrom lib name d sub h = record {
  protocol = ground arith;
  cidr = ground arith;
  gateway = ground arith;
  dhcp = ground arith;
  managed = ground arith;
}

-- An object that holds what a built one was created with, whatever labels, Vpc, Vlan or provider it
-- has besides, and that the apiserver has filled in.
pub record Carries (built o : Object Kind.subnet) : Type 0 where
  pub instantiated : is_object_instantiated o.meta ≡ true
  pub labels : HasLabels o.meta.labels built.meta.labels
  pub protocol : o.spec.protocol ≡ built.spec.protocol
  pub cidr_block : o.spec.cidr_block ≡ built.spec.cidr_block
  pub gateway : o.spec.gateway ≡ built.spec.gateway
  pub enable_dhcp : o.spec.enable_dhcp ≡ built.spec.enable_dhcp

managed_of_label :
    (labels : Option String) → labels ≡ some kube_nfv_name → is_managed_label labels ≡ true
unfolding is_managed_label
managed_of_label none h = cc
managed_of_label (some l) h = ground (arith, eq_iff l kube_nfv_name)

-- What the client asked for and what it is shown.
pub record ShowsData (d : NetworkSubnetData) (o : Object Kind.subnet) (s : NetworkSubnet)
    : Type 0 where
  pub resource_id : s.resource_id ≡ o.meta.uid
  pub ip_version : d.ip_version ≡ some s.ip_version
  pub cidr : s.cidr ≡ d.cidr
  pub gateway_ip : s.gateway_ip ≡ text_or_empty d.gateway_ip
  pub is_dhcp_enabled : s.is_dhcp_enabled ≡ or_true d.is_dhcp_enabled

shown_with :
    (o : Object Kind.subnet) (v : IpVersion)
    → is_object_instantiated o.meta ≡ true
    → is_object_managed_by_kube_nfv o.meta ≡ true
    → nfv_ip_version_from_kubeovn o.spec.protocol ≡ ok v
    → nfv_network_subnet_from_kubeovn_subnet o ≡ subnet_with_version o (ok v)
unfolding nfv_network_subnet_from_kubeovn_subnet
shown_with o v inst managed version = rw (inst, managed, version)

-- A subnet that is built from a client's data, stored, and read back is shown with the ip version,
-- the CIDR and the gateway of the data, and with DHCP on unless the data switches it off. The
-- stored object carries what was built; it may have gained labels and a place in a network.
pub subnet_data-round_trip :
    (lib : Libraries) (name : String) (d : NetworkSubnetData) (built o : Object Kind.subnet)
    → kubeovn_subnet_from_nfv_subnet_data lib name (some d) ≡ ok built
    → Carries built o
    → (s : NetworkSubnet) × (nfv_network_subnet_from_kubeovn_subnet o ≡ ok s) × ShowsData d o s
unfolding is_object_managed_by_kube_nfv subnet_with_version
subnet_data-round_trip lib name d built o done c =
    let b = subnet_from_data-BuiltFrom lib name d built done in
    let (v, asked, version) = ip_version-round_trip d.ip_version built.spec.protocol b.protocol in
    let managed = managed_of_label _ (c.labels.at k8s_managed_by_label kube_nfv_name b.managed) in
    (
      _,
      shown_with o v c.instantiated managed (ap nfv_ip_version_from_kubeovn c.protocol ∙ version),
      record {
        resource_id = refl;
        ip_version = asked;
        cidr = ap some c.cidr_block ∙ sym b.cidr;
        gateway_ip = c.gateway ∙ b.gateway;
        is_dhcp_enabled = c.enable_dhcp ∙ b.dhcp;
      },
    )

-- Only what kube-nfv manages and the apiserver has stored is shown as a subnet.
pub shown_subnet_managed :
    (o : Object Kind.subnet) (s : NetworkSubnet)
    → nfv_network_subnet_from_kubeovn_subnet o ≡ ok s
    → (is_object_instantiated o.meta ≡ true) × (is_object_managed_by_kube_nfv o.meta ≡ true)
unfolding nfv_network_subnet_from_kubeovn_subnet
shown_subnet_managed o s h = (ground arith, ground arith)

record VlanBuiltFrom (name : String) (d : VirtualNetworkData) (built : Object Kind.vlan)
    : Type 0 where
  pub named : (built.meta.name == "") ≡ false
  pub name_kept : built.meta.name ≡ name
  pub provider : d.provider_network ≡ some built.spec.provider
  pub id : built.spec.id ≡ elim d.segmentation_id [ none ↦ 0 | some id ↦ id ]
  pub managed : Maps.lookup k8s_managed_by_label built.meta.labels ≡ some kube_nfv_name

vlan_data-BuiltFrom :
    (name : String) (d : VirtualNetworkData) (built : Object Kind.vlan)
    → kubeovn_vlan_from_nfv_network_data name (some d) ≡ ok built
    → VlanBuiltFrom name d built
unfolding kubeovn_vlan_from_nfv_network_data vlan_from_data new_meta Maps.lookup
vlan_data-BuiltFrom name d built h = record {
  named = ground arith;
  name_kept = ground arith;
  provider = ground arith;
  id = ground arith;
  managed = ground arith;
}

check_network_object-none :
    (what : String) (m : ObjectMeta)
    → is_object_instantiated m ≡ true
    → is_object_managed_by_kube_nfv m ≡ true
    → (m.name == "") ≡ false
    → check_network_object what m ≡ none
unfolding check_network_object is_object_instantiated
check_network_object-none what m inst managed named = ground arith

abbrev shown_vlan : Object Kind.vlan → List Identifier → VirtualNetwork
shown_vlan o ids = record {
  network_resource_id = some o.meta.uid;
  network_resource_name = some o.meta.name;
  subnet_id = ids;
  network_type = underlay;
  provider_network = some o.spec.provider;
  segmentation_id = some o.spec.id;
  metadata = none;
}

shown_vlan-ok :
    (o : Object Kind.vlan) (ids : List Identifier)
    → check_network_object "vlan" o.meta ≡ none
    → kubeovn_vlan_to_nfv_network o ids ≡ ok (shown_vlan o ids)
unfolding kubeovn_vlan_to_nfv_network
shown_vlan-ok o ids checked = rw (kubeovn_vlan_to_nfv_network, checked)

-- A Vlan that is built for an underlay network with a provider, stored with its name, labels and
-- spec and filled in by the apiserver, is shown as a network with that name, provider and
-- segmentation id (0 where none was given), and with the given subnet ids.
pub vlan_data-round_trip :
    (name : String) (d : VirtualNetworkData) (built o : Object Kind.vlan) (ids : List Identifier)
    → kubeovn_vlan_from_nfv_network_data name (some d) ≡ ok built
    → o.spec ≡ built.spec
    → o.meta.name ≡ built.meta.name
    → HasLabels o.meta.labels built.meta.labels
    → is_object_instantiated o.meta ≡ true
    → (net : VirtualNetwork) × (kubeovn_vlan_to_nfv_network o ids ≡ ok net)
      × (net.network_resource_name ≡ some name)
      × (net.subnet_id ≡ ids)
      × (net.provider_network ≡ d.provider_network)
      × (net.segmentation_id ≡ some (elim d.segmentation_id [ none ↦ 0 | some id ↦ id ]))
unfolding is_object_managed_by_kube_nfv
vlan_data-round_trip name d built o ids done spec named labels inst =
    let b = vlan_data-BuiltFrom name d built done in
    let managed = managed_of_label _ (labels.at k8s_managed_by_label kube_nfv_name b.managed) in
    let checked = check_network_object-none "vlan" o.meta inst managed (rw named b.named) in
    (
      shown_vlan o ids,
      shown_vlan-ok o ids checked,
      ap some (named ∙ b.name_kept),
      refl,
      ap (λ (v : VlanSpec). some v.provider) spec ∙ sym b.provider,
      ap (λ (v : VlanSpec). some v.id) spec ∙ ap some b.id,
    )
