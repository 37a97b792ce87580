-- ===== src/Network/Types.antt =====
-- internal/kubevim/network/{manager,utils}.go, and the fields of the API messages
-- (github.com/kube-nfv/kube-vim-api) that the managers read or fill.
use kube_vim.Common.{String, ℕ, Bool, false, Option, none, some, List, [], ◌∷◌, Map, ◌&&◌, num_eq}
use kube_vim.Errors.{ForeignErrors}
use kube_vim.K8s.Client.{Client}

abbrev pub k8s_network_name_label : String
k8s_network_name_label = "network.kubevim.kubenfv.io/network-name"

abbrev pub k8s_network_id_label : String
k8s_network_id_label = "network.kubevim.kubenfv.io/network-id"

abbrev pub k8s_network_type_label : String
k8s_network_type_label = "network.kubevim.kubenfv.io/netowrk-type"

abbrev pub k8s_network_net_attach_name_label : String
k8s_network_net_attach_name_label = "network.kubevim.kubenfv.io/network-netattach-name"

abbrev pub k8s_subnet_name_label : String
k8s_subnet_name_label = "network.kubevim.kubenfv.io/subnet-name"

abbrev pub k8s_subnet_net_attach_name_label : String
k8s_subnet_net_attach_name_label = "network.kubevim.kubenfv.io/subnet-netattach-name"

-- nfvcommon.Identifier, IPAddress, IPSubnetCIDR and MacAddress hold one text each; a pointer to
-- one is an `Option`.
abbrev pub Identifier : Type 0
Identifier = String

-- A protobuf enumeration is open: a message may carry a number with no name.
pub data NetworkType : Type 0 where
  overlay underlay sriov : NetworkType
  unnamed : ℕ → NetworkType

abbrev pub type_index : NetworkType → ℕ
type_index overlay = 0
type_index underlay = 1
type_index sriov = 2
type_index (unnamed n) = 3

unfoldable pub same_type : NetworkType → NetworkType → Bool
same_type a b = num_eq (type_index a) (type_index b)

pub data IpVersion : Type 0 where
  ipv4 ipv6 : IpVersion
  unnamed : ℕ → IpVersion

pub record NetworkSubnetData : Type 0 where
  pub network_id : Option Identifier
  pub ip_version : Option IpVersion
  pub gateway_ip : Option String
  pub cidr : Option String
  pub is_dhcp_enabled : Option Bool

pub record VirtualNetworkData : Type 0 where
  pub network_type : Option NetworkType
  pub provider_network : Option String
  pub segmentation_id : Option ℕ
  pub layer3_attributes : List NetworkSubnetData

pub record VirtualNetwork : Type 0 where
  pub network_resource_id : Option Identifier
  pub network_resource_name : Option String
  pub subnet_id : List Identifier
  pub network_type : NetworkType
  pub provider_network : Option String
  pub segmentation_id : Option ℕ
  pub metadata : Option (Map String)

pub record NetworkSubnet : Type 0 where
  pub resource_id : Identifier
  pub network_id : Option Identifier
  pub ip_version : IpVersion
  pub gateway_ip : String
  pub cidr : Option String
  pub is_dhcp_enabled : Bool
  pub metadata : Map String

-- GetNetworkOpt: each option writes a field of `getNetworkOpts`.
pub data GetNetworkOpt : Type 0 where
  by_name : String → GetNetworkOpt
  by_uid : Option Identifier → GetNetworkOpt

pub record GetNetworkOpts : Type 0 where
  pub name : String
  pub uid : Option Identifier

abbrev pub set_network_opt : GetNetworkOpt → GetNetworkOpts → GetNetworkOpts
set_network_opt (by_name name) opts = record opts { name = name }
set_network_opt (by_uid uid) opts = record opts { uid = uid }

abbrev pub set_network_opts : List GetNetworkOpt → GetNetworkOpts → GetNetworkOpts
set_network_opts [] opts = opts
set_network_opts (opt ∷ rest) opts = set_network_opts rest (set_network_opt opt opts)

abbrev pub apply_get_network_opts : List GetNetworkOpt → GetNetworkOpts
apply_get_network_opts opts = set_network_opts opts (record { name = ""; uid = none })

pub data GetSubnetOpt : Type 0 where
  by_name : String → GetSubnetOpt
  by_uid : Option Identifier → GetSubnetOpt
  by_net_attach_name : String → GetSubnetOpt
  by_network_ip : Option Identifier → Option String → GetSubnetOpt

pub record GetSubnetOpts : Type 0 where
  pub name : String
  pub uid : Option Identifier
  pub net_attach_name : String
  pub net_id : Option Identifier
  pub ip_address : Option String

abbrev pub set_subnet_opt : GetSubnetOpt → GetSubnetOpts → GetSubnetOpts
set_subnet_opt (by_name name) opts = record opts { name = name }
set_subnet_opt (by_uid uid) opts = record opts { uid = uid }
set_subnet_opt (by_net_attach_name name) opts = record opts { net_attach_name = name }
set_subnet_opt (by_network_ip id ip) opts = record opts { net_id = id; ip_address = ip }

abbrev pub set_subnet_opts : List GetSubnetOpt → GetSubnetOpts → GetSubnetOpts
set_subnet_opts [] opts = opts
set_subnet_opts (opt ∷ rest) opts = set_subnet_opts rest (set_subnet_opt opt opts)

abbrev pub apply_get_subnet_opts : List GetSubnetOpt → GetSubnetOpts
apply_get_subnet_opts opts =
    set_subnet_opts opts
      (record { name = ""; uid = none; net_attach_name = ""; net_id = none; ip_address = none })

-- The library functions that the managers call: package net (whether a text parses, and whether a
-- network contains an address), google/uuid, and the generated names of the network types.
pub record Libraries : Type 0 where
  pub errors : ForeignErrors
  pub parse_ip : String → Bool
  pub parse_cidr : String → Bool
  pub cidr_contains : String → String → Bool
  pub is_uuid : String → Bool
  pub network_type_string : NetworkType → String

-- What a manager is built with.
pub record Env (S : Type 0) : Type 0 where
  pub client : Client S
  pub lib : Libraries
  pub namespace : String

-- `IpBelongsToCidr`
unfoldable pub ip_belongs_to_cidr : Libraries → Option String → Option String → Bool
ip_belongs_to_cidr lib (some ip) (some cidr) =
    lib.parse_ip ip && (lib.parse_cidr cidr && lib.cidr_contains cidr ip)
ip_belongs_to_cidr lib _ _ = false
