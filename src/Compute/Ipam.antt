-- ===== src/Compute/Ipam.antt =====
-- internal/kubevim/compute/kubevirt/ipam.go: the networks and interfaces of a requested machine.
-- The IPAM entries of the request are shared pointers, which the code writes to: they are passed
-- on from one interface to the next.
pub mod Paired
pub mod Addresses
pub mod Selected
use kube_vim.Common.{
  String, ℕ, ◌+◌, ◌<>◌, Bool, true, false, Option, none, some, List, [], ◌∷◌, ◌++◌, Map, ◌==◌, ◌&&◌,
  ◌||◌, not, find, if◌then◌else◌, text_or_empty, num_eq,
}
use kube_vim.Common.Maps
use kube_vim.Errors.{Error, invalid_argument, unsupported, plain, wrap, ipam_configuration_missing}
use kube_vim.Go.{
  deref, Exec, Result, ok, err, pure, raise, panics, lift, call, Call, context, guard, ◌>>=◌, ◌>>◌,
}
use kube_vim.Network.Types.{
  Identifier, NetworkType, overlay, underlay, sriov, VirtualNetwork, NetworkSubnet, GetNetworkOpt,
  GetSubnetOpt, Libraries, ip_belongs_to_cidr, k8s_network_net_attach_name_label,
  k8s_subnet_name_label, k8s_subnet_net_attach_name_label,
}
use kube_vim.Network.Manager.{Manager}
use kube_vim.K8s.Kubevirt.{MultusNetwork, VmNetwork, BindingMethod, VmInterface}
use kube_vim.Compute.Types.{InterfaceIpam, InterfaceData}

abbrev pub kubevirt_vm_mgmt_network_name : String
kubevirt_vm_mgmt_network_name = "default"

abbrev pub subnet_assignment_annotation : String
subnet_assignment_annotation = "compute.kubevim.kubenfv.io/network.subnet.assignment"

-- What one interface of the request comes to.
pub record Resolved : Type 0 where
  pub network : VmNetwork
  pub interface : VmInterface
  pub annotations : Map String

pub record Interfaces : Type 0 where
  pub networks : List VmNetwork
  pub interfaces : List VmInterface
  pub annotations : Map String

abbrev pub named_by : Option Identifier → Identifier → Bool
named_by none id = false
named_by (some other) id = other == id

-- `p != nil && p.Value != ""`
abbrev pub is_set : Option String → Bool
is_set p = not (text_or_empty p == "")

abbrev pub dynamic_ipam : Option Identifier → Identifier → InterfaceIpam
dynamic_ipam network_id subnet_id = record {
  network_id = network_id;
  subnet_id = some subnet_id;
  ip_address = none;
  mac_address = none;
}

-- `netIpam.SubnetId = fstSubId`, on the entry that the search by network finds.
unfoldable pub assign_subnet : Identifier → Identifier → List InterfaceIpam → List InterfaceIpam
assign_subnet network_id subnet_id [] = []
assign_subnet network_id subnet_id (ipam ∷ rest) =
    let others = assign_subnet network_id subnet_id rest in
    if named_by ipam.network_id network_id
    then record ipam { subnet_id = some subnet_id } ∷ rest
    else ipam ∷ others

-- The MAC of the first entry of the network; an entry without one sets none.
unfoldable pub sriov_mac : Option Identifier → List InterfaceIpam → String
sriov_mac none ipams = ""
sriov_mac (some network_id) ipams =
    elim (find (λ ipam. named_by ipam.network_id network_id) ipams) [
      | none ↦ ""
      | some ipam ↦ text_or_empty ipam.mac_address
    ]

abbrev pub sriov_resolved : String → String → Resolved
sriov_resolved nad_name mac = record {
  network = record {
    name = nad_name;
    pod = false;
    multus = some (record { network_name = nad_name; is_default = false });
  };
  interface = record {
    name = nad_name;
    binding = record { bridge = false; masquerade = false; sriov = true };
    mac_address = mac;
  };
  annotations = [];
}

-- By the network's metadata, and its label.
abbrev pub sriov_by_label : Option Identifier → Option String → List InterfaceIpam → Result Resolved
sriov_by_label id none ipams = err (wrap "SR-IOV network '%s' missing label '%s'" unsupported)
sriov_by_label id (some nad_name) ipams = ok (sriov_resolved nad_name (sriov_mac id ipams))

abbrev pub sriov_by_metadata :
    Option Identifier → Option (Map String) → List InterfaceIpam → Result Resolved
sriov_by_metadata id none ipams = err (wrap "SR-IOV network has no metadata" unsupported)
sriov_by_metadata id (some fields) ipams =
    sriov_by_label id (Maps.lookup k8s_network_net_attach_name_label fields) ipams

unfoldable pub init_sriov_network : VirtualNetwork → List InterfaceIpam → Result Resolved
init_sriov_network net_inst ipams =
    sriov_by_metadata net_inst.network_resource_id net_inst.metadata ipams

abbrev pub annotation_key : String → String → String → String
annotation_key net_attach_name namespace field =
    net_attach_name <> ("." <> (namespace <> (".ovn.kubernetes.io/" <> field)))

abbrev pub insert_if_set : String → Option String → Map String → Map String
insert_if_set key value ann =
    if is_set value then Maps.insert key (text_or_empty value) ann else ann

unfoldable pub interface_annotations : String → String → String → InterfaceIpam → Map String
interface_annotations net_attach_name namespace subnet_name ipam =
    let with_ip =
      insert_if_set (annotation_key net_attach_name namespace "ip_address") ipam.ip_address [] in
    let with_mac =
      insert_if_set (annotation_key net_attach_name namespace "mac_address") ipam.mac_address
        with_ip in
    Maps.insert (annotation_key net_attach_name namespace "logical_switch") subnet_name with_mac

abbrev pub bridged : String → String → Map String → Resolved
bridged iface_name net_attach_name annotations = record {
  network = record {
    name = iface_name;
    pod = false;
    multus = some (record { network_name = net_attach_name; is_default = false });
  };
  interface = record {
    name = iface_name;
    binding = record { bridge = true; masquerade = false; sriov = false };
    mac_address = "";
  };
  annotations = annotations;
}

abbrev pub label_or_unsupported : {S : Type 0} → String → Option String → Exec S String
label_or_unsupported text none = raise (wrap text unsupported)
label_or_unsupported text (some value) = pure value

-- The pod network comes first.
abbrev pub pod_network : Interfaces
pod_network = record {
  networks = record { name = kubevirt_vm_mgmt_network_name; pod = true; multus = none } ∷ [];
  interfaces =
      record {
        name = kubevirt_vm_mgmt_network_name;
        binding = record { bridge = false; masquerade = true; sriov = false };
        mac_address = "";
      }
      ∷ [];
  annotations = [];
}

abbrev pub add_resolved : Resolved → Interfaces → Interfaces
add_resolved one all = record {
  networks = all.networks ++ (one.network ∷ []);
  interfaces = all.interfaces ++ (one.interface ∷ []);
  annotations = Maps.insert_all one.annotations all.annotations;
}

-- What a resolver is built with, and `uuid.NewRandom`.
pub record Resolver (S : Type 0) : Type 0 where
  pub net_manager : Manager S
  pub lib : Libraries
  pub namespace : String
  pub new_uuid : Call S String

module _ {S : Type 0} (r : Resolver S) where
  abbrev pub subnet_option : Identifier → GetSubnetOpt
  subnet_option id =
      if r.lib.is_uuid id then GetSubnetOpt.by_uid (some id) else GetSubnetOpt.by_name id

  unfoldable pub init_on_subnet : Identifier → InterfaceIpam → Exec S Resolved
  init_on_subnet subnet_id ipam = do
    subnet ← context "get subnet '%s'" (r.net_manager.get_subnet (subnet_option subnet_id ∷ []))
    net_attach_name ←
        label_or_unsupported "network subnet '%s' missing label '%s' to identify subnet name"
          (Maps.lookup k8s_subnet_net_attach_name_label subnet.metadata)
    subnet_name ←
        label_or_unsupported "network subnet '%s' missing label '%s' to identify subnet name"
          (Maps.lookup k8s_subnet_name_label subnet.metadata)
    iface_uid ← context "generate UUID for interface in subnet '%s'" (call r.new_uuid)
    pure (
        bridged (subnet_name <> ("-" <> iface_uid)) net_attach_name
          (interface_annotations net_attach_name r.namespace subnet_name ipam))

  -- A nil IPAM is dereferenced.
  unfoldable pub init_network : Option InterfaceIpam → Exec S Resolved
  init_network none = panics
  init_network (some ipam) =
      if is_set ipam.subnet_id
      then init_on_subnet (text_or_empty ipam.subnet_id) ipam
      else raise (invalid_argument "network IPAM" "must have a subnetId reference")

  -- The check of a static address.
  abbrev pub in_subnet_range : InterfaceIpam → Option String → Exec S InterfaceIpam
  in_subnet_range ipam none = raise (invalid_argument "subnet CIDR" "cannot be nil for subnet '%s'")
  in_subnet_range ipam (some cidr) =
      if ip_belongs_to_cidr r.lib ipam.ip_address (some cidr)
      then pure ipam
      else raise (plain "IP address '%s' not in subnet CIDR '%s'")

  abbrev pub checked_address : Identifier → InterfaceIpam → Option String → Exec S InterfaceIpam
  checked_address subnet_id ipam none = pure ipam
  checked_address subnet_id ipam (some ip) =
      context "get subnet '%s'"
        (r.net_manager.get_subnet (GetSubnetOpt.by_uid (some subnet_id) ∷ []))
      >>= λ sub. in_subnet_range ipam sub.cidr

  abbrev pub found_subnet_ipam : Identifier → Option InterfaceIpam → Exec S InterfaceIpam
  found_subnet_ipam subnet_id none = pure (dynamic_ipam none subnet_id)
  found_subnet_ipam subnet_id (some ipam) = checked_address subnet_id ipam ipam.ip_address

  unfoldable pub subnet_ipam : Identifier → List InterfaceIpam → Exec S InterfaceIpam
  subnet_ipam subnet_id ipams =
      found_subnet_ipam subnet_id (find (λ ipam. named_by ipam.subnet_id subnet_id) ipams)

  -- The entries as the search sees them, and as the request keeps them: an appended entry is local.
  abbrev pub with_first_subnet :
      Bool
      → Identifier
      → List InterfaceIpam
      → List Identifier
      → Exec S (InterfaceIpam × List InterfaceIpam)
  with_first_subnet has_entry network_id ipams [] =
      raise (invalid_argument "network subnets" "network '%s' has no subnets")
  with_first_subnet true network_id ipams (fst_sub_id ∷ _) =
      let assigned = assign_subnet network_id fst_sub_id ipams in
      subnet_ipam fst_sub_id assigned >>= λ ipam. pure (ipam, assigned)
  with_first_subnet false network_id ipams (fst_sub_id ∷ _) =
      subnet_ipam fst_sub_id (ipams ++ (dynamic_ipam (some network_id) fst_sub_id ∷ [])) >>= λ ipam.
      pure (ipam, ipams)

  -- Neither a subnet id nor a static address in the entry, or no entry.
  abbrev pub dynamic_network_ipam :
      Bool → Identifier → List InterfaceIpam → Bool → Exec S (InterfaceIpam × List InterfaceIpam)
  dynamic_network_ipam has_entry network_id ipams true = raise ipam_configuration_missing
  dynamic_network_ipam has_entry network_id ipams false = do
    net ←
        context "get network '%s'"
          (r.net_manager.get_network (GetNetworkOpt.by_uid (some network_id) ∷ []))
    with_first_subnet has_entry network_id ipams net.subnet_id

  -- An entry with an address. The id of the subnet found is written through the pointer
  -- `netIpam.SubnetId`.
  abbrev pub static_network_ipam :
      Identifier
      → List InterfaceIpam
      → Option Identifier
      → String
      → Exec S (InterfaceIpam × List InterfaceIpam)
  static_network_ipam network_id ipams subnet_id ip = do
    sub ←
        context "get subnet with networkId '%s' and IP '%s'"
          (r.net_manager.get_subnet (GetSubnetOpt.by_network_ip (some network_id) (some ip) ∷ []))
    deref subnet_id
    let assigned = assign_subnet network_id sub.resource_id ipams
    ipam ← subnet_ipam sub.resource_id assigned
    pure (ipam, assigned)

  abbrev pub entry_ipam :
      Identifier
      → List InterfaceIpam
      → Bool
      → Option Identifier
      → Option String
      → Exec S (InterfaceIpam × List InterfaceIpam)
  entry_ipam network_id ipams return_if_no_ipam (some subnet_id) ip =
      subnet_ipam subnet_id ipams >>= λ ipam. pure (ipam, ipams)
  entry_ipam network_id ipams return_if_no_ipam none (some ip) =
      static_network_ipam network_id ipams none ip
  entry_ipam network_id ipams return_if_no_ipam none none =
      dynamic_network_ipam true network_id ipams return_if_no_ipam

  abbrev pub found_network_ipam :
      Identifier
      → List InterfaceIpam
      → Bool
      → Option InterfaceIpam
      → Exec S (InterfaceIpam × List InterfaceIpam)
  found_network_ipam network_id ipams return_if_no_ipam none =
      dynamic_network_ipam false network_id ipams return_if_no_ipam
  found_network_ipam network_id ipams return_if_no_ipam (some ipam) =
      entry_ipam network_id ipams return_if_no_ipam ipam.subnet_id ipam.ip_address

  unfoldable pub network_ipam :
      Identifier → List InterfaceIpam → Bool → Exec S (InterfaceIpam × List InterfaceIpam)
  network_ipam network_id ipams return_if_no_ipam =
      found_network_ipam network_id ipams return_if_no_ipam
        (find (λ ipam. named_by ipam.network_id network_id) ipams)

  -- The subnet that the request names, against the network that it names.
  abbrev pub same_network : Bool → Option Identifier → Option Identifier → Exec S (Unit {0})
  same_network false wanted actual = pure tt
  same_network true wanted none =
      raise (plain "subnet '%s' has no networkId but it is specified in the request as '%s'")
  same_network true wanted (some actual) = guard (actual == text_or_empty wanted) (
      plain
        "subnet '%s' references network '%s' but different network '%s' is specified in the request")

  unfoldable pub resolve_on_subnet :
      InterfaceData → Identifier → List InterfaceIpam → Exec S (Resolved × List InterfaceIpam)
  resolve_on_subnet data' subnet_id ipams = do
    sub ←
        context "get subnet '%s' referenced in VirtualNetworkInterfaceData"
          (r.net_manager.get_subnet (GetSubnetOpt.by_uid (some subnet_id) ∷ []))
    same_network (is_set data'.network_id) data'.network_id sub.network_id
    ipam ← context "get IPAM for subnet '%s'" (subnet_ipam subnet_id ipams)
    resolved ←
        context "initialize kubevirt network and interface from IPAM for subnet '%s'"
          (init_network (some ipam))
    pure (resolved, ipams)

  -- Only the metadata value "random" lets an overlay interface take the first subnet.
  unfoldable pub allocate_random : Option (Map String) → Bool
  allocate_random none = false
  allocate_random (some fields) = elim (Maps.lookup subnet_assignment_annotation fields) [
    | none ↦ false
    | some ann ↦ ann == "random"
  ]

  abbrev pub with_ipam :
      Exec S (InterfaceIpam × List InterfaceIpam) → Exec S (Resolved × List InterfaceIpam)
  with_ipam m = do
    found ← context "get IPAM for network '%s'" m
    resolved ←
        context "initialize kubevirt network and interface from IPAM for network '%s'"
          (init_network (some found.0))
    pure (resolved, found.1)

  -- By the type of the network. One of a type without a name has no IPAM, which is dereferenced.
  abbrev pub resolve_typed :
      NetworkType
      → VirtualNetwork
      → InterfaceData
      → Identifier
      → List InterfaceIpam
      → Exec S (Resolved × List InterfaceIpam)
  resolve_typed sriov net_inst data' network_id ipams =
      context "initialize SR-IOV interface for network '%s'"
        (lift (init_sriov_network net_inst ipams))
      >>= λ resolved. pure (resolved, ipams)
  resolve_typed underlay net_inst data' network_id ipams =
      with_ipam (network_ipam network_id ipams false)
  resolve_typed overlay net_inst data' network_id ipams =
      with_ipam (network_ipam network_id ipams (not (allocate_random data'.metadata)))
  resolve_typed (NetworkType.unnamed n) net_inst data' network_id ipams =
      context "initialize kubevirt network and interface from IPAM for network '%s'"
        (init_network none)
      >>= λ resolved. pure (resolved, ipams)

  unfoldable pub resolve_on_network :
      InterfaceData → Identifier → List InterfaceIpam → Exec S (Resolved × List InterfaceIpam)
  resolve_on_network data' network_id ipams = do
    net_inst ←
        context "get network '%s' referenced in VirtualNetworkInterfaceData"
          (r.net_manager.get_network (GetNetworkOpt.by_uid (some network_id) ∷ []))
    resolve_typed net_inst.network_type net_inst data' network_id ipams

  -- The body of the loop over the requested interfaces.
  unfoldable pub resolve_interface :
      InterfaceData → List InterfaceIpam → Exec S (Resolved × List InterfaceIpam)
  resolve_interface data' ipams =
      if is_set data'.subnet_id
      then resolve_on_subnet data' (text_or_empty data'.subnet_id) ipams
      else if is_set data'.network_id
      then resolve_on_network data' (text_or_empty data'.network_id) ipams
      else raise (
          invalid_argument "VM interface index %d"
            "either networkId or subnetId must be defined to identify the VirtualNetworkInterfaceData related network")

  unfoldable pub resolve_loop :
      List InterfaceData → List InterfaceIpam → Interfaces → Exec S Interfaces
  resolve_loop [] ipams all = pure all
  resolve_loop (data' ∷ rest) ipams all = resolve_interface data' ipams >>= λ found.
      resolve_loop rest found.1 (add_resolved found.0 all)

  unfoldable pub resolve_interfaces : List InterfaceData → List InterfaceIpam → Exec S Interfaces
  resolve_interfaces networks_data ipams = resolve_loop networks_data ipams pod_network
