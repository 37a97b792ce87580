-- ===== src/Compute/Types.antt =====
-- internal/kubevim/compute/manager.go: the options of a lookup and the `Manager` interface, with the
-- fields of the API messages that internal/kubevim/compute/kubevirt reads or fills.
use kube_vim.Common.{String, ℕ, Bool, Option, none, List, [], ◌∷◌, Map}
use kube_vim.Go.{Exec, Reply}
use kube_vim.Network.Types.{Identifier}

-- vivnfm.VirtualNetworkInterfaceIPAM
pub record InterfaceIpam : Type 0 where
  pub network_id : Option Identifier
  pub subnet_id : Option Identifier
  pub ip_address : Option String
  pub mac_address : Option String

-- vivnfm.VirtualNetworkInterfaceData
pub record InterfaceData : Type 0 where
  pub network_id : Option Identifier
  pub subnet_id : Option Identifier
  pub metadata : Option (Map String)

-- vivnfm.UserData_UserDataMethod; the enumeration is open
pub data UserDataMethod : Type 0 where
  config_drive_plaintext config_drive_mime_multipart : UserDataMethod
  no_cloud metadata_service : UserDataMethod
  unnamed : ℕ → UserDataMethod

pub record UserData : Type 0 where
  pub content : String
  pub method : Option UserDataMethod

pub record AllocateComputeRequest : Type 0 where
  pub compute_flavour_id : Option Identifier
  pub vc_image_id : Option Identifier
  pub compute_name : Option String
  pub user_data : Option UserData
  pub interface_data : List InterfaceData
  pub interface_ipam : List InterfaceIpam

-- nfvcommon.ComputeRunningState
pub data RunningState : Type 0 where
  stopped paused terminating running starting failed unknown : RunningState

-- nfvcommon.TypeVirtualNic, the two values that are used
pub data NicType : Type 0 where
  bridge sriov : NicType

-- vivnfm.VirtualNetworkInterface; it is always enabled and has no bandwidth
pub record VirtualNetworkInterface : Type 0 where
  pub resource_id : Identifier
  pub owner_id : Identifier
  pub network_id : Option Identifier
  pub subnet_id : Option Identifier
  pub type_virtual_nic : NicType
  pub ip_address : List String
  pub mac_address : String
  pub metadata : Map String

-- vivnfm.VirtualCompute
pub record VirtualCompute : Type 0 where
  pub compute_id : Identifier
  pub compute_name : String
  pub flavour_id : Identifier
  pub vc_image_id : Identifier
  pub virtual_network_interface : List VirtualNetworkInterface
  pub host_id : Identifier
  pub is_enabled : Bool
  pub running_state : RunningState
  pub metadata : Map String

abbrev pub compute_pod_name_metadata_key : String
compute_pod_name_metadata_key = "compute.kubevim.kubenfv.io/pod-name"

abbrev pub vnic_host_pci_address_metadata_key : String
vnic_host_pci_address_metadata_key = "compute.kubevim.kubenfv.io/host-pci-address"

-- GetComputeOpt: each option writes a field of `getComputeOpts`.
pub data GetComputeOpt : Type 0 where
  by_name : String → GetComputeOpt
  by_uid : Option Identifier → GetComputeOpt

pub record GetComputeOpts : Type 0 where
  pub name : String
  pub uid : Option Identifier

abbrev pub set_compute_opt : GetComputeOpt → GetComputeOpts → GetComputeOpts
set_compute_opt (by_name name) opts = record opts { name = name }
set_compute_opt (by_uid uid) opts = record opts { uid = uid }

abbrev pub set_compute_opts : List GetComputeOpt → GetComputeOpts → GetComputeOpts
set_compute_opts [] opts = opts
set_compute_opts (opt ∷ rest) opts = set_compute_opts rest (set_compute_opt opt opts)

abbrev pub apply_get_compute_opts : List GetComputeOpt → GetComputeOpts
apply_get_compute_opts opts = set_compute_opts opts (record { name = ""; uid = none })

pub record ComputeManager (S : Type 0) : Type 0 where
  pub allocate_compute_resource : Option AllocateComputeRequest → Exec S VirtualCompute
  pub get_compute_resource : List GetComputeOpt → Exec S VirtualCompute
  pub list_compute_resources : Exec S (List VirtualCompute)
  pub delete_compute_resource : List GetComputeOpt → Exec S (Unit {0})

-- The names of kubevirt.io/api that the code tests or writes, the comparison of two quantities
-- (`Equal` to zero, and `Cmp` with the result 1), and encoding/json on the network-info annotation:
-- the interfaces by network, with the PCI address of those that have one.
pub record KubevirtApi : Type 0 where
  pub vm_label : String
  pub created_by_label : String
  pub instancetype_annotation : String
  pub preference_annotation : String
  pub run_strategy_halted : String
  pub run_strategy_always : String
  pub vmi_paused : String
  pub status_terminating : String
  pub phase_running : String
  pub phase_pending : String
  pub phase_scheduling : String
  pub phase_scheduled : String
  pub phase_failed : String
  pub is_zero : String → Bool
  pub is_greater : String → String → Bool
  pub parse_network_info : String → Reply (List (String × Option String))
