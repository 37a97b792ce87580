-- ===== src/K8s/Kubevirt.antt =====
-- The fields of the KubeVirt and CDI types (kubevirt.io/api and
-- kubevirt.io/containerized-data-importer-api) that kube-vim reads or fills. A `resource.Quantity` is
-- kept as its text.
use kube_vim.Common.{String, Bool, Option, List, Map}
use kube_vim.Misc.{K8sToleration}

pub record MultusNetwork : Type 0 where
  pub network_name : String
  pub is_default : Bool

-- kubevirtv1.Network; either source may be nil
pub record VmNetwork : Type 0 where
  pub name : String
  pub pod : Bool
  pub multus : Option MultusNetwork

-- kubevirtv1.InterfaceBindingMethod: which of the pointers are set
pub record BindingMethod : Type 0 where
  pub bridge : Bool
  pub masquerade : Bool
  pub sriov : Bool

-- kubevirtv1.Interface
pub record VmInterface : Type 0 where
  pub name : String
  pub binding : BindingMethod
  pub mac_address : String

-- kubevirtv1.VolumeSource: the pointer that is set, with the name that it refers to
pub data VolumeSource : Type 0 where
  data_volume cloud_init_config_drive cloud_init_no_cloud : String → VolumeSource

pub record Volume : Type 0 where
  pub name : String
  pub source : VolumeSource

pub record Disk : Type 0 where
  pub name : String
  pub bus : String

-- kubevirtv1.DataVolumeTemplateSpec, with a PVC as its source
pub record DataVolumeTemplate : Type 0 where
  pub name : String
  pub labels : Map String
  pub pvc_namespace : String
  pub pvc_name : String
  pub size : String
  pub access_modes : List String

-- kubevirtv1.InstancetypeMatcher and kubevirtv1.PreferenceMatcher
pub record Matcher : Type 0 where
  pub kind : String
  pub name : String

-- kubevirtv1.VirtualMachineInstanceTemplateSpec
pub record VmiTemplate : Type 0 where
  pub labels : Map String
  pub annotations : Map String
  pub disks : List Disk
  pub interfaces : List VmInterface
  pub secure_boot : Option Bool
  pub networks : List VmNetwork
  pub volumes : List Volume
  pub node_selector : Map String
  pub tolerations : List K8sToleration

pub record VmStatus : Type 0 where
  pub created : Bool
  pub ready : Bool
  pub printable_status : String
  pub run_strategy : String

pub record VmSpec : Type 0 where
  pub data_volume_templates : List DataVolumeTemplate
  pub instancetype : Option Matcher
  pub preference : Option Matcher
  pub run_strategy : Option String
  pub template : VmiTemplate
  pub status : VmStatus

-- kubevirtv1.VirtualMachineInstanceNetworkInterface
pub record InterfaceStatus : Type 0 where
  pub name : String
  pub ips : List String
  pub mac : String

pub record VmiStatus : Type 0 where
  pub phase : String
  pub reason : String
  pub node_name : String
  pub interfaces : List InterfaceStatus
  pub condition_types : List String

pub record VmiSpec : Type 0 where
  pub networks : List VmNetwork
  pub interfaces : List VmInterface
  pub status : VmiStatus

pub record PodSpec : Type 0 where
  pub node_name : String

pub record SecretSpec : Type 0 where
  pub content : Map String

pub record HttpSource : Type 0 where
  pub url : String
  pub extra_headers : List String
  pub cert_config_map : String
  pub secret_ref : String

-- cdi ImportSourceType; a nil pointer is `none`
pub record ImportSource : Type 0 where
  pub http : Option HttpSource

pub record VolumeImportSpec : Type 0 where
  pub source : Option ImportSource

-- a condition has a type and a status
pub record DataVolumeSpec : Type 0 where
  pub data_source_kind : String
  pub data_source_name : String
  pub size : String
  pub access_modes : List String
  pub storage_class : Option String
  pub phase : String
  pub conditions : List (String × String)

pub record StorageClassSpec : Type 0 where
  pub volume_binding_mode : Option String
