-- ===== src/Flavour/Types.antt =====
-- internal/kubevim/flavour/manager.go: labels, annotations and the `Manager` interface, with the
-- fields of the API messages that it exchanges.
use kube_vim.Common.{String, ℕ, Bool, Option, List, Map}
use kube_vim.Go.{Exec, Reply}
use kube_vim.Network.Types.{Identifier}

abbrev pub k8s_flavour_id_label : String
k8s_flavour_id_label = "flavour.kubevim.kubenfv.io/id"

abbrev pub k8s_flavour_source_label : String
k8s_flavour_source_label = "flavour.kubevim.kubenfv.io/source"

abbrev pub k8s_volumes_annotation : String
k8s_volumes_annotation = "flavour.kubevim.kubenfv.io/volumes"

abbrev pub k8s_flavour_att_name_annotation : String
k8s_flavour_att_name_annotation = "flavour.kubevim.kubenfv.io/attached-name"

-- vivnfm.VirtualStorageData; a `resource.Quantity` is kept as its text
pub record VirtualStorageData : Type 0 where
  pub size_of_storage : Option String
  pub is_boot : Option Bool

-- vivnfm.VirtualCpuData and vivnfm.VirtualMemoryData
pub record VirtualCpuData : Type 0 where
  pub num_virtual_cpu : ℕ

pub record VirtualMemoryData : Type 0 where
  pub virtual_mem_size : Option String

-- vivnfm.VirtualComputeFlavour
pub record VirtualComputeFlavour : Type 0 where
  pub flavour_id : Option Identifier
  pub is_public : Option Bool
  pub virtual_cpu : Option VirtualCpuData
  pub virtual_memory : Option VirtualMemoryData
  pub storage_attributes : List VirtualStorageData
  pub metadata : Option (Map String)

-- encoding/json, on the storage attributes
pub record StorageJson : Type 0 where
  pub marshal : List VirtualStorageData → Reply String
  pub unmarshal : String → Reply (List VirtualStorageData)

pub record FlavourManager (S : Type 0) : Type 0 where
  pub create_flavour : Option VirtualComputeFlavour → Exec S Identifier
  pub get_flavour : Option Identifier → Exec S VirtualComputeFlavour
  pub get_flavours : Exec S (List VirtualComputeFlavour)
  pub delete_flavour : Option Identifier → Exec S (Unit {0})
