-- ===== src/Flavour/Convert.antt =====
-- internal/kubevim/flavour/kubevirt/utils.go: from a flavour to an instance type and a preference,
-- and back.
pub mod RoundTrip
use kube_vim.Common.{
  String, ℕ, ◌<>◌, Bool, true, false, Option, none, some, List, [], ◌∷◌, Map, not, if◌then◌else◌,
  num_eq,
}
use kube_vim.Common.Maps
use kube_vim.Errors.{
  Error, invalid_argument, object_not_instantiated, object_not_managed, plain, wrap,
}
use kube_vim.Go.{Result, ok, err, Reply, answer, refuse}
use kube_vim.K8s.Objects.{
  Kind, Object, ObjectMeta, new_meta, is_object_instantiated, is_object_managed_by_kube_nfv,
  k8s_managed_by_label, kube_nfv_name,
}
use kube_vim.Network.Types.{Identifier}
use kube_vim.Flavour.Types.{
  VirtualStorageData, VirtualCpuData, VirtualMemoryData, VirtualComputeFlavour, StorageJson,
  k8s_flavour_id_label, k8s_flavour_source_label, k8s_volumes_annotation,
  k8s_flavour_att_name_annotation,
}

abbrev pub kubevirt_instance_type_id_annotation : String
kubevirt_instance_type_id_annotation = "kubevirt.io/instancetype-id"

abbrev pub kubevirt_preference_id_annotation : String
kubevirt_preference_id_annotation = "kubevirt.io/preference-id"

abbrev pub kubevirt_flavour_source : String
kubevirt_flavour_source = "kubevirt.io"

-- kubevirtv1.InstancetypeAnnotation and kubevirtv1.PreferenceAnnotation, of kubevirt.io/api
pub record KubevirtNames : Type 0 where
  pub instancetype_annotation : String
  pub preference_annotation : String

abbrev pub flavour_name_from_id : String → String
flavour_name_from_id id = "flavour-" <> id

abbrev pub flavour_preference_name_from_id : String → String
flavour_preference_name_from_id id = "flavour-pref-" <> id

-- `nfvFlavour.Metadata.Fields` is written over the volumes.
abbrev pub with_metadata : Option (Map String) → Map String → Map String
with_metadata none ann = ann
with_metadata (some fields) ann = Maps.insert_all fields ann

abbrev pub flavour_labels : Identifier → Map String
flavour_labels id = (k8s_managed_by_label, kube_nfv_name) ∷ (k8s_flavour_id_label, id) ∷ []

abbrev pub instancetype_of :
    Identifier → ℕ → String → Map String → Object Kind.instancetype × Object Kind.preference
instancetype_of id cpu memory ann = (
  record {
    meta = new_meta "" (flavour_name_from_id id) (flavour_labels id) ann;
    spec = record { cpu_guest = cpu; memory_guest = memory };
  },
  record {
    meta = new_meta "" (flavour_preference_name_from_id id) (flavour_labels id) ann;
    spec = record {};
  },
)

abbrev pub with_volumes :
    Identifier
    → ℕ
    → String
    → Option (Map String)
    → Reply String
    → Result (Object Kind.instancetype × Object Kind.preference)
with_volumes id cpu memory metadata (refuse e) =
    err (wrap "marshal storage attributes for flavour '%s'" e)
with_volumes id cpu memory metadata (answer volumes_json) = ok (
    instancetype_of id cpu memory
      (with_metadata metadata ((k8s_volumes_annotation, volumes_json) ∷ [])))

abbrev pub with_memory :
    StorageJson
    → Identifier
    → ℕ
    → VirtualComputeFlavour
    → Option String
    → Result (Object Kind.instancetype × Object Kind.preference)
with_memory json id cpu nfv_flavour none =
    err (invalid_argument "virtual memory size" "cannot be nil")
with_memory json id cpu nfv_flavour (some size) =
    with_volumes id cpu size nfv_flavour.metadata (json.marshal nfv_flavour.storage_attributes)

abbrev pub with_resources :
    StorageJson
    → Identifier
    → VirtualComputeFlavour
    → Option VirtualCpuData
    → Option VirtualMemoryData
    → Result (Object Kind.instancetype × Object Kind.preference)
with_resources json id nfv_flavour none memory =
    err (invalid_argument "virtual cpu" "cannot be empty")
with_resources json id nfv_flavour (some cpu) none =
    err (invalid_argument "virtual memory" "cannot be empty")
with_resources json id nfv_flavour (some cpu) (some memory) =
    if num_eq cpu.num_virtual_cpu 0
    then err (invalid_argument "virtual CPU count" "cannot be 0")
    else with_memory json id cpu.num_virtual_cpu nfv_flavour memory.virtual_mem_size

-- kubeVirtInstanceTypePreferencesFromNfvFlavour
unfoldable pub instancetype_from_nfv_flavour :
    StorageJson
    → Identifier
    → Option VirtualComputeFlavour
    → Result (Object Kind.instancetype × Object Kind.preference)
instancetype_from_nfv_flavour json id none = err (invalid_argument "flavour" "cannot be empty")
instancetype_from_nfv_flavour json id (some nfv_flavour) =
    with_resources json id nfv_flavour nfv_flavour.virtual_cpu nfv_flavour.virtual_memory

-- A test of the preference, where there is one.
abbrev pub preference_passes : (ObjectMeta → Bool) → Option (Object Kind.preference) → Bool
preference_passes test none = true
preference_passes test (some pref) = test pref.meta

abbrev pub preference_name : Option (Object Kind.preference) → String
preference_name none = ""
preference_name (some pref) = pref.meta.name

abbrev pub preference_uid : Option (Object Kind.preference) → String
preference_uid none = ""
preference_uid (some pref) = pref.meta.uid

abbrev pub with_preference :
    KubevirtNames → Option (Object Kind.preference) → Map String → Map String
with_preference names none metadata = metadata
with_preference names (some pref) metadata =
    Maps.insert kubevirt_preference_id_annotation pref.meta.uid
      (Maps.insert names.preference_annotation pref.meta.name metadata)

abbrev pub with_att_name : Option String → Map String → Map String
with_att_name none metadata = metadata
with_att_name (some name) metadata = Maps.insert k8s_flavour_att_name_annotation name metadata

unfoldable pub flavour_metadata :
    KubevirtNames → Object Kind.instancetype → Option (Object Kind.preference) → Map String
flavour_metadata names inst_type pref =
    let own = Maps.insert k8s_flavour_source_label kubevirt_flavour_source (
      Maps.insert kubevirt_instance_type_id_annotation inst_type.meta.uid
        ((names.instancetype_annotation, inst_type.meta.name) ∷ [])) in
    with_att_name (Maps.lookup k8s_flavour_att_name_annotation inst_type.meta.annotations)
      (with_preference names pref own)

abbrev pub shown_flavour :
    KubevirtNames
    → Identifier
    → Object Kind.instancetype
    → Option (Object Kind.preference)
    → List VirtualStorageData
    → VirtualComputeFlavour
shown_flavour names id inst_type pref storage = record {
  flavour_id = some id;
  is_public = some false;
  virtual_cpu = some (record { num_virtual_cpu = inst_type.spec.cpu_guest });
  virtual_memory = some (record { virtual_mem_size = some inst_type.spec.memory_guest });
  storage_attributes = storage;
  metadata = some (flavour_metadata names inst_type pref);
}

abbrev pub parsed_flavour :
    KubevirtNames
    → Identifier
    → Object Kind.instancetype
    → Option (Object Kind.preference)
    → Reply (List VirtualStorageData)
    → Result VirtualComputeFlavour
parsed_flavour names id inst_type pref (refuse e) =
    err (wrap "unmarshal storage attributes from instancetype '%s' (id: %s)" e)
parsed_flavour names id inst_type pref (answer storage) =
    ok (shown_flavour names id inst_type pref storage)

abbrev pub flavour_with_storage :
    KubevirtNames
    → StorageJson
    → Identifier
    → Object Kind.instancetype
    → Option (Object Kind.preference)
    → Option String
    → Result VirtualComputeFlavour
flavour_with_storage names json id inst_type pref none =
    err (plain "VirtualMachineInstancetype '%s' (id: %s) missing storage attributes annotation")
flavour_with_storage names json id inst_type pref (some volumes) =
    parsed_flavour names id inst_type pref (json.unmarshal volumes)

-- nfvFlavourFromKubeVirtInstanceTypePreferences
unfoldable pub nfv_flavour_from_instancetype :
    KubevirtNames
    → StorageJson
    → Identifier
    → Option (Object Kind.instancetype)
    → Option (Object Kind.preference)
    → Result VirtualComputeFlavour
nfv_flavour_from_instancetype names json id none pref =
    err (invalid_argument "VirtualMachineInstancetype" "cannot be nil")
nfv_flavour_from_instancetype names json id (some inst_type) pref =
    if not (is_object_instantiated inst_type.meta)
    then err (object_not_instantiated "VirtualMachineInstancetype" inst_type.meta.name)
    else if not (preference_passes is_object_instantiated pref)
    then err (object_not_instantiated "VirtualMachinePreference" (preference_name pref))
    else if not (is_object_managed_by_kube_nfv inst_type.meta)
    then err
        (object_not_managed "VirtualMachineInstancetype" inst_type.meta.name inst_type.meta.uid)
    else if not (preference_passes is_object_managed_by_kube_nfv pref)
    then err
        (object_not_managed "VirtualMachinePreference" (preference_name pref) (preference_uid pref))
    else flavour_with_storage names json id inst_type pref
        (Maps.lookup k8s_volumes_annotation inst_type.meta.annotations)
