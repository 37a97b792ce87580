-- ===== src/Compute/Allocate.antt =====
-- internal/kubevim/compute/kubevirt/manager.go: AllocateComputeResource, with the wait for the
-- machine.
pub mod Polls
pub mod Machine
use kube_vim.Common.{
  String, ℕ, zero, suc, ◌<>◌, Bool, true, false, Option, none, some, List, [], ◌∷◌, ◌++◌, Map, ◌==◌,
  not, if◌then◌else◌, text_or_empty,
}
use kube_vim.Common.Maps
use kube_vim.Errors.{Error, ForeignErrors, invalid_argument, unsupported, plain, wrap}
use kube_vim.Go.{
  Exec, Result, ok, err, pure, raise, call, Call, context, lift, guard, required, from_reply, ◌>>=◌,
  ◌>>◌, Reply, answer, refuse,
}
use kube_vim.Misc.{Toleration, K8sToleration, to_k8s_tolerations}
use kube_vim.K8s.Objects.{Kind, Object, new_meta, k8s_managed_by_label, kube_nfv_name}
use kube_vim.K8s.Kubevirt.{Volume, Disk, DataVolumeTemplate, Matcher, VmSpec}
use kube_vim.K8s.Client.{Client, ObjectKey}
use kube_vim.Network.Types.{Identifier, Libraries}
use kube_vim.Flavour.Types.{
  FlavourManager, VirtualComputeFlavour, k8s_flavour_id_label, k8s_flavour_source_label,
}
use kube_vim.Flavour.Convert.{kubevirt_flavour_source}
use kube_vim.Image.Types.{NfvImageManager, SoftwareImage, k8s_image_id_label}
use kube_vim.Compute.Types.{
  ComputeManager, AllocateComputeRequest, VirtualCompute, UserData, KubevirtApi,
}
use kube_vim.Compute.Ipam.{Interfaces, Resolver, resolve_interfaces}
use kube_vim.Compute.Volumes.{
  init_image_data_volumes, init_volumes_disks_from_data_volumes,
  create_user_data_volume_with_secret,
}
use kube_vim.Compute.Machines.{nfv_virtual_compute_from_kubevirt_vm}
use kube_vim.Compute.Launcher.{get_launcher_info}
use kube_vim.Compute.Manager.{
  ComputeEnv, vm_key, get_compute_resource, list_compute_resources, delete_compute_resource,
}

-- config.ComputeConfig
pub record ComputeConfig : Type 0 where
  pub node_selector : Option (Map String)
  pub tolerations : Option (List Toleration)

-- What AllocateComputeResource uses besides: the other managers, `uuid.NewRandom` (in the resolver),
-- and the wait between two polls, which tells whether it was cut off by the deadline.
pub record AllocateEnv (S : Type 0) : Type 0 where
  pub env : ComputeEnv S
  pub lib : Libraries
  pub flavour_manager : FlavourManager S
  pub image_manager : NfvImageManager S
  pub compute_cfg : Option ComputeConfig
  pub new_uuid : Call S String
  pub pause : S → Bool × S

-- The polls that fit into vmiCreationTimeout (30 s) at one in vmiPollInterval (500 ms), and the one
-- at its end.
abbrev pub max_polls : ℕ
max_polls = 61

abbrev pub from_kubevirt : Option String → Bool
from_kubevirt none = false
from_kubevirt (some source) = source == kubevirt_flavour_source

unfoldable pub init_vm_instance_type_matcher : String → Result Matcher
init_vm_instance_type_matcher name =
    if name == ""
    then err (invalid_argument "instanceType name" "cannot be empty")
    else ok (record { kind = "VirtualMachineInstanceType"; name = name })

-- The error of `initVmPreferenceMatcher` is dropped.
unfoldable pub init_vm_preference_matcher : String → Option Matcher
init_vm_preference_matcher name =
    if name == "" then none else some (record { kind = "VirtualMachinePreference"; name = name })

abbrev pub vm_name_of : Option String → SoftwareImage → String
vm_name_of name image = if text_or_empty name == "" then image.name <> "-vm" else text_or_empty name

abbrev pub node_selector_of : Option ComputeConfig → Map String
node_selector_of none = []
node_selector_of (some cfg) = elim cfg.node_selector [ none ↦ [] | some selector ↦ selector ]

abbrev pub tolerations_of : Option ComputeConfig → List K8sToleration
tolerations_of none = []
tolerations_of (some cfg) = elim cfg.tolerations [
  | none ↦ []
  | some tolerations ↦ to_k8s_tolerations tolerations
]

-- What the request, the flavour and the image come to.
pub record Plan : Type 0 where
  pub vm_name : String
  pub flavour_id : Identifier
  pub image_id : Identifier
  pub instancetype : Matcher
  pub preference : Option Matcher
  pub data_volumes : List DataVolumeTemplate

module _ {S : Type 0} (a : AllocateEnv S) where
  abbrev pub poll_reply :
      (S → Option (Result (Object Kind.vmi) × S))
      → Reply (Object Kind.vmi)
      → S
      → Option (Result (Object Kind.vmi) × S)
  poll_reply again (answer vmi) s = some (ok vmi, s)
  poll_reply again (refuse e) s =
      if not (a.env.errors.is_not_found e)
      then some (err (wrap "get VirtualMachineInstance '%s'" e), s)
      else let (cut_off, s') = a.pause s in
        if cut_off
        then some
            (err (wrap "VMI '%s' not created after %s" (plain "context deadline exceeded")), s')
        else again s'

  -- The loop of waitForVmi, on a number of polls.
  unfoldable pub poll_vmi : ℕ → ObjectKey → S → Option (Result (Object Kind.vmi) × S)
  poll_vmi zero key s = none
  poll_vmi (suc n) key s =
      let (reply, s') = a.env.client.live_get Kind.vmi key s in poll_reply (poll_vmi n key) reply s'

  abbrev pub polled : Option (Result (Object Kind.vmi) × S) → S → Result (Object Kind.vmi) × S
  polled none s = (err (plain "no poll left"), s)
  polled (some r) s = r

  unfoldable pub wait_for_vmi : String → Exec S (Object Kind.vmi)
  wait_for_vmi name s = polled (poll_vmi max_polls (vm_key a.env name) s) s

  abbrev pub required_id : String → Option Identifier → Exec S Identifier
  required_id field id =
      if text_or_empty id == ""
      then raise (invalid_argument field "cannot be empty")
      else pure (text_or_empty id)

  -- The metadata of a flavour of the KubeVirt flavour manager.
  abbrev pub kubevirt_metadata : Option (Map String) → Exec S (Map String)
  kubevirt_metadata none = raise (wrap "flavour metadata cannot be nil" unsupported)
  kubevirt_metadata (some fields) =
      if from_kubevirt (Maps.lookup k8s_flavour_source_label fields)
      then pure fields
      else raise
          (wrap "kubevirt compute manager can only work with kubevirt flavour manager" unsupported)

  abbrev pub with_user_data :
      String → Option UserData → List Volume × List Disk → Exec S (List Volume × List Disk)
  with_user_data vm_name none volumes = pure volumes
  with_user_data vm_name (some user_data) (volumes, disks) =
      context "initialize vm userdata volume" (
        create_user_data_volume_with_secret a.env.client a.env.errors a.env.api a.env.namespace
          vm_name user_data)
      >>= λ added. pure (volumes ++ (added.0 ∷ []), disks ++ (added.1 ∷ []))

  unfoldable pub virtual_machine : Plan → List Volume × List Disk → Interfaces → Object Kind.vm
  virtual_machine plan (volumes, disks) interfaces = record {
    meta =
        new_meta a.env.namespace plan.vm_name
          ((a.env.api.vm_label, plan.vm_name)
            ∷ (k8s_managed_by_label, kube_nfv_name)
            ∷ (k8s_flavour_id_label, plan.flavour_id)
            ∷ (k8s_image_id_label, plan.image_id)
            ∷ [])
          [];
    spec = record {
      data_volume_templates = plan.data_volumes;
      instancetype = some plan.instancetype;
      preference = plan.preference;
      run_strategy = some a.env.api.run_strategy_always;
      template = record {
        labels = (k8s_managed_by_label, kube_nfv_name) ∷ (a.env.api.vm_label, plan.vm_name) ∷ [];
        annotations = Maps.insert_all interfaces.annotations [];
        disks = disks;
        interfaces = interfaces.interfaces;
        secure_boot = some false;
        networks = interfaces.networks;
        volumes = volumes;
        node_selector = node_selector_of a.compute_cfg;
        tolerations = tolerations_of a.compute_cfg;
      };
      status = record { created = false; ready = false; printable_status = ""; run_strategy = "" };
    };
  }

  abbrev pub resolver : Resolver S
  resolver = record {
    net_manager = a.env.network_manager;
    lib = a.lib;
    namespace = a.env.namespace;
    new_uuid = a.new_uuid;
  }

  -- Up to the volumes nothing is written.
  unfoldable pub plan_compute : AllocateComputeRequest → Exec S Plan
  plan_compute req = do
    flavour_id ← required_id "compute flavour id" req.compute_flavour_id
    flav ← context "retrieve flavour '%s'" (a.flavour_manager.get_flavour req.compute_flavour_id)
    fields ← kubevirt_metadata flav.metadata
    instance_type_name ←
        required (invalid_argument "flavour metadata" "missing '%s' annotation")
          (Maps.lookup a.env.api.instancetype_annotation fields)
    instance_type_matcher ←
        context "initialize kubevirt instance type matcher '%s'"
          (lift (init_vm_instance_type_matcher instance_type_name))
    preference_name ←
        required (invalid_argument "flavour metadata" "missing '%s' annotation")
          (Maps.lookup a.env.api.preference_annotation fields)
    image_id ← required_id "vc image id" req.vc_image_id
    image ← context "get image '%s'" (a.image_manager.get_image req.vc_image_id)
    data_volumes ← context "initialize kubevirt data volume" (
        lift (
          init_image_data_volumes a.env.api image flav.storage_attributes
            (text_or_empty req.compute_name) a.env.namespace))
    pure (record {
      vm_name = vm_name_of req.compute_name image;
      flavour_id = flavour_id;
      image_id = image_id;
      instancetype = instance_type_matcher;
      preference = init_vm_preference_matcher preference_name;
      data_volumes = data_volumes;
    })

  -- The secret, the networks and the machine itself.
  unfoldable pub create_vm : AllocateComputeRequest → Plan → Exec S (Object Kind.vm)
  create_vm req plan = do
    volumes ←
        with_user_data plan.vm_name req.user_data
          (init_volumes_disks_from_data_volumes plan.data_volumes)
    interfaces ←
        context "initialize kubevirt networks"
          (resolve_interfaces resolver req.interface_data req.interface_ipam)
    context "create kubevirt VirtualMachine '%s'"
        (call (a.env.client.create Kind.vm (virtual_machine plan volumes interfaces)))

  unfoldable pub allocate_compute_resource : Option AllocateComputeRequest → Exec S VirtualCompute
  allocate_compute_resource none = raise (invalid_argument "request" "cannot be empty")
  allocate_compute_resource (some req) = do
    plan ← plan_compute req
    vm ← create_vm req plan
    vmi ← context "await VMI for VM '%s' (uid: %s)" (wait_for_vmi plan.vm_name)
    launcher ← get_launcher_info a.env.client a.env.api a.env.namespace vmi
    context "convert kubevirt VM '%s' (uid: %s) to nfv VirtualCompute" (
        nfv_virtual_compute_from_kubevirt_vm a.env.network_manager a.env.errors a.env.api vm vmi
          launcher)

  unfoldable pub kubevirt_computes : ComputeManager S
  kubevirt_computes = record {
    allocate_compute_resource = allocate_compute_resource;
    get_compute_resource = get_compute_resource a.env;
    list_compute_resources = list_compute_resources a.env;
    delete_compute_resource = delete_compute_resource a.env;
  }
