-- ===== src/Tests/Compute.antt =====
-- A machine with a boot disk and no requested interface, in a cluster in memory.
use mathlib.Core.Path.{subst}
use kube_vim.Common.{
  String, ℕ, zero, suc, find, ap, sym, ◌∙◌, ◌+◌, ◌≤◌, Bool, true, false, Option, none, some, List,
  [], ◌∷◌, Map, ltb, filter, ◌==◌, ◌≡◌, ◌↔◌, refl, arith, if◌then◌else◌,
}
use kube_vim.Errors.{Error, foreign, plain, wrap, unsupported}
use kube_vim.Go.{ok, err, answer, refuse, Reply, pure}
use kube_vim.K8s.Objects.{Kind, Object, ObjectMeta, k8s_managed_by_label, kube_nfv_name}
use kube_vim.K8s.Kubevirt.{VmStatus, VmiStatus, DataVolumeTemplate}
use kube_vim.K8s.Client.{Client, ObjectKey, key_of}
use kube_vim.K8s.Memory.{
  Cluster, memory, memory_errors, empty, no_cells, get_in, stored_in, missing_error,
}
use kube_vim.K8s.Memory.Lawful.{memory_lawful}
use kube_vim.Network.Kubeovn.Backend.{kubeovn_manager}
use kube_vim.Flavour.Types.{VirtualStorageData, k8s_flavour_id_label}
use kube_vim.Flavour.Manager.{kubevirt_flavours}
use kube_vim.Image.Types.{SoftwareImage, k8s_image_id_label}
use kube_vim.Compute.Types.{
  AllocateComputeRequest, metadata_service, VirtualCompute, GetComputeOpt, KubevirtApi,
  RunningState,
}
use kube_vim.Compute.Volumes.{
  is_boot, bootable_loop, init_image_data_volumes, cloud_init_secret,
  create_user_data_volume_with_secret, boot_template, init_volumes_disks_from_data_volumes,
}
use kube_vim.Compute.Volumes.Boot.{
  one_or_none, BootVolume, bootable_loop-filter, init_image_data_volumes-BootVolume,
}
use kube_vim.Compute.Volumes.Secret.{metadata_service-left}
use kube_vim.Compute.Ipam.{pod_network}
use kube_vim.Compute.Machines.{get_running_state, nfv_virtual_compute_from_kubevirt_vm}
use kube_vim.Compute.Machines.State.{IsUp, get_running_state-running_iff}
use kube_vim.Compute.Machines.Interfaces.{ShowsMachine, nfv_virtual_compute-ShowsMachine}
use kube_vim.Compute.Launcher.{no_launcher}
use kube_vim.Compute.Manager.{
  ComputeEnv, managed, get_compute_resource, delete_compute_resource, list_compute_resources,
}
use kube_vim.Compute.Manager.Join.{
  AreDistinct, DistinctNames, list_by_search, list_compute_resources-by_search,
}
use kube_vim.Compute.Manager.Removed.{MachineGoing, delete_compute_resource-MachineGoing}
use kube_vim.Compute.Allocate.{AllocateEnv, Plan, virtual_machine, max_polls}
use kube_vim.Compute.Allocate.Polls.{IsTimed, Returns, poll_vmi-max_polls}
use kube_vim.Tests.{test_env, test_lib, ok_or}
use kube_vim.Tests.Flavour.{flavour_env, boot_disk}

abbrev api : KubevirtApi
api = record {
  vm_label = "kubevirt.io/vm";
  created_by_label = "kubevirt.io/created-by";
  instancetype_annotation = "kubevirt.io/instancetype-name";
  preference_annotation = "kubevirt.io/preference-name";
  run_strategy_halted = "Halted";
  run_strategy_always = "Always";
  vmi_paused = "Paused";
  status_terminating = "Terminating";
  phase_running = "Running";
  phase_pending = "Pending";
  phase_scheduling = "Scheduling";
  phase_scheduled = "Scheduled";
  phase_failed = "Failed";
  is_zero = λ size. size == "0";
  is_greater = λ a b. false;
  parse_network_info = λ text. answer [];
}

abbrev compute_env : ComputeEnv Cluster
compute_env = record {
  client = memory;
  errors = memory_errors;
  api = api;
  network_manager = kubeovn_manager test_env;
  namespace = "kube-nfv";
}

abbrev pub jammy : SoftwareImage
jammy = record {
  software_image_id = some "img";
  name = "jammy";
  size = some "4Gi";
  status = "ready";
  created_at = none;
  updated_at = none;
  metadata = [];
}

abbrev data_disk : VirtualStorageData
data_disk = record { size_of_storage = some "20Gi"; is_boot = none }

abbrev attrs : List VirtualStorageData
attrs = data_disk ∷ boot_disk "10Gi" ∷ []

bootable_loop-filter_example : bootable_loop attrs none ≡ one_or_none (filter is_boot attrs)
bootable_loop-filter_example = bootable_loop-filter attrs

abbrev boot_volume : DataVolumeTemplate
boot_volume = boot_template jammy "img" "10Gi" "web" "kube-nfv"

volumes_run : init_image_data_volumes api jammy attrs "web" "kube-nfv" ≡ ok (boot_volume ∷ [])
unfolding init_image_data_volumes bootable_loop
    kube_vim.Compute.Volumes.init_image_bootable_data_volume
volumes_run = refl

init_image_data_volumes-BootVolume_example :
    BootVolume api jammy "web" "kube-nfv" attrs (boot_volume ∷ [])
init_image_data_volumes-BootVolume_example =
    init_image_data_volumes-BootVolume api jammy "web" "kube-nfv" attrs (boot_volume ∷ [])
      volumes_run

abbrev secret : Object Kind.secret
secret = cloud_init_secret memory memory_errors api "kube-nfv" "web" "#cloud-config"

abbrev made_secret : Object Kind.secret
made_secret = record secret {
  meta = record secret.meta { uid = "u"; resource_version = "1"; created = some 1 };
}

secret_made : (memory.create Kind.secret secret empty).0 ≡ answer made_secret
unfolding kube_vim.K8s.Memory.create_in kube_vim.Common.find kube_vim.K8s.Memory.objects
secret_made = refl

metadata_service-left_example :
    ((create_user_data_volume_with_secret memory memory_errors api "kube-nfv" "web"
        (record { content = "#cloud-config"; method = some metadata_service })
        empty).0
      ≡ err
          (wrap "userData metadata service method not supported in KubeVirt natively" unsupported))
    × (memory_lawful.stored
          (create_user_data_volume_with_secret memory memory_errors api "kube-nfv" "web"
            (record { content = "#cloud-config"; method = some metadata_service })
            empty).1
          Kind.secret
          (key_of secret.meta)
        ≡ some made_secret)
metadata_service-left_example =
    metadata_service-left memory_lawful api "kube-nfv" "web" "#cloud-config" empty made_secret refl
      secret_made

abbrev up_vm : VmStatus
up_vm = record {
  created = true;
  ready = true;
  printable_status = "Running";
  run_strategy = "Always";
}

abbrev up_vmi : VmiStatus
up_vmi = record {
  phase = "Running";
  reason = "";
  node_name = "node-1";
  interfaces = [];
  condition_types = "Ready" ∷ [];
}

get_running_state-running_iff_example :
    (get_running_state api up_vm up_vmi ≡ RunningState.running) ↔ IsUp api up_vm up_vmi
get_running_state-running_iff_example = get_running_state-running_iff api up_vm up_vmi

-- The first poll finds nothing, and the pause outlasts the deadline.
abbrev late_get : ℕ → (k : Kind) → Cluster → Reply (Object k) × Cluster
late_get zero k s = (refuse missing_error, s)
late_get (suc n) k s = (refuse (foreign "context deadline exceeded"), s)

abbrev slow_client : Client Cluster
slow_client = record memory { live_get = λ k key s. late_get s.next k s }

abbrev long_pause : Cluster → Bool × Cluster
long_pause s = (false, record s { next = 30000 + s.next })

abbrev pub allocate_env : Client Cluster → AllocateEnv Cluster
allocate_env client = record {
  env = record compute_env { client = client };
  lib = test_lib;
  flavour_manager = kubevirt_flavours flavour_env;
  image_manager = record { get_image = λ id. pure jammy; list_images = pure (jammy ∷ []) };
  compute_cfg = none;
  new_uuid = λ s. (answer "7c1d", s);
  pause = long_pause;
}

abbrev web_key : ObjectKey
web_key = record { namespace = "kube-nfv"; name = "web" }

late_get-keeps : (n : ℕ) (s : Cluster) → s.next ≤ (late_get n Kind.vmi s).1.next
late_get-keeps zero s = omega arith
late_get-keeps (suc n) s = omega arith

late_get-expired :
    (n : ℕ) (s : Cluster) (e : Error)
    → 30000 ≤ n
    → (late_get n Kind.vmi s).0 ≡ refuse e
    → memory_errors.is_not_found e ≡ false
unfolding kube_vim.Errors.root
late_get-expired zero s e late h = absurd (omega (arith, late))
late_get-expired (suc n) s e late h =
    ap
      (λ (r : Reply (Object Kind.vmi)). elim r [
        | refuse e ↦ memory_errors.is_not_found e
        | answer x ↦ false
      ])
      (sym h)

slow-IsTimed : IsTimed (allocate_env slow_client) web_key
slow-IsTimed = record {
  now = λ s. s.next;
  get_forward = λ s. late_get-keeps s.next s;
  expired = λ s e late h. late_get-expired s.next s e late h;
  pause_long = λ s h. omega arith;
}

poll_vmi-max_polls_example : Returns (allocate_env slow_client) web_key max_polls empty
poll_vmi-max_polls_example =
    poll_vmi-max_polls (allocate_env slow_client) web_key slow-IsTimed empty

abbrev request : AllocateComputeRequest
request = record {
  compute_flavour_id = some "small";
  vc_image_id = some "img";
  compute_name = some "web";
  user_data = none;
  interface_data = [];
  interface_ipam = [];
}

abbrev plan : Plan
plan = record {
  vm_name = "web";
  flavour_id = "small";
  image_id = "img";
  instancetype = record { kind = "VirtualMachineInstanceType"; name = "flavour-small" };
  preference = none;
  data_volumes = boot_volume ∷ [];
}

abbrev web_meta : ObjectMeta
web_meta = record {
  namespace = "kube-nfv";
  name = "web";
  uid = "u";
  resource_version = "1";
  deletion_timestamp = none;
  created = some 1;
  labels =
      ("kubevirt.io/vm", "web")
      ∷ (k8s_managed_by_label, kube_nfv_name)
      ∷ (k8s_flavour_id_label, "small")
      ∷ (k8s_image_id_label, "img")
      ∷ [];
  annotations = [];
}

abbrev web_vm : Object Kind.vm
web_vm = record {
  meta = web_meta;
  spec =
      (virtual_machine (allocate_env memory) plan
        (init_volumes_disks_from_data_volumes (boot_volume ∷ [])) pod_network).spec;
}

abbrev web_vmi : Object Kind.vmi
web_vmi = record {
  meta = web_meta;
  spec = record {
    networks = record { name = "default"; pod = true; multus = none } ∷ [];
    interfaces =
        record {
          name = "default";
          binding = record { bridge = false; masquerade = true; sriov = false };
          mac_address = "";
        }
        ∷ [];
    status = up_vmi;
  };
}

abbrev with_web : Cluster
with_web = record {
  next = 1;
  cells = record no_cells { vms = web_vm ∷ []; vmis = web_vmi ∷ []; secrets = made_secret ∷ [] };
}

abbrev no_compute : VirtualCompute
no_compute = record {
  compute_id = "";
  compute_name = "";
  flavour_id = "";
  vc_image_id = "";
  virtual_network_interface = [];
  host_id = "";
  is_enabled = false;
  running_state = RunningState.unknown;
  metadata = [];
}

abbrev shown_web : VirtualCompute
shown_web =
    ok_or no_compute
      (nfv_virtual_compute_from_kubevirt_vm (kubeovn_manager test_env) memory_errors api web_vm
        web_vmi no_launcher with_web).0

web_shown :
    (nfv_virtual_compute_from_kubevirt_vm
      (kubeovn_manager test_env)
      memory_errors
      api
      web_vm
      web_vmi
      no_launcher
      with_web).0
    ≡ ok shown_web
unfolding nfv_virtual_compute_from_kubevirt_vm kube_vim.Common.Maps.lookup
    kube_vim.Compute.Machines.show_interfaces kube_vim.Compute.Machines.show_interface
    kube_vim.Compute.Machines.get_interface_from_domain_spec find
    kube_vim.Compute.Machines.iface_binding_method_to_nfv
web_shown = refl

nfv_virtual_compute-ShowsMachine_example :
    ShowsMachine (kubeovn_manager test_env) memory_errors api web_vm web_vmi no_launcher shown_web
nfv_virtual_compute-ShowsMachine_example =
    nfv_virtual_compute-ShowsMachine (kubeovn_manager test_env) memory_errors api web_vm web_vmi
      no_launcher with_web shown_web web_shown

one_vmi-distinct :
    (vmis : List (Object Kind.vmi))
    → Path (Reply (List (Object Kind.vmi))) (answer (web_vmi ∷ [])) (answer vmis)
    → DistinctNames vmis
unfolding find
one_vmi-distinct vmis h = subst DistinctNames {x = web_vmi ∷ []} {y = vmis} (cc) (refl, tt)

web_vmis : (memory.list Kind.vmi (managed compute_env) with_web).0 ≡ answer (web_vmi ∷ [])
unfolding filter kube_vim.K8s.Memory.objects kube_vim.Common.Maps.matches
    kube_vim.K8s.Client.is_cached kube_vim.K8s.Objects.is_object_managed_by_kube_nfv
web_vmis = refl

web-AreDistinct : AreDistinct compute_env with_web
web-AreDistinct = record { at = λ vmis h. one_vmi-distinct vmis (sym web_vmis ∙ h) }

list_compute_resources-by_search_example :
    list_compute_resources compute_env with_web ≡ list_by_search compute_env with_web
list_compute_resources-by_search_example =
    list_compute_resources-by_search compute_env with_web web-AreDistinct

web_deleted :
    (delete_compute_resource compute_env (GetComputeOpt.by_name "web" ∷ []) with_web).0 ≡ ok tt
unfolding delete_compute_resource get_compute_resource kube_vim.Compute.Manager.get_compute_with
    get_in find kube_vim.K8s.Memory.objects kube_vim.K8s.Client.same_key key_of
    kube_vim.Compute.Manager.compute_from_vm kube_vim.Compute.Launcher.get_launcher_info
    nfv_virtual_compute_from_kubevirt_vm kube_vim.Common.Maps.lookup
    kube_vim.Compute.Machines.show_interfaces kube_vim.Compute.Machines.show_interface
    kube_vim.Compute.Machines.get_interface_from_domain_spec
    kube_vim.Compute.Machines.iface_binding_method_to_nfv kube_vim.K8s.Memory.delete_in
    kube_vim.Common.Maps.at kube_vim.Common.Maps.insert
    kube_vim.Compute.Launcher.launcher_info_from_pod kube_vim.Compute.Launcher.pci_by_vnic
    kube_vim.Compute.Launcher.select_launcher_pod get_running_state
    kube_vim.Compute.Machines.place_on_multus kube_vim.Compute.Machines.place_on_subnet
    kube_vim.Compute.Manager.delete_secret kube_vim.Errors.is_err_not_found
    kube_vim.Errors.is_missing kube_vim.Errors.root kube_vim.K8s.Memory.with_objects
    kube_vim.K8s.Memory.without kube_vim.Network.Types.same_type kube_vim.K8s.Objects.new_meta
    kube_vim.K8s.Memory.cached_get kube_vim.K8s.Client.is_cached
    kube_vim.K8s.Objects.is_object_managed_by_kube_nfv
web_deleted = refl

delete_compute_resource-MachineGoing_example :
    (vm : VirtualCompute) × ((get_compute_resource compute_env
        (GetComputeOpt.by_name "web" ∷ [])
        with_web).0
      ≡ ok vm)
    × MachineGoing compute_env memory_lawful vm.compute_name
        (get_compute_resource compute_env (GetComputeOpt.by_name "web" ∷ []) with_web).1
        (delete_compute_resource compute_env (GetComputeOpt.by_name "web" ∷ []) with_web).1
delete_compute_resource-MachineGoing_example =
    delete_compute_resource-MachineGoing compute_env memory_lawful
      (GetComputeOpt.by_name "web" ∷ []) with_web web_deleted
