-- ===== src/Compute/Manager.antt =====
-- internal/kubevim/compute/kubevirt/manager.go: GetComputeResource, ListComputeResources and
-- DeleteComputeResource.
pub mod Join
pub mod Removed
use kube_vim.Common.{
  String, ◌<>◌, Bool, true, false, Option, none, some, List, [], ◌∷◌, ◌++◌, Map, ◌==◌, not, find,
  if◌then◌else◌, text_or_empty,
}
use kube_vim.Common.Maps
use kube_vim.Errors.{Error, ForeignErrors, invalid_argument, not_found, wrap}
use kube_vim.Go.{Exec, pure, raise, call, context, inspect, ◌>>=◌, ◌>>◌}
use kube_vim.K8s.Objects.{Kind, Object, k8s_managed_by_label, kube_nfv_name}
use kube_vim.K8s.Client.{Client, ObjectKey, ListOptions}
use kube_vim.Network.Types.{Identifier}
use kube_vim.Network.Manager.{Manager}
use kube_vim.Compute.Types.{
  VirtualCompute, GetComputeOpt, GetComputeOpts, apply_get_compute_opts, KubevirtApi,
}
use kube_vim.Compute.Volumes.{kubevirt_vm_cloud_init_secret_suffix}
use kube_vim.Compute.Machines.{nfv_virtual_compute_from_kubevirt_vm}
use kube_vim.Compute.Launcher.{select_launcher_pod, launcher_info_from_pod, get_launcher_info}

-- What a manager is built with.
pub record ComputeEnv (S : Type 0) : Type 0 where
  pub client : Client S
  pub errors : ForeignErrors
  pub api : KubevirtApi
  pub network_manager : Manager S
  pub namespace : String

-- `vmiByName`: a later machine of one name takes the place of an earlier one.
unfoldable pub index_by_name :
    List (Object Kind.vmi) → Map (Object Kind.vmi) → Map (Object Kind.vmi)
index_by_name [] index = index
index_by_name (vmi ∷ vmis) index = index_by_name vmis (Maps.insert vmi.meta.name vmi index)

abbrev pub pods_at : String → Map (List (Object Kind.pod)) → List (Object Kind.pod)
pods_at uid index = elim (Maps.lookup uid index) [ none ↦ [] | some pods ↦ pods ]

abbrev pub add_pod :
    Option String → Object Kind.pod → Map (List (Object Kind.pod)) → Map (List (Object Kind.pod))
add_pod none pod index = index
add_pod (some uid) pod index = Maps.insert uid (pods_at uid index ++ (pod ∷ [])) index

-- `podsByVmiUID`
unfoldable pub index_pods :
    KubevirtApi
    → List (Object Kind.pod)
    → Map (List (Object Kind.pod))
    → Map (List (Object Kind.pod))
index_pods api [] index = index
index_pods api (pod ∷ pods) index =
    index_pods api pods (add_pod (Maps.lookup api.created_by_label pod.meta.labels) pod index)

module _ {S : Type 0} (env : ComputeEnv S) where
  abbrev pub vm_key : String → ObjectKey
  vm_key name = record { namespace = env.namespace; name = name }

  abbrev pub managed : ListOptions
  managed = record {
    in_namespace = some env.namespace;
    matching_labels = (k8s_managed_by_label, kube_nfv_name) ∷ [];
  }

  unfoldable pub compute_from_vm : Object Kind.vm → Exec S VirtualCompute
  compute_from_vm vm = do
    vmi ← context "get kubevirt VirtualMachineInstance '%s' (uid: %s)" (
        call
          (env.client.get Kind.vmi (record { namespace = vm.meta.namespace; name = vm.meta.name })))
    launcher ← get_launcher_info env.client env.api env.namespace vmi
    context "convert kubevirt VM '%s' (uid: %s) to nfv VirtualCompute" (
        nfv_virtual_compute_from_kubevirt_vm env.network_manager env.errors env.api vm vmi launcher)

  abbrev pub found_vm : Identifier → Option (Object Kind.vm) → Exec S VirtualCompute
  found_vm uid none = raise (not_found "virtual machine" uid)
  found_vm uid (some vm) = compute_from_vm vm

  unfoldable pub get_compute_with : GetComputeOpts → Exec S VirtualCompute
  get_compute_with opts =
      if not (opts.name == "")
      then context "get kubevirt VirtualMachine '%s'"
          (call (env.client.get Kind.vm (vm_key opts.name)))
        >>= compute_from_vm
      else if not (text_or_empty opts.uid == "")
      then context "list kubevirt VirtualMachines" (call (env.client.list Kind.vm managed))
        >>= (λ vms.
            found_vm (text_or_empty opts.uid)
              (find (λ vm. vm.meta.uid == text_or_empty opts.uid) vms))
      else raise (invalid_argument "compute lookup" "either name or uid must be specified")

  unfoldable pub get_compute_resource : List GetComputeOpt → Exec S VirtualCompute
  get_compute_resource opts = get_compute_with (apply_get_compute_opts opts)

  -- One machine of the list, with its VMI and the pods by VMI. One without a VMI is left out.
  abbrev pub join_vmi :
      Object Kind.vm
      → (String → List (Object Kind.pod))
      → Option (Object Kind.vmi)
      → Exec S (List VirtualCompute)
  join_vmi vm pods_by_uid none = pure []
  join_vmi vm pods_by_uid (some vmi) =
      context "convert kubevirt VM '%s' (uid: %s) to nfv VirtualCompute" (
        nfv_virtual_compute_from_kubevirt_vm env.network_manager env.errors env.api vm vmi (
          launcher_info_from_pod env.api
            (select_launcher_pod (pods_by_uid vmi.meta.uid) vmi.spec.status.node_name)))
      >>= λ compute. pure (compute ∷ [])

  unfoldable pub join_vms :
      (String → Option (Object Kind.vmi))
      → (String → List (Object Kind.pod))
      → List (Object Kind.vm)
      → List VirtualCompute
      → Exec S (List VirtualCompute)
  join_vms vmi_by_name pods_by_uid [] res = pure res
  join_vms vmi_by_name pods_by_uid (vm ∷ vms) res =
      join_vmi vm pods_by_uid (vmi_by_name vm.meta.name) >>= λ shown.
      join_vms vmi_by_name pods_by_uid vms (res ++ shown)

  abbrev pub list_vms : Exec S (List (Object Kind.vm))
  list_vms = context "list kubevirt VirtualMachines" (call (env.client.list Kind.vm managed))

  abbrev pub list_vmis : Exec S (List (Object Kind.vmi))
  list_vmis =
      context "list kubevirt VirtualMachineInstances" (call (env.client.list Kind.vmi managed))

  abbrev pub list_pods : Exec S (List (Object Kind.pod))
  list_pods = context "list virt-launcher pods" (
      call (
        env.client.list Kind.pod
          (record { in_namespace = some env.namespace; matching_labels = [] })))

  unfoldable pub list_compute_resources : Exec S (List VirtualCompute)
  list_compute_resources = list_vms >>= λ vms. list_vmis >>= λ vmis. list_pods >>= λ pods.
      join_vms (λ name. Maps.lookup name (index_by_name vmis []))
        (λ uid. pods_at uid (index_pods env.api pods [])) vms []

  -- The secret may never have been there.
  unfoldable pub delete_secret : String → Exec S (Unit {0})
  delete_secret name =
      inspect (call (env.client.delete Kind.secret (vm_key name))) (λ done. pure tt)
        (λ e.
          if env.errors.is_not_found e
          then pure tt
          else raise (wrap "delete cloud-init secret '%s' for VM '%s'" e))

  unfoldable pub delete_compute_resource : List GetComputeOpt → Exec S (Unit {0})
  delete_compute_resource opts = do
    vm ← context "get virtual machine for deletion" (get_compute_resource opts)
    context "delete kubevirt VirtualMachine '%s' (id: %s)"
        (call (env.client.delete Kind.vm (vm_key vm.compute_name)))
    delete_secret (vm.compute_name <> kubevirt_vm_cloud_init_secret_suffix)
