-- ===== src/Compute/Machines.antt =====
-- internal/kubevim/compute/kubevirt/utils.go: a KubeVirt machine as the API shows it.
pub mod State
pub mod Interfaces
use kube_vim.Common.{
  String, ℕ, Bool, true, false, Option, none, some, List, [], ◌∷◌, ◌++◌, Map, ◌==◌, ◌&&◌, ◌||◌, not,
  find, if◌then◌else◌, text_or_empty,
}
use kube_vim.Common.Maps
use kube_vim.Errors.{
  Error, ForeignErrors, invalid_argument, not_found, unsupported, wrap, is_missing,
}
use kube_vim.Go.{Exec, Result, ok, err, pure, raise, context, lift, required, inspect, ◌>>=◌}
use kube_vim.K8s.Objects.{Kind, Object}
use kube_vim.K8s.Kubevirt.{
  MultusNetwork, VmNetwork, BindingMethod, VmInterface, VmStatus, VmiStatus, InterfaceStatus,
}
use kube_vim.Network.Types.{
  Identifier, VirtualNetwork, NetworkSubnet, GetNetworkOpt, GetSubnetOpt, sriov, same_type,
}
use kube_vim.Network.Manager.{Manager}
use kube_vim.Flavour.Types.{k8s_flavour_id_label}
use kube_vim.Compute.Types.{
  RunningState, NicType, VirtualNetworkInterface, VirtualCompute, KubevirtApi,
  compute_pod_name_metadata_key, vnic_host_pci_address_metadata_key,
}
use kube_vim.Image.Types.{k8s_image_id_label}

abbrev pub kubevirt_vm_status_created : String
kubevirt_vm_status_created = "status.vm.kubevirt.io/created"

abbrev pub kubevirt_vm_status_ready : String
kubevirt_vm_status_ready = "status.vm.kubevirt.io/ready"

abbrev pub kubevirt_vm_printable_status : String
kubevirt_vm_printable_status = "status.vm.kubevirt.io/printable-status"

abbrev pub kubevirt_vm_run_strategy : String
kubevirt_vm_run_strategy = "status.vm.kubevirt.io/run-strategy"

abbrev pub kubevirt_vmi_status_phase : String
kubevirt_vmi_status_phase = "status.vmi.kubevirt.io/phase"

abbrev pub kubevirt_vmi_status_reason : String
kubevirt_vmi_status_reason = "status.vmi.kubevirt.io/reason"

abbrev pub kubevirt_vm_network_management : String
kubevirt_vm_network_management = "network.vm.kubevirt.io/management"

abbrev pub kubevirt_interface_ready : String
kubevirt_interface_ready = "interface.vm.kubevirt.io/ready"

-- What is known of the pod of a machine: its name, and the PCI addresses by interface.
pub record LauncherInfo : Type 0 where
  pub pod_name : String
  pub host_pci_by_vnic : Map String

-- strconv.FormatBool
abbrev pub format_bool : Bool → String
format_bool true = "true"
format_bool false = "false"

abbrev pub has_condition : String → List String → Bool
has_condition type [] = false
has_condition type (t ∷ types) = (t == type) || has_condition type types

abbrev pub is_starting : KubevirtApi → String → Bool
is_starting api phase =
    (phase == api.phase_pending)
    || ((phase == api.phase_scheduling)
        || ((phase == api.phase_scheduled) || (phase == api.phase_running)))

unfoldable pub get_running_state : KubevirtApi → VmStatus → VmiStatus → RunningState
get_running_state api vm vmi =
    if vm.run_strategy == api.run_strategy_halted
    then RunningState.stopped
    else if has_condition api.vmi_paused vmi.condition_types
    then RunningState.paused
    else if vm.printable_status == api.status_terminating
    then RunningState.terminating
    else if vm.created && (vm.ready && (vmi.phase == api.phase_running))
    then RunningState.running
    else if is_starting api vmi.phase
    then RunningState.starting
    else if vmi.phase == api.phase_failed
    then RunningState.failed
    else RunningState.unknown

unfoldable pub get_interface_from_domain_spec : String → List VmInterface → Result VmInterface
get_interface_from_domain_spec iface_name interfaces =
    elim (find (λ iface. iface.name == iface_name) interfaces) [
      | none ↦ err (not_found "interface" iface_name)
      | some iface ↦ ok iface
    ]

abbrev pub get_interface_status : String → List InterfaceStatus → Option InterfaceStatus
get_interface_status iface_name interfaces = find (λ iface. iface.name == iface_name) interfaces

unfoldable pub iface_binding_method_to_nfv : BindingMethod → Result NicType
iface_binding_method_to_nfv method =
    if method.bridge
    then ok NicType.bridge
    else if method.masquerade
    then ok NicType.bridge
    else if method.sriov
    then ok NicType.sriov
    else err (wrap "unknown interface binding method" unsupported)

-- The network and the subnet of an interface, and whether it is one for management.
pub record Placement : Type 0 where
  pub network_id : Option Identifier
  pub subnet_id : Option Identifier
  pub management : String

-- The addresses of an interface that KubeVirt reports, or a placeholder.
abbrev pub shown_ips : Option InterfaceStatus → List String
shown_ips none = []
shown_ips (some status) = status.ips

abbrev pub shown_mac : Option InterfaceStatus → String
shown_mac none = "initializing"
shown_mac (some status) = status.mac

abbrev pub shown_ready : Option InterfaceStatus → String
shown_ready none = "false"
shown_ready (some status) = "true"

abbrev pub insert_unless_empty : String → String → Map String → Map String
insert_unless_empty key value fields = if value == "" then fields else Maps.insert key value fields

abbrev pub interface_metadata : String → Option InterfaceStatus → String → Map String
interface_metadata management status pci =
    insert_unless_empty vnic_host_pci_address_metadata_key pci (
      (kubevirt_vm_network_management, management)
      ∷ (kubevirt_interface_ready, shown_ready status)
      ∷ [])

abbrev pub machine_metadata : VmStatus → VmiStatus → LauncherInfo → Map String
machine_metadata vm vmi launcher =
    insert_unless_empty compute_pod_name_metadata_key launcher.pod_name (
      insert_unless_empty kubevirt_vmi_status_reason vmi.reason (
        (kubevirt_vm_status_created, format_bool vm.created)
        ∷ (kubevirt_vm_status_ready, format_bool vm.ready)
        ∷ (kubevirt_vm_printable_status, vm.printable_status)
        ∷ (kubevirt_vm_run_strategy, vm.run_strategy)
        ∷ (kubevirt_vmi_status_phase, vmi.phase)
        ∷ []))

abbrev pub interface_of :
    Object Kind.vm
    → LauncherInfo
    → String
    → NicType
    → Placement
    → Option InterfaceStatus
    → VirtualNetworkInterface
interface_of vm launcher name v_nic_type placement status = record {
  resource_id = name;
  owner_id = vm.meta.uid;
  network_id = placement.network_id;
  subnet_id = placement.subnet_id;
  type_virtual_nic = v_nic_type;
  ip_address = shown_ips status;
  mac_address = shown_mac status;
  metadata =
      interface_metadata placement.management status (Maps.at name launcher.host_pci_by_vnic);
}

module _ {S : Type 0} (net_manager : Manager S) (errors : ForeignErrors) (api : KubevirtApi) where
  -- A subnet that is missing may be on its way out with the machine: it gets a placeholder.
  unfoldable pub place_on_subnet : String → String → Exec S Placement
  place_on_subnet net_attach_name management =
      inspect (net_manager.get_subnet (GetSubnetOpt.by_net_attach_name net_attach_name ∷ []))
        (λ subnet. pure (record {
          network_id = subnet.network_id;
          subnet_id = some subnet.resource_id;
          management = management;
        }))
        (λ e.
          if is_missing errors e
          then pure (record {
            network_id = some "deleted";
            subnet_id = some "deleted";
            management = management;
          })
          else raise (wrap "get subnet from VM network '%s' network attachment definition '%s'" e))

  -- An SR-IOV network stands for itself.
  unfoldable pub place_on_multus : String → String → Exec S Placement
  place_on_multus net_attach_name management =
      inspect (net_manager.get_network (GetNetworkOpt.by_name net_attach_name ∷ []))
        (λ net.
          if same_type net.network_type sriov
          then pure (record {
            network_id = net.network_resource_id;
            subnet_id = none;
            management = management;
          })
          else place_on_subnet net_attach_name management)
        (λ e. place_on_subnet net_attach_name management)

  abbrev pub place_on_source : Bool → Option MultusNetwork → Exec S Placement
  place_on_source true multus =
      pure (record { network_id = none; subnet_id = none; management = "true" })
  place_on_source false none =
      raise (invalid_argument "network '%s'" "must be either multus or pod type")
  place_on_source false (some multus) =
      place_on_multus multus.network_name (format_bool multus.is_default)

  unfoldable pub show_interface :
      Object Kind.vm → Object Kind.vmi → LauncherInfo → VmNetwork → Exec S VirtualNetworkInterface
  show_interface vm vmi launcher net_spec = do
    iface_spec ← context "get interface from VMI '%s' (uid: %s)" (
        context "get interface '%s' from VMI spec"
          (lift (get_interface_from_domain_spec net_spec.name vmi.spec.interfaces)))
    v_nic_type ←
        context "get virtual NIC type for VMI '%s' (uid: %s) interface '%s'"
          (lift (iface_binding_method_to_nfv iface_spec.binding))
    placement ← place_on_source net_spec.pod net_spec.multus
    pure (
        interface_of vm launcher net_spec.name v_nic_type placement
          (get_interface_status net_spec.name vmi.spec.status.interfaces))

  unfoldable pub show_interfaces :
      Object Kind.vm
      → Object Kind.vmi
      → LauncherInfo
      → List VmNetwork
      → List VirtualNetworkInterface
      → Exec S (List VirtualNetworkInterface)
  show_interfaces vm vmi launcher [] shown = pure shown
  show_interfaces vm vmi launcher (net_spec ∷ rest) shown =
      show_interface vm vmi launcher net_spec >>= λ iface.
      show_interfaces vm vmi launcher rest (shown ++ (iface ∷ []))

  -- nfvVirtualComputeFromKubevirtVm
  unfoldable pub nfv_virtual_compute_from_kubevirt_vm :
      Object Kind.vm → Object Kind.vmi → LauncherInfo → Exec S VirtualCompute
  nfv_virtual_compute_from_kubevirt_vm vm vmi launcher = do
    flav_id ← context "get flavour from kubevirt VM '%s' (uid: %s)" (
        required
          (invalid_argument "kubevirt VirtualMachine spec" "missing kube-nfv flavour id label")
          (Maps.lookup k8s_flavour_id_label vm.meta.labels))
    img_id ← context "get image id from kubevirt VM '%s' (uid: %s)" (
        required (invalid_argument "kubevirt VirtualMachine spec" "missing kube-nfv image id label")
          (Maps.lookup k8s_image_id_label vm.meta.labels))
    net_ifaces ← show_interfaces vm vmi launcher vmi.spec.networks []
    pure (record {
      compute_id = vm.meta.uid;
      compute_name = vm.meta.name;
      flavour_id = flav_id;
      vc_image_id = img_id;
      virtual_network_interface = net_ifaces;
      host_id = vmi.spec.status.node_name;
      is_enabled = not (vm.spec.status.run_strategy == api.run_strategy_halted);
      running_state = get_running_state api vm.spec.status vmi.spec.status;
      metadata = machine_metadata vm.spec.status vmi.spec.status launcher;
    })
