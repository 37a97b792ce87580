-- ===== src/Compute/Launcher.antt =====
-- The virt-launcher pod of a machine, in internal/kubevim/compute/kubevirt/manager.go.
use kube_vim.Common.{String, Option, none, some, List, [], ◌∷◌, Map, ◌==◌, find, if◌then◌else◌}
use kube_vim.Common.Maps
use kube_vim.Go.{Exec, Reply, answer, refuse, pure, call, inspect}
use kube_vim.K8s.Objects.{Kind, Object}
use kube_vim.K8s.Client.{Client}
use kube_vim.Compute.Types.{KubevirtApi}
use kube_vim.Compute.Machines.{LauncherInfo}

abbrev pub kubevirt_network_info_annotation : String
kubevirt_network_info_annotation = "kubevirt.io/network-info"

abbrev pub no_launcher : LauncherInfo
no_launcher = record { pod_name = ""; host_pci_by_vnic = [] }

-- The pod on the node, else the first one.
unfoldable pub select_launcher_pod : List (Object Kind.pod) → String → Option (Object Kind.pod)
select_launcher_pod [] node_name = none
select_launcher_pod (pod ∷ pods) node_name =
    elim (find (λ p. p.spec.node_name == node_name) (pod ∷ pods)) [
      | none ↦ some pod
      | some p ↦ some p
    ]

abbrev pub add_pci : String → Option String → Map String → Map String
add_pci network none found = found
add_pci network (some pci) found = if pci == "" then found else Maps.insert network pci found

unfoldable pub pci_by_vnic : List (String × Option String) → Map String → Map String
pci_by_vnic [] found = found
pci_by_vnic ((network, pci) ∷ interfaces) found = pci_by_vnic interfaces (add_pci network pci found)

abbrev pub parsed_pci : Reply (List (String × Option String)) → Map String
parsed_pci (refuse e) = []
parsed_pci (answer interfaces) = pci_by_vnic interfaces []

abbrev pub annotated_pci : KubevirtApi → Option String → Map String
annotated_pci api none = []
annotated_pci api (some info_json) = parsed_pci (api.parse_network_info info_json)

unfoldable pub launcher_info_from_pod : KubevirtApi → Option (Object Kind.pod) → LauncherInfo
launcher_info_from_pod api none = no_launcher
launcher_info_from_pod api (some pod) = record {
  pod_name = pod.meta.name;
  host_pci_by_vnic =
      annotated_pci api (Maps.lookup kubevirt_network_info_annotation pod.meta.annotations);
}

-- Best effort: an error of the list is no error of the caller.
unfoldable pub get_launcher_info :
    {S : Type 0} → Client S → KubevirtApi → String → Object Kind.vmi → Exec S LauncherInfo
get_launcher_info client api namespace vmi =
    if vmi.meta.uid == ""
    then pure no_launcher
    else inspect
        (call (
          client.list Kind.pod (record {
            in_namespace = some namespace;
            matching_labels = (api.created_by_label, vmi.meta.uid) ∷ [];
          })))
        (λ pods.
          pure (launcher_info_from_pod api (select_launcher_pod pods vmi.spec.status.node_name)))
        (λ e. pure no_launcher)
