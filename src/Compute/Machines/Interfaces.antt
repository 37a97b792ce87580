-- ===== src/Compute/Machines/Interfaces.antt =====
-- The interfaces that `nfvVirtualComputeFromKubevirtVm` of internal/kubevim/compute/kubevirt/utils.go
-- shows.
use mathlib.Core.Path.{subst}
use kube_vim.Common.{All, String, List, [], ◌∷◌, ◌++◌, ◌≡◌, refl, ap, ◌∙◌}
use kube_vim.Common.Maps.{lookup}
use kube_vim.Errors.{invalid_argument, ForeignErrors}
use kube_vim.Go.{ok, context, lift, required}
use kube_vim.Go.Yields.{Yields, Yields-pure, Yields-bind, Yields-then}
use kube_vim.K8s.Objects.{Kind, Object}
use kube_vim.K8s.Kubevirt.{VmNetwork}
use kube_vim.Network.Manager.{Manager}
use kube_vim.Flavour.Types.{k8s_flavour_id_label}
use kube_vim.Image.Types.{k8s_image_id_label}
use kube_vim.Compute.Ipam.Paired.{network_names}
use kube_vim.Compute.Types.{VirtualNetworkInterface, VirtualCompute, KubevirtApi}
use kube_vim.Compute.Machines.{
  LauncherInfo, get_interface_from_domain_spec, iface_binding_method_to_nfv, place_on_source,
  interface_of, get_interface_status, show_interface, show_interfaces,
  nfv_virtual_compute_from_kubevirt_vm,
}

abbrev pub interface_ids : List VirtualNetworkInterface → List String
interface_ids [] = []
interface_ids (x ∷ xs) = x.resource_id ∷ interface_ids xs

interface_ids-append :
    (xs : List VirtualNetworkInterface) (x : VirtualNetworkInterface)
    → interface_ids (xs ++ (x ∷ [])) ≡ interface_ids xs ++ (x.resource_id ∷ [])
interface_ids-append [] x = refl
interface_ids-append (y ∷ xs) x = ap (λ ids. y.resource_id ∷ ids) (interface_ids-append xs x)

append_one :
    (xs : List String) (x : String) (ys : List String) → (xs ++ (x ∷ [])) ++ ys ≡ xs ++ (x ∷ ys)
append_one [] x ys = refl
append_one (z ∷ xs) x ys = ap (λ l. z ∷ l) (append_one xs x ys)

append_nil : (xs : List String) → xs ≡ xs ++ []
append_nil [] = refl
append_nil (x ∷ xs) = ap (λ l. x ∷ l) (append_nil xs)

module _ {S : Type 0} (net_manager : Manager S) (errors : ForeignErrors) (api : KubevirtApi)
    (vm : Object Kind.vm) (vmi : Object Kind.vmi) (launcher : LauncherInfo) where
  -- The interface of a network has its name, and belongs to the machine.
  record Shows (net : VmNetwork) (x : VirtualNetworkInterface) : Type 0 where
    named : x.resource_id ≡ net.name
    owned : x.owner_id ≡ vm.meta.uid

  show_interface-Shows :
      (net : VmNetwork)
      → Yields (Shows net) (show_interface net_manager errors api vm vmi launcher net)
  unfolding show_interface
  show_interface-Shows net =
      Yields-bind
        (context "get interface from VMI '%s' (uid: %s)" (
          context "get interface '%s' from VMI spec"
            (lift (get_interface_from_domain_spec net.name vmi.spec.interfaces))))
        _
        λ iface_spec.
          Yields-bind
            (context "get virtual NIC type for VMI '%s' (uid: %s) interface '%s'"
              (lift (iface_binding_method_to_nfv iface_spec.binding)))
            _
            λ v_nic_type.
              Yields-bind (place_on_source net_manager errors api net.pod net.multus) _ λ placement.
                Yields-pure
                  (interface_of vm launcher net.name v_nic_type placement
                    (get_interface_status net.name vmi.spec.status.interfaces))
                  (record { named = refl; owned = refl })

  -- One interface for each network, in order, each with the machine as its owner.
  pub record ShowsAll (names : List String) (xs : List VirtualNetworkInterface) : Type 0 where
    pub ids : interface_ids xs ≡ names
    pub owned : All (λ x. x.owner_id ≡ vm.meta.uid) xs

  All-append :
      (xs : List VirtualNetworkInterface) (x : VirtualNetworkInterface)
      → All (λ y. y.owner_id ≡ vm.meta.uid) xs
      → x.owner_id ≡ vm.meta.uid
      → All (λ y. y.owner_id ≡ vm.meta.uid) (xs ++ (x ∷ []))
  All-append [] x all owned = (owned, tt)
  All-append (y ∷ xs) x (first, rest) owned = (first, All-append xs x rest owned)

  show_interfaces-ShowsAll :
      (nets : List VmNetwork) (names : List String) (xs : List VirtualNetworkInterface)
      → ShowsAll names xs
      → Yields
          (ShowsAll (names ++ network_names nets))
          (show_interfaces net_manager errors api vm vmi launcher nets xs)
  unfolding show_interfaces
  show_interfaces-ShowsAll [] names xs all =
      Yields-pure xs (record { ids = all.ids ∙ append_nil names; owned = all.owned })
  show_interfaces-ShowsAll (net ∷ nets) names xs all =
      Yields-then (show_interface net_manager errors api vm vmi launcher net) _
        (show_interface-Shows net)
        λ x shows.
          subst
            (λ all_names.
              Yields (ShowsAll all_names)
                (show_interfaces net_manager errors api vm vmi launcher nets (xs ++ (x ∷ []))))
            (append_one names net.name (network_names nets))
            (show_interfaces-ShowsAll nets (names ++ (net.name ∷ [])) (xs ++ (x ∷ [])) (record {
              ids =
                  interface_ids-append xs x
                  ∙ ap (λ ids. ids ++ (x.resource_id ∷ [])) all.ids
                  ∙ ap (λ name. names ++ (name ∷ [])) shows.named;
              owned = All-append xs x all.owned shows.owned;
            }))

  -- The machine is shown under its own name and uid, with an interface for each network of its VMI.
  pub record ShowsMachine (shown : VirtualCompute) : Type 0 where
    pub id : shown.compute_id ≡ vm.meta.uid
    pub name : shown.compute_name ≡ vm.meta.name
    pub interfaces : ShowsAll (network_names vmi.spec.networks) shown.virtual_network_interface

  shown-Yields :
      Yields ShowsMachine
        (nfv_virtual_compute_from_kubevirt_vm net_manager errors api vm vmi launcher)
  unfolding nfv_virtual_compute_from_kubevirt_vm
  shown-Yields =
      Yields-bind
        (context "get flavour from kubevirt VM '%s' (uid: %s)" (
          required
            (invalid_argument "kubevirt VirtualMachine spec" "missing kube-nfv flavour id label")
            (lookup k8s_flavour_id_label vm.meta.labels)))
        _
        λ flav_id.
          Yields-bind
            (context "get image id from kubevirt VM '%s' (uid: %s)" (
              required
                (invalid_argument "kubevirt VirtualMachine spec" "missing kube-nfv image id label")
                (lookup k8s_image_id_label vm.meta.labels)))
            _
            λ img_id.
              Yields-then
                (show_interfaces net_manager errors api vm vmi launcher vmi.spec.networks []) _
                (show_interfaces-ShowsAll vmi.spec.networks [] []
                  (record { ids = refl; owned = tt }))
                λ xs all. Yields-pure _ (record { id = refl; name = refl; interfaces = all })

  -- A machine that is shown has the name and the uid of its object, and one interface for each
  -- network of its VMI, in order and with the network's name, each owned by the machine.
  pub nfv_virtual_compute-ShowsMachine :
      (s : S) (shown : VirtualCompute)
      → (nfv_virtual_compute_from_kubevirt_vm net_manager errors api vm vmi launcher s).0 ≡ ok shown
      → ShowsMachine shown
  nfv_virtual_compute-ShowsMachine = shown-Yields.at
