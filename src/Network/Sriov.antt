-- ===== src/Network/Sriov.antt =====
-- internal/kubevim/network/sriov: networks that are NetworkAttachmentDefinitions.
pub mod ReadBack
use text.Mathlib.Text.{find?}
use kube_vim.Common.{
  String, ℕ, Bool, true, false, Option, none, some, List, [], ◌∷◌, Map, ◌==◌, ◌<>◌, not, find,
  is_some, num_eq, if◌then◌else◌, text_or_empty,
}
use kube_vim.Common.Maps
use kube_vim.Errors.{Error, invalid_argument, unsupported, wrap, not_found, object_not_managed}
use kube_vim.Go.{
  Exec, Result, ok, err, panic, pure, raise, lift, call, context, inspect, ◌>>=◌, ◌>>◌,
}
use kube_vim.K8s.Objects.{
  Kind, Object, new_meta, k8s_managed_by_label, kube_nfv_name, is_object_managed_by_kube_nfv,
}
use kube_vim.K8s.Client.{ObjectKey, ListOptions}
use kube_vim.Network.Types.{
  Env, NetworkType, sriov, same_type, VirtualNetworkData, VirtualNetwork, NetworkSubnetData,
  NetworkSubnet, GetNetworkOpt, GetNetworkOpts, apply_get_network_opts, GetSubnetOpt,
  k8s_network_type_label, k8s_network_name_label, k8s_network_net_attach_name_label,
}
use kube_vim.Network.Manager.{Manager}
use kube_vim.Network.Kubeovn.Mgmt.{ManagementNetworkConfig}

abbrev pub nad_resource_name_annotation : String
nad_resource_name_annotation = "k8s.v1.cni.cncf.io/resourceName"

pub record OvsCniConfig : Type 0 where
  pub cni_version : String
  pub name : String
  pub type : String
  pub vlan : Option ℕ
  pub socket_file : String

-- encoding/json on this record; `none` is an error.
pub record Json : Type 0 where
  pub marshal : OvsCniConfig → Option String
  pub unmarshal : String → Option OvsCniConfig

-- The id 0 is no VLAN. The conversion to int keeps the 64 bits.
unfoldable pub ovs_cni_config : String → ℕ → String → OvsCniConfig
ovs_cni_config name vlan socket_file = record {
  cni_version = "0.3.1";
  name = name;
  type = "ovs";
  vlan = if num_eq vlan 0 then none else some vlan;
  socket_file = socket_file;
}

unfoldable pub format_ovs_cni_config : Json → String → ℕ → String → Result String
unfolding ovs_cni_config
format_ovs_cni_config json name vlan socket_file =
    elim (json.marshal (ovs_cni_config name vlan socket_file)) [
      | none ↦ err (wrap "marshal ovs cni config" (Error.foreign "json"))
      | some text ↦ ok text
    ]

-- A config that does not parse, or that names no VLAN, is VLAN 0.
unfoldable pub stored_vlan : Json → String → ℕ
stored_vlan json config = elim (json.unmarshal config) [
  | none ↦ 0
  | some cfg ↦ elim cfg.vlan [ none ↦ 0 | some vlan ↦ vlan ]
]

unfoldable pub nad_to_nfv_network : Json → Object Kind.net_attach → Result VirtualNetwork
unfolding stored_vlan
nad_to_nfv_network json nad =
    if nad.meta.uid == ""
    then err (invalid_argument "nad UID" "cannot be empty")
    else if not (is_object_managed_by_kube_nfv nad.meta)
    then err (object_not_managed "NetworkAttachmentDefinition" nad.meta.name nad.meta.uid)
    else ok (record {
      network_resource_id = some nad.meta.uid;
      network_resource_name = some nad.meta.name;
      subnet_id = [];
      network_type = sriov;
      provider_network = some (Maps.at nad_resource_name_annotation nad.meta.annotations);
      segmentation_id = some (stored_vlan json nad.spec.config);
      metadata = some ((k8s_network_net_attach_name_label, nad.meta.name) ∷ []);
    })

-- `if !strings.Contains(resourceName, "/") { resourceName = "openshift.io/" + resourceName }`
unfoldable pub device_resource_name : String → String
device_resource_name name = if is_some (find? name "/") then name else "openshift.io/" <> name

abbrev pub or_zero : Option ℕ → ℕ
or_zero none = 0
or_zero (some n) = n

-- `GetNetworkType() == SRIOV`: an unset type is the enumeration's zero.
abbrev pub is_sriov_type : Option NetworkType → Bool
is_sriov_type none = false
is_sriov_type (some t) = same_type t sriov

-- The three checks of `CreateNetwork`, and the provider network that they leave.
unfoldable pub check_sriov_data : VirtualNetworkData → Result String
check_sriov_data network_data =
    if not (is_sriov_type network_data.network_type)
    then err (wrap "create sriov network '%s': unexpected network type '%s'" unsupported)
    else if text_or_empty network_data.provider_network == ""
    then err (
        invalid_argument "providerNetwork"
          "required for SR-IOV networks (device plugin resource name)")
    else elim network_data.layer3_attributes [
      | [] ↦ ok (text_or_empty network_data.provider_network)
      | l3attr ∷ rest ↦
          err (invalid_argument "layer3Attributes" "SR-IOV networks do not support subnets")
    ]

abbrev no_subnets : Error
no_subnets = wrap "SR-IOV networks do not support subnets" unsupported

module _ {S : Type 0} (env : Env S) (json : Json) (socket_file : String) where
  abbrev pub sriov_name : String
  sriov_name = env.lib.network_type_string sriov

  abbrev pub sriov_nad : String → String → String → Object Kind.net_attach
  sriov_nad name resource_name cni_config = record {
    meta =
        new_meta env.namespace name
          ((k8s_managed_by_label, kube_nfv_name)
            ∷ (k8s_network_type_label, sriov_name)
            ∷ (k8s_network_name_label, name)
            ∷ [])
          ((nad_resource_name_annotation, resource_name) ∷ []);
    spec = record { config = cni_config };
  }

  -- `networkData` may be nil: `GetNetworkType()` of it is the enumeration's zero.
  unfoldable pub create_network : String → Option VirtualNetworkData → Exec S VirtualNetwork
  create_network name none =
      raise (wrap "create sriov network '%s': unexpected network type '%s'" unsupported)
  create_network name (some network_data) = do
    provider ← lift (check_sriov_data network_data)
    cni_config ←
        context "build ovs-cni config for network '%s'" (
          lift (format_ovs_cni_config json name (or_zero network_data.segmentation_id) socket_file))
    nad ← context "create SR-IOV NetworkAttachmentDefinition '%s'" (
        call (
          env.client.create Kind.net_attach
            (sriov_nad name (device_resource_name provider) cni_config)))
    lift (nad_to_nfv_network json nad)

  abbrev pub sriov_selector : ListOptions
  sriov_selector = record {
    in_namespace = some env.namespace;
    matching_labels =
        (k8s_managed_by_label, kube_nfv_name) ∷ (k8s_network_type_label, sriov_name) ∷ [];
  }

  abbrev pub nad_key : String → ObjectKey
  nad_key name = record { namespace = env.namespace; name = name }

  unfoldable pub show_sriov : Object Kind.net_attach → Exec S VirtualNetwork
  show_sriov nad =
      if Maps.at k8s_network_type_label nad.meta.labels == sriov_name
      then lift (nad_to_nfv_network json nad)
      else raise (not_found "SR-IOV network '%s'" "")

  unfoldable pub get_network_by_name : String → Exec S VirtualNetwork
  get_network_by_name name =
      inspect (call (env.client.get Kind.net_attach (nad_key name))) show_sriov λ e.
        if env.lib.errors.is_not_found e
        then raise (not_found "SR-IOV network '%s'" "")
        else raise (wrap "get SR-IOV NetworkAttachmentDefinition '%s'" e)

  abbrev pub shown_or_not_found : Option (Object Kind.net_attach) → Exec S VirtualNetwork
  shown_or_not_found none = raise (not_found "SR-IOV network with id '%s'" "")
  shown_or_not_found (some nad) = lift (nad_to_nfv_network json nad)

  unfoldable pub get_network_by_uid : String → Exec S VirtualNetwork
  get_network_by_uid uid = do
    nads ←
        context "list SR-IOV NetworkAttachmentDefinitions"
          (call (env.client.list Kind.net_attach sriov_selector))
    shown_or_not_found (find (λ nad. nad.meta.uid == uid) nads)

  unfoldable pub get_network_with : GetNetworkOpts → Exec S VirtualNetwork
  get_network_with cfg =
      if not (cfg.name == "")
      then get_network_by_name cfg.name
      else if not (text_or_empty cfg.uid == "")
      then get_network_by_uid (text_or_empty cfg.uid)
      else raise (invalid_argument "GetNetworkOpt" "name or uid required")

  unfoldable pub get_network : List GetNetworkOpt → Exec S VirtualNetwork
  get_network opts = get_network_with (apply_get_network_opts opts)

  -- A definition that cannot be shown is skipped.
  unfoldable pub shown_networks : List (Object Kind.net_attach) → List VirtualNetwork
  shown_networks [] = []
  shown_networks (nad ∷ rest) =
      let others = shown_networks rest in
      elim (nad_to_nfv_network json nad) [ ok net ↦ net ∷ others | err e ↦ others | panic ↦ others ]

  unfoldable pub list_networks : Exec S (List VirtualNetwork)
  list_networks = do
    nads ←
        context "list SR-IOV NetworkAttachmentDefinitions"
          (call (env.client.list Kind.net_attach sriov_selector))
    pure (shown_networks nads)

  abbrev pub delete_by_name : Option String → Exec S (Unit {0})
  delete_by_name none = raise (invalid_argument "networkResourceName" "cannot be nil")
  delete_by_name (some name) =
      context "delete SR-IOV NetworkAttachmentDefinition '%s'"
        (call (env.client.delete Kind.net_attach (nad_key name)))

  unfoldable pub delete_network : List GetNetworkOpt → Exec S (Unit {0})
  delete_network opts = do
    net ← context "get SR-IOV network" (get_network opts)
    delete_by_name net.network_resource_name

  -- SR-IOV networks have no subnets, and there is no management network of theirs.
  abbrev pub sriov_manager : Manager S
  sriov_manager = record {
    create_network = create_network;
    get_network = get_network;
    list_networks = list_networks;
    delete_network = delete_network;
    create_subnet = λ name data'. raise no_subnets;
    get_subnet = λ opts. raise no_subnets;
    list_subnets = raise no_subnets;
    delete_subnet = λ opts. raise no_subnets;
    ensure_management_network = λ cfg. pure tt;
  }
