-- ===== src/Network/Kubeovn/Subnets.antt =====
-- internal/kubevim/network/kubeovn/manager.go: GetSubnet, ListSubnets and DeleteSubnet.
pub mod Delete
use kube_vim.Common.{
  String, Bool, Option, none, some, List, [], ◌∷◌, ◌==◌, ◌&&◌, not, find, if◌then◌else◌,
  text_or_empty,
}
use kube_vim.Common.Maps
use kube_vim.Errors.{invalid_argument, object_not_managed, wrap, not_found}
use kube_vim.Go.{Exec, Result, ok, err, panic, raise, lift, call, context, ◌>>=◌, ◌>>◌}
use kube_vim.K8s.Objects.{Kind, Object, is_object_managed_by_kube_nfv}
use kube_vim.K8s.Client.{ObjectKey, ListOptions}
use kube_vim.Network.Types.{
  Env, Identifier, GetSubnetOpt, GetSubnetOpts, apply_get_subnet_opts, NetworkSubnet, Libraries,
  ip_belongs_to_cidr, k8s_subnet_name_label, k8s_subnet_net_attach_name_label,
}
use kube_vim.Network.Kubeovn.Convert.{managed_labels, nfv_network_subnet_from_kubeovn_subnet}

-- The conversion loop of `ListSubnets`: the first failure ends it.
unfoldable pub convert_subnets : List (Object Kind.subnet) → Result (List NetworkSubnet)
unfolding nfv_network_subnet_from_kubeovn_subnet
convert_subnets [] = ok []
convert_subnets (sub ∷ rest) =
    let others = convert_subnets rest in
    elim (nfv_network_subnet_from_kubeovn_subnet sub) [
      | err e ↦ err (wrap "convert kubeovn subnet '%s' (id: %s) to vivnfm.NetworkSubnet" e)
      | panic ↦ panic
      | ok nfv ↦ elim others [ ok nfvs ↦ ok (nfv ∷ nfvs) | err e ↦ err e | panic ↦ panic ]
    ]

-- The search of `GetSubnet` by network and address. A subnet with no network id is a nil pointer
-- that the loop dereferences.
unfoldable pub search_network_ip :
    Libraries → Identifier → Option String → List NetworkSubnet → Result NetworkSubnet
search_network_ip lib net_id ip [] = err (not_found "subnet" "")
search_network_ip lib net_id ip (sub ∷ rest) =
    let later = search_network_ip lib net_id ip rest in
    elim sub.network_id [
      | none ↦ panic
      | some id ↦ if id == net_id && ip_belongs_to_cidr lib ip sub.cidr then ok sub else later
    ]

abbrev pub is_uid : String → Object Kind.subnet → Bool
is_uid uid sub = sub.meta.uid == uid

abbrev pub managed_everywhere : ListOptions
managed_everywhere = record { in_namespace = none; matching_labels = managed_labels }

abbrev pub cluster_key : String → ObjectKey
cluster_key name = record { namespace = ""; name = name }

module _ {S : Type 0} (env : Env S) where
  abbrev pub nad_key : String → ObjectKey
  nad_key name = record { namespace = env.namespace; name = name }

  unfoldable pub get_subnet_by_name : String → Exec S NetworkSubnet
  get_subnet_by_name name = do
    subnet ←
        context "get kubeovn subnet '%s'" (call (env.client.get Kind.subnet (cluster_key name)))
    context "convert kubeovn subnet '%s' (id: %s) to nfv NetworkSubnet"
        (lift (nfv_network_subnet_from_kubeovn_subnet subnet))

  abbrev pub subnet_or_not_found : String → Option (Object Kind.subnet) → Exec S NetworkSubnet
  subnet_or_not_found uid none = raise (not_found "kubeovn subnet" uid)
  subnet_or_not_found uid (some subnet) =
      context "convert kubeovn subnet '%s' (id: %s) to nfv NetworkSubnet"
        (lift (nfv_network_subnet_from_kubeovn_subnet subnet))

  unfoldable pub get_subnet_by_uid : Identifier → Exec S NetworkSubnet
  get_subnet_by_uid uid = do
    subnets ← context "list kubeovn subnets" (call (env.client.list Kind.subnet managed_everywhere))
    subnet_or_not_found uid (find (is_uid uid) subnets)

  abbrev pub by_name_label : Option String → Exec S NetworkSubnet
  by_name_label none =
      raise (invalid_argument "NetworkAttachmentDefinition '%s'" "missing '%s' label")
  by_name_label (some subnet_name) =
      if subnet_name == ""
      then raise (
          invalid_argument "subnet identifier"
            "name, uid, net attach name or network and ip must be specified")
      else get_subnet_by_name subnet_name

  unfoldable pub get_subnet_by_net_attach : String → Exec S NetworkSubnet
  unfolding get_subnet_by_name
  get_subnet_by_net_attach name = do
    nad ←
        context "get network attachment definition '%s'"
          (call (env.client.get Kind.net_attach (nad_key name)))
    if is_object_managed_by_kube_nfv nad.meta
        then by_name_label (Maps.lookup k8s_subnet_name_label nad.meta.labels)
        else raise (object_not_managed "NetworkAttachmentDefinition" name nad.meta.uid)

  unfoldable pub list_subnets : Exec S (List NetworkSubnet)
  list_subnets = do
    subnets ← context "list kubeovn subnets" (call (env.client.list Kind.subnet managed_everywhere))
    lift (convert_subnets subnets)

  unfoldable pub get_subnet_by_network_ip : Identifier → String → Exec S NetworkSubnet
  unfolding list_subnets
  get_subnet_by_network_ip net_id ip = do
    subnets ← context "list subnets" list_subnets
    lift (search_network_ip env.lib net_id (some ip) subnets)

  abbrev pub get_subnet_by_address : Option Identifier → Option String → Exec S NetworkSubnet
  get_subnet_by_address (some net_id) (some ip) = get_subnet_by_network_ip net_id ip
  get_subnet_by_address _ _ = raise (
      invalid_argument "subnet identifier"
        "name, uid, net attach name or network and ip must be specified")

  -- The options in the order in which `GetSubnet` looks at them.
  unfoldable pub get_subnet_with : GetSubnetOpts → Exec S NetworkSubnet
  get_subnet_with cfg =
      if not (cfg.name == "")
      then get_subnet_by_name cfg.name
      else if not (text_or_empty cfg.uid == "")
      then get_subnet_by_uid (text_or_empty cfg.uid)
      else if not (cfg.net_attach_name == "")
      then get_subnet_by_net_attach cfg.net_attach_name
      else get_subnet_by_address cfg.net_id cfg.ip_address

  unfoldable pub get_subnet : List GetSubnetOpt → Exec S NetworkSubnet
  unfolding get_subnet_with
  get_subnet opts = get_subnet_with (apply_get_subnet_opts opts)

  -- The subnet and its attachment definition go by the names that the subnet's labels hold.
  unfoldable pub delete_subnet : List GetSubnetOpt → Exec S (Unit {0})
  delete_subnet opts = do
    subnet ← context "get subnet" (get_subnet opts)
    context "delete kubeovn subnet '%s' (id: %s)" (
        call (
          env.client.delete Kind.subnet
            (cluster_key (Maps.at k8s_subnet_name_label subnet.metadata))))
    context "delete multus NetworkAttachmentDefinition '%s' for subnet '%s'" (
        call (
          env.client.delete Kind.net_attach
            (nad_key (Maps.at k8s_subnet_net_attach_name_label subnet.metadata))))
