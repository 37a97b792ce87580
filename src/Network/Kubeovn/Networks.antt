-- ===== src/Network/Kubeovn/Networks.antt =====
-- internal/kubevim/network/kubeovn/manager.go: GetNetwork, ListNetworks and DeleteNetwork.
use kube_vim.Common.{
  String, Option, none, some, List, [], ◌∷◌, ◌++◌, Map, ◌==◌, not, find, if◌then◌else◌,
  text_or_empty,
}
use kube_vim.Common.Maps
use kube_vim.Errors.{invalid_argument, unsupported, wrap, not_found, is_missing}
use kube_vim.Go.{Exec, pure, raise, lift, deref, call, context, inspect, ◌>>=◌, ◌>>◌}
use kube_vim.K8s.Objects.{Kind, Object}
use kube_vim.Network.Types.{
  Env, Identifier, NetworkType, overlay, underlay, sriov, VirtualNetwork, GetNetworkOpt,
  GetNetworkOpts, apply_get_network_opts,
}
use kube_vim.Network.Types.{GetSubnetOpt}
use kube_vim.Network.Kubeovn.Convert.{kubeovn_vpc_to_nfv_network, kubeovn_vlan_to_nfv_network}
use kube_vim.Network.Kubeovn.Subnets.{managed_everywhere, cluster_key, get_subnet, delete_subnet}

module _ {S : Type 0} (env : Env S) where
  -- The object of the kind that the name or the uid names; the name is looked at first.
  abbrev pub object_or_not_found :
      (k : Kind) → String → String → Option (Object k) → Exec S (Object k)
  object_or_not_found k what uid none = raise (not_found what uid)
  object_or_not_found k what uid (some o) = pure o

  unfoldable pub find_network_object : (k : Kind) → String → GetNetworkOpts → Exec S (Object k)
  find_network_object k what cfg =
      if not (cfg.name == "")
      then context "get kubeovn object '%s'" (call (env.client.get k (cluster_key cfg.name)))
      else if not (text_or_empty cfg.uid == "")
      then (do
        items ←
            context "list kubeovn objects for id '%s'" (call (env.client.list k managed_everywhere))
        object_or_not_found k what (text_or_empty cfg.uid)
            (find (λ o. o.meta.uid == text_or_empty cfg.uid) items))
      else raise (invalid_argument "network identifier" "either name or uid must be specified")

  -- The loop over `Status.Subnets`.
  unfoldable pub status_subnet_ids : List String → Exec S (List Identifier)
  status_subnet_ids [] = pure []
  status_subnet_ids (subnet_name ∷ rest) =
      let others = status_subnet_ids rest in
      do
        subnet ←
            context "get subnet '%s' referenced by '%s' (id: %s)"
              (get_subnet env (GetSubnetOpt.by_name subnet_name ∷ []))
        ids ← others
        pure (subnet.resource_id ∷ ids)

  unfoldable pub get_overlay_network : List GetNetworkOpt → Exec S VirtualNetwork
  get_overlay_network opts = do
    vpc ← find_network_object Kind.vpc "kubeovn vpc" (apply_get_network_opts opts)
    subnet_ids ← status_subnet_ids vpc.spec.status_subnets
    context "convert kubeovn vpc '%s' (id: %s) to nfv VirtualNetwork"
        (lift (kubeovn_vpc_to_nfv_network vpc subnet_ids))

  unfoldable pub get_underlay_network : List GetNetworkOpt → Exec S VirtualNetwork
  get_underlay_network opts = do
    vlan ← find_network_object Kind.vlan "kubeovn vlan" (apply_get_network_opts opts)
    subnet_ids ← status_subnet_ids vlan.spec.status_subnets
    context "convert kubeovn vlan '%s' (id: %s) to nfv VirtualNetwork"
        (lift (kubeovn_vlan_to_nfv_network vlan subnet_ids))

  -- The overlay networks first; the next source is asked only where the object is missing.
  unfoldable pub get_network : List GetNetworkOpt → Exec S VirtualNetwork
  get_network opts = inspect (get_overlay_network opts) pure λ e.
      if is_missing env.lib.errors e
      then inspect (get_underlay_network opts) pure (λ e'.
        if is_missing env.lib.errors e'
        then raise (not_found "network" "")
        else raise (wrap "get underlay network" e'))
      else raise (wrap "get overlay network" e)

  -- The loop of `DeleteNetwork` over the subnets of the network.
  unfoldable pub delete_subnets : List Identifier → Exec S (Unit {0})
  delete_subnets [] = pure tt
  delete_subnets (subnet_id ∷ rest) =
      let others = delete_subnets rest in
      do
        context "delete network subnet with id '%s'"
            (delete_subnet env (GetSubnetOpt.by_uid (some subnet_id) ∷ []))
        others

  unfoldable pub delete_network_object : NetworkType → Option String → Exec S (Unit {0})
  delete_network_object overlay name = do
    vpc_name ← deref name
    context "delete kubeovn vpc '%s' (id: %s)"
        (call (env.client.delete Kind.vpc (cluster_key vpc_name)))
  delete_network_object underlay name = do
    vlan_name ← deref name
    context "delete kubeovn vlan '%s' (id: %s)"
        (call (env.client.delete Kind.vlan (cluster_key vlan_name)))
  delete_network_object sriov name = raise (wrap "unsupported network type '%s'" unsupported)
  delete_network_object (NetworkType.unnamed n) name =
      raise (wrap "unsupported network type '%s'" unsupported)

  unfoldable pub delete_network : List GetNetworkOpt → Exec S (Unit {0})
  delete_network opts = do
    net ← context "get network" (get_network opts)
    delete_subnets net.subnet_id
    delete_network_object net.network_type net.network_resource_name

  abbrev pub index_subnets : List (Object Kind.subnet) → Map Identifier → Map Identifier
  index_subnets [] index = index
  index_subnets (sub ∷ rest) index =
      index_subnets rest (Maps.insert sub.meta.name sub.meta.uid index)

  unfoldable pub resolve_subnet_ids : Map Identifier → List String → Exec S (List Identifier)
  resolve_subnet_ids index [] = pure []
  resolve_subnet_ids index (name ∷ rest) =
      let others = resolve_subnet_ids index rest in
      elim (Maps.lookup name index) [
        | none ↦ raise (not_found "kubeovn subnet" name)
        | some id ↦ others >>= λ ids. pure (id ∷ ids)
      ]

  -- The two conversion loops of `ListNetworks`.
  unfoldable pub convert_vpcs :
      Map Identifier → List (Object Kind.vpc) → Exec S (List VirtualNetwork)
  convert_vpcs index [] = pure []
  convert_vpcs index (vpc ∷ rest) =
      let others = convert_vpcs index rest in
      do
        ids ←
            context "resolve subnets for vpc '%s' (id: %s)"
              (resolve_subnet_ids index vpc.spec.status_subnets)
        net ←
            context "convert kubeovn vpc '%s' (id: %s) to nfv VirtualNetwork"
              (lift (kubeovn_vpc_to_nfv_network vpc ids))
        nets ← others
        pure (net ∷ nets)

  unfoldable pub convert_vlans :
      Map Identifier → List (Object Kind.vlan) → Exec S (List VirtualNetwork)
  convert_vlans index [] = pure []
  convert_vlans index (vlan ∷ rest) =
      let others = convert_vlans index rest in
      do
        ids ←
            context "resolve subnets for vlan '%s' (id: %s)"
              (resolve_subnet_ids index vlan.spec.status_subnets)
        net ←
            context "convert kubeovn vlan '%s' (id: %s) to nfv VirtualNetwork"
              (lift (kubeovn_vlan_to_nfv_network vlan ids))
        nets ← others
        pure (net ∷ nets)

  unfoldable pub list_networks : Exec S (List VirtualNetwork)
  list_networks = do
    vpcs ← context "list kubeovn vpcs" (call (env.client.list Kind.vpc managed_everywhere))
    vlans ← context "list kubeovn vlans" (call (env.client.list Kind.vlan managed_everywhere))
    subnets ← context "list kubeovn subnets" (call (env.client.list Kind.subnet managed_everywhere))
    let index = index_subnets subnets []
    overlays ← convert_vpcs index vpcs
    underlays ← convert_vlans index vlans
    pure (overlays ++ underlays)
