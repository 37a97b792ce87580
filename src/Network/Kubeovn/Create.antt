-- ===== src/Network/Kubeovn/Create.antt =====
-- internal/kubevim/network/kubeovn/manager.go: CreateSubnet and CreateNetwork, with what they undo.
pub mod ReadBack
pub mod Cleanup
use kube_vim.Common.{
  String, ℕ, ◌+◌, Option, none, some, List, [], ◌∷◌, ◌==◌, if◌then◌else◌, text_or_empty,
}
use kube_vim.Common.Maps
use kube_vim.Errors.{unsupported, wrap}
use kube_vim.Go.{
  Exec, pure, raise, panics, lift, deref, call, context, inspect, ignore, ◌>>=◌, ◌>>◌,
}
use kube_vim.K8s.Objects.{Kind, Object, new_meta, set_label, k8s_managed_by_label, kube_nfv_name}
use kube_vim.Network.Types.{
  Env, Identifier, NetworkType, overlay, underlay, sriov, VirtualNetwork, VirtualNetworkData,
  NetworkSubnetData, NetworkSubnet, GetNetworkOpt, GetSubnetOpt, k8s_network_name_label,
  k8s_network_id_label, k8s_network_type_label, k8s_subnet_name_label,
  k8s_subnet_net_attach_name_label,
}
use kube_vim.Network.Kubeovn.Names.{
  format_subnet_name, format_net_attach_name, format_net_attach_config, itoa,
}
use kube_vim.Network.Kubeovn.Convert.{
  kubeovn_vpc_from_nfv_network_data, kubeovn_vlan_from_nfv_network_data,
  kubeovn_subnet_from_nfv_subnet_data, kubeovn_vpc_to_nfv_network, kubeovn_vlan_to_nfv_network,
  nfv_network_subnet_from_kubeovn_subnet,
}
use kube_vim.Network.Kubeovn.Subnets.{nad_key, delete_subnet}
use kube_vim.Network.Kubeovn.Networks.{get_network, delete_network}

module _ {S : Type 0} (env : Env S) where
  -- The network that a non-empty network id names, by uid or by name.
  abbrev pub network_option : String → GetNetworkOpt
  network_option id =
      if env.lib.is_uuid id then GetNetworkOpt.by_uid (some id) else GetNetworkOpt.by_name id

  unfoldable pub subnet_network : Option Identifier → Exec S (Option VirtualNetwork)
  subnet_network net_id = if text_or_empty net_id == "" then pure none else (do
    vnet ←
        context "get vpc by id '%s'" (get_network env (network_option (text_or_empty net_id) ∷ []))
    pure (some vnet))

  -- The Vpc or the Vlan of the spec, by the type of the network.
  abbrev pub place_in : NetworkType → String → Object Kind.subnet → Object Kind.subnet
  place_in overlay name subnet = record subnet { spec = record subnet.spec { vpc = name } }
  place_in underlay name subnet = record subnet { spec = record subnet.spec { vlan = name } }
  place_in sriov name subnet = subnet
  place_in (NetworkType.unnamed n) name subnet = subnet

  abbrev pub network_labels :
      String → Identifier → NetworkType → Object Kind.subnet → Object Kind.subnet
  network_labels name id type subnet =
      set_label Kind.subnet k8s_network_type_label (env.lib.network_type_string type) (
        set_label Kind.subnet k8s_network_id_label id
          (set_label Kind.subnet k8s_network_name_label name subnet))

  -- Placed in its network, if it has one with a name; the network's id is a pointer.
  abbrev pub attach_named :
      Option String → VirtualNetwork → Object Kind.subnet → Exec S (Object Kind.subnet)
  attach_named none vnet subnet = pure subnet
  attach_named (some name) vnet subnet = deref vnet.network_resource_id >>= λ id.
      pure (network_labels name id vnet.network_type (place_in vnet.network_type name subnet))

  unfoldable pub attach_to_network :
      Option VirtualNetwork → Object Kind.subnet → Exec S (Object Kind.subnet)
  attach_to_network none subnet = pure subnet
  attach_to_network (some vnet) subnet = attach_named vnet.network_resource_name vnet subnet

  unfoldable pub subnet_net_attach : String → Object Kind.net_attach
  unfolding format_net_attach_name
  subnet_net_attach subnet_name = record {
    meta =
        new_meta env.namespace (format_net_attach_name subnet_name)
          ((k8s_managed_by_label, kube_nfv_name) ∷ (k8s_subnet_name_label, subnet_name) ∷ []) [];
    spec = record {
      config = format_net_attach_config (format_net_attach_name subnet_name) env.namespace;
    };
  }

  abbrev pub with_provider : String → Object Kind.subnet → Object Kind.subnet
  with_provider net_attach_name subnet =
      let provided = record subnet { spec = record subnet.spec { provider = "ovn" } } in
      set_label Kind.subnet k8s_subnet_net_attach_name_label net_attach_name provided

  -- The subnet, once its attachment definition is there; a refusal takes that one down again.
  unfoldable pub create_with_cleanup : String → Object Kind.subnet → Exec S (Object Kind.subnet)
  create_with_cleanup net_attach_name subnet =
      inspect (call (env.client.create Kind.subnet subnet)) pure λ e.
        ignore (call (env.client.delete Kind.net_attach (nad_key env net_attach_name)))
        >> raise (wrap "create kubeovn subnet '%s'" e)

  -- The converted subnet; one that cannot be converted is deleted.
  unfoldable pub converted_or_deleted : Object Kind.subnet → Exec S NetworkSubnet
  converted_or_deleted subnet =
      inspect (lift (nfv_network_subnet_from_kubeovn_subnet subnet)) pure λ e.
        ignore (delete_subnet env (GetSubnetOpt.by_uid (some subnet.meta.uid) ∷ []))
        >> raise (
            wrap
              "convert created kubeovn subnet '%s' (id: %s) to vivnfm.NetworkSubnet (subnet will be deleted)"
              e)

  -- From the attachment definition on.
  unfoldable pub create_subnet_objects : Object Kind.subnet → Exec S NetworkSubnet
  create_subnet_objects subnet =
      let net_attach_name = format_net_attach_name subnet.meta.name in
      do
        context "create multus network-attachment-definition for subnet '%s'"
              (call (env.client.create Kind.net_attach (subnet_net_attach subnet.meta.name)))
            >>= λ _.
                create_with_cleanup net_attach_name (with_provider net_attach_name subnet)
                >>= converted_or_deleted

  unfoldable pub create_subnet : String → Option NetworkSubnetData → Exec S NetworkSubnet
  create_subnet name none = panics
  create_subnet name (some subnet_data) = do
    vnet ← subnet_network subnet_data.network_id
    built ←
        context "create kubeovn subnet '%s' from NetworkSubnetData"
          (lift (kubeovn_subnet_from_nfv_subnet_data env.lib name (some subnet_data)))
    subnet ← attach_to_network vnet built
    create_subnet_objects subnet

  -- An attribute with no network id gets the name of the network that is being created.
  abbrev pub default_network : String → NetworkSubnetData → NetworkSubnetData
  default_network network_name l3attr =
      if text_or_empty l3attr.network_id == ""
      then record l3attr { network_id = some network_name }
      else l3attr

  -- The loop from index `idx` on.
  unfoldable pub allocate_l3_attributes :
      String → ℕ → List NetworkSubnetData → Exec S (List Identifier)
  allocate_l3_attributes network_name idx [] = pure []
  allocate_l3_attributes network_name idx (l3attr ∷ rest) =
      let others = allocate_l3_attributes network_name (idx + 1) rest in
      do
        subnet ← context "create subnet from l3 attribute index %d for network '%s'" (
            create_subnet (format_subnet_name network_name (itoa idx))
              (some (default_network network_name l3attr)))
        ids ← others
        pure (subnet.resource_id ∷ ids)

  -- A failure deletes the network again; what that deletion returns is dropped.
  unfoldable pub subnets_or_cleanup :
      String → String → String → List NetworkSubnetData → Exec S (List Identifier)
  subnets_or_cleanup text name network_name l3attrs =
      inspect (allocate_l3_attributes network_name 0 l3attrs) pure
        λ e. ignore (delete_network env (GetNetworkOpt.by_name name ∷ [])) >> raise (wrap text e)

  unfoldable pub create_overlay_network : String → VirtualNetworkData → Exec S VirtualNetwork
  create_overlay_network name network_data = do
    new ←
        context "convert nfv VirtualNetworkData to kube-ovn Vpc for network '%s'"
          (lift (kubeovn_vpc_from_nfv_network_data name (some network_data)))
    vpc ← context "create kube-ovn Vpc k8s object '%s'" (call (env.client.create Kind.vpc new))
    subnet_ids ←
        subnets_or_cleanup "create vpc l3 attributes (resources cleaned up)" name vpc.meta.name
          network_data.layer3_attributes
    context "convert kubeovn vpc '%s' (id: %s) to nfv VirtualNetwork"
        (lift (kubeovn_vpc_to_nfv_network vpc subnet_ids))

  unfoldable pub create_underlay_network : String → VirtualNetworkData → Exec S VirtualNetwork
  create_underlay_network name network_data = do
    new ←
        context "convert VirtualNetworkData to kubeovn vlan for network '%s'"
          (lift (kubeovn_vlan_from_nfv_network_data name (some network_data)))
    vlan ← context "create kubeovn vlan '%s'" (call (env.client.create Kind.vlan new))
    subnet_ids ←
        subnets_or_cleanup "create vlan l3 attributes (resources cleaned up)" name vlan.meta.name
          network_data.layer3_attributes
    context "convert kubeovn vlan '%s' (id: %s) to nfv VirtualNetwork"
        (lift (kubeovn_vlan_to_nfv_network vlan subnet_ids))

  -- By the type of the data; an unset type is an overlay.
  abbrev pub create_network_of :
      Option NetworkType → String → VirtualNetworkData → Exec S VirtualNetwork
  create_network_of none name data' =
      context "create overlay network '%s'" (create_overlay_network name data')
  create_network_of (some overlay) name data' =
      context "create overlay network '%s'" (create_overlay_network name data')
  create_network_of (some underlay) name data' =
      context "create underlay network '%s'" (create_underlay_network name data')
  create_network_of (some sriov) name data' =
      raise (wrap "unsupported network type '%s'" unsupported)
  create_network_of (some (NetworkType.unnamed n)) name data' =
      raise (wrap "unsupported network type '%s'" unsupported)

  unfoldable pub create_network : String → Option VirtualNetworkData → Exec S VirtualNetwork
  create_network name none = panics
  create_network name (some network_data) =
      create_network_of network_data.network_type name network_data
