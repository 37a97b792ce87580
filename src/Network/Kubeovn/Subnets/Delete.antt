-- ===== src/Network/Kubeovn/Subnets/Delete.antt =====
-- `DeleteSubnet` of kubeovn/manager.go, for a subnet that is named.
use kube_vim.Common.{String, true, false, none, some, [], ◌∷◌, ◌≡◌, arith}
use kube_vim.Common.Maps
use kube_vim.Go.{Exec, ok, call, context, lift, ◌>>◌}
use kube_vim.K8s.Objects.{Kind, Object, is_object_managed_by_kube_nfv}
use kube_vim.K8s.Client.{ObjectKey}
use kube_vim.K8s.Lawful.{IsLawful, IsSynced, IsGoing, same_ref}
use kube_vim.Network.Types.{
  Env, NetworkSubnet, GetSubnetOpt, k8s_subnet_name_label, k8s_subnet_net_attach_name_label,
}
use kube_vim.Network.Kubeovn.Convert.{nfv_network_subnet_from_kubeovn_subnet, subnet_with_version}
use kube_vim.Network.Kubeovn.Subnets.{nad_key, cluster_key, get_subnet}

pub shown_of :
    (o : Object Kind.subnet) (sub : NetworkSubnet)
    → nfv_network_subnet_from_kubeovn_subnet o ≡ ok sub
    → (sub.metadata ≡ o.meta.labels) × (is_object_managed_by_kube_nfv o.meta ≡ true)
unfolding nfv_network_subnet_from_kubeovn_subnet subnet_with_version
shown_of o sub h = (ground arith, ground arith)

module _ {S : Type 0} (env : Env S) (l : IsLawful env.client env.lib.errors)
    (y : IsSynced l env.namespace) where
  abbrev subnet_key : Object Kind.subnet → ObjectKey
  subnet_key o = cluster_key (Maps.at k8s_subnet_name_label o.meta.labels)

  abbrev net_attach_key : Object Kind.subnet → ObjectKey
  net_attach_key o = nad_key env (Maps.at k8s_subnet_net_attach_name_label o.meta.labels)

  -- The subnet that was found under its name. It is gone or marked as deleted; the attachment
  -- definition that its labels name is gone.
  pub record Removed (name : String) (s t : S) : Type 0 where
    pub subnet : Object Kind.subnet
    pub present : l.stored s Kind.subnet (cluster_key name) ≡ some subnet
    pub managed : is_object_managed_by_kube_nfv subnet.meta ≡ true
    pub subnet_going : IsGoing (l.stored t Kind.subnet (subnet_key subnet))
    pub net_attach_gone : l.stored t Kind.net_attach (net_attach_key subnet) ≡ none
    pub others :
        (j : Kind) (other : ObjectKey)
        → same_ref Kind.subnet (subnet_key subnet) j other ≡ false
        → same_ref Kind.net_attach (net_attach_key subnet) j other ≡ false
        → l.stored t j other ≡ l.stored s j other

  record Found (name : String) (s : S) (sub : NetworkSubnet) : Type 0 where
    pub subnet : Object Kind.subnet
    pub present : l.stored s Kind.subnet (cluster_key name) ≡ some subnet
    pub managed : is_object_managed_by_kube_nfv subnet.meta ≡ true
    pub labels : sub.metadata ≡ subnet.meta.labels
    pub kept :
        (j : Kind) (other : ObjectKey)
        → l.stored (get_subnet env (GetSubnetOpt.by_name name ∷ []) s).1 j other
          ≡ l.stored s j other

  abbrev read_step : String → Exec S (Object Kind.subnet)
  read_step name =
      context "get kubeovn subnet '%s'" (call (env.client.get Kind.subnet (cluster_key name)))

  abbrev show_step : Object Kind.subnet → Exec S NetworkSubnet
  show_step o =
      context "convert kubeovn subnet '%s' (id: %s) to nfv NetworkSubnet"
        (lift (nfv_network_subnet_from_kubeovn_subnet o))

  abbrev delete_call : (k : Kind) → String → ObjectKey → Exec S (Unit {0})
  delete_call k text key = context text (call (env.client.delete k key))

  abbrev subnet_text : String
  subnet_text = "delete kubeovn subnet '%s' (id: %s)"

  abbrev nad_text : String
  nad_text = "delete multus NetworkAttachmentDefinition '%s' for subnet '%s'"

  abbrev delete_both : ObjectKey → ObjectKey → Exec S (Unit {0})
  delete_both a b = delete_call Kind.subnet subnet_text a >> delete_call Kind.net_attach nad_text b

  record BothGoing (a b : ObjectKey) (s t : S) : Type 0 where
    pub first_going : IsGoing (l.stored t Kind.subnet a)
    pub second_gone : l.stored t Kind.net_attach b ≡ none
    pub others :
        (j : Kind) (other : ObjectKey)
        → same_ref Kind.subnet a j other ≡ false
        → same_ref Kind.net_attach b j other ≡ false
        → l.stored t j other ≡ l.stored s j other

  abbrev delete_shown : NetworkSubnet → Exec S (Unit {0})
  delete_shown sub =
      delete_both (cluster_key (Maps.at k8s_subnet_name_label sub.metadata))
        (nad_key env (Maps.at k8s_subnet_net_attach_name_label sub.metadata))
