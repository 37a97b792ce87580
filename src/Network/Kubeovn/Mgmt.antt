-- ===== src/Network/Kubeovn/Mgmt.antt =====
-- internal/kubevim/network/kubeovn/mgmt.go: the shared management network. The three `ensureMgmt*`
-- functions take the same steps, on a Vpc, a Subnet and a NetworkAttachmentDefinition; the steps
-- are `ensure_object`.
pub mod Ensure
pub mod Settled
pub mod Reconciled
use kube_vim.Common.{
  String, Bool, true, false, Option, none, some, List, [], ◌∷◌, ◌++◌, Map, ◌==◌, if◌then◌else◌,
  text_or_empty, not, ◌&&◌,
}
use kube_vim.Errors.{plain, wrap}
use kube_vim.Go.{Exec, pure, raise, call, context, inspect, guard, ◌>>=◌, ◌>>◌}
use kube_vim.K8s.Objects.{Kind, Object, new_meta, k8s_managed_by_label, kube_nfv_name}
use kube_vim.K8s.Client.{Client, ObjectKey}
use kube_vim.Misc.{merge_labels}
use kube_vim.Network.Types.{
  Env, NetworkType, k8s_network_name_label, k8s_network_id_label, k8s_network_type_label,
  k8s_subnet_name_label, k8s_subnet_net_attach_name_label,
}
use kube_vim.Network.Kubeovn.Names.{format_subnet_name, format_net_attach_config}

pub record ManagementNetworkConfig : Type 0 where
  pub enabled : Option Bool
  pub name : Option String
  pub cidr : Option String
  pub gateway : Option String
  pub exclude_ips : Option (List String)
  pub net_attach_def_name : Option String
  pub net_attach_def_namespace : Option String

unfoldable pub mgmt_vpc_labels : Map String
mgmt_vpc_labels = (k8s_managed_by_label, kube_nfv_name) ∷ []

unfoldable pub mgmt_subnet_labels : String → String → String → String → String → Map String
mgmt_subnet_labels overlay_string vpc_name vpc_uid subnet_name nad_name =
    (k8s_managed_by_label, kube_nfv_name)
    ∷ (k8s_subnet_name_label, subnet_name)
    ∷ (k8s_subnet_net_attach_name_label, nad_name)
    ∷ (k8s_network_name_label, vpc_name)
    ∷ (k8s_network_type_label, overlay_string)
    ∷ (if vpc_uid == "" then [] else (k8s_network_id_label, vpc_uid) ∷ [])

unfoldable pub mgmt_net_attach_labels : String → Map String
mgmt_net_attach_labels subnet_name =
    (k8s_managed_by_label, kube_nfv_name) ∷ (k8s_subnet_name_label, subnet_name) ∷ []

module _ {S : Type 0} (env : Env S) where
  -- The branch of an object that exists: patch its labels, if any has to change.
  unfoldable pub reconcile_labels : (k : Kind) → Map String → Object k → Exec S (Object k)
  reconcile_labels k required existing =
      let (changed, merged) = merge_labels existing.meta.labels required in
      if changed
      then context "patch labels" (
          call (
            env.client.patch_labels k
              (record existing { meta = record existing.meta { labels = merged } })))
      else pure existing

  -- The branch of an object that is not there. `raced` is the answer to AlreadyExists.
  unfoldable pub create_object : (k : Kind) → Object k → Exec S (Object k) → Exec S (Object k)
  create_object k new raced =
      inspect (call (env.client.create k new)) pure
        λ e. if env.lib.errors.is_already_exists e then raced else raise (wrap "create" e)

  unfoldable pub ensure_object :
      (k : Kind) → ObjectKey → Map String → Object k → Exec S (Object k) → Exec S (Object k)
  ensure_object k key required new raced =
      inspect (call (env.client.live_get k key)) (reconcile_labels k required) λ e.
        if env.lib.errors.is_not_found e then create_object k new raced else raise (wrap "get" e)

  abbrev pub mgmt_vpc : String → Object Kind.vpc
  mgmt_vpc vpc_name = record {
    meta = new_meta "" vpc_name mgmt_vpc_labels [];
    spec = record { status_subnets = [] };
  }

  abbrev pub vpc_key : String → ObjectKey
  vpc_key name = record { namespace = ""; name = name }

  -- A Vpc that another caller created meanwhile is read again.
  unfoldable pub ensure_mgmt_vpc : String → Exec S (Object Kind.vpc)
  ensure_mgmt_vpc vpc_name =
      ensure_object Kind.vpc (vpc_key vpc_name) mgmt_vpc_labels (mgmt_vpc vpc_name) (
        context "re-read vpc after AlreadyExists"
          (call (env.client.live_get Kind.vpc (vpc_key vpc_name))))

  abbrev pub mgmt_subnet :
      ManagementNetworkConfig → String → String → Map String → Object Kind.subnet
  mgmt_subnet cfg vpc_name subnet_name required = record {
    meta = new_meta "" subnet_name required [];
    spec = record {
      vpc = vpc_name;
      vlan = "";
      protocol = "IPv4";
      cidr_block = text_or_empty cfg.cidr;
      gateway = text_or_empty cfg.gateway;
      gateway_type = "distributed";
      provider = "ovn";
      enable_dhcp = true;
      is_default = false;
      nat_outgoing = true;
      exclude_ips = elim cfg.exclude_ips [ none ↦ [] | some ips ↦ ips ];
    };
  }

  abbrev pub mgmt_required : String → String → String → String → Map String
  mgmt_required = mgmt_subnet_labels (env.lib.network_type_string NetworkType.overlay)

  unfoldable pub ensure_mgmt_subnet :
      ManagementNetworkConfig → String → String → String → String → Exec S (Unit {0})
  ensure_mgmt_subnet cfg vpc_name vpc_uid subnet_name nad_name =
      let required = mgmt_required vpc_name vpc_uid subnet_name nad_name in
      let sub = mgmt_subnet cfg vpc_name subnet_name required in
      ensure_object Kind.subnet (vpc_key subnet_name) required sub (pure sub) >>= λ _. pure tt

  abbrev pub mgmt_net_attach : String → String → String → Object Kind.net_attach
  mgmt_net_attach subnet_name nad_name nad_namespace = record {
    meta = new_meta nad_namespace nad_name (mgmt_net_attach_labels subnet_name) [];
    spec = record { config = format_net_attach_config nad_name nad_namespace };
  }

  unfoldable pub ensure_mgmt_net_attach : String → String → String → Exec S (Unit {0})
  ensure_mgmt_net_attach subnet_name nad_name nad_namespace =
      let nad = mgmt_net_attach subnet_name nad_name nad_namespace in
      ensure_object Kind.net_attach (record { namespace = nad_namespace; name = nad_name })
        (mgmt_net_attach_labels subnet_name) nad (pure nad)
      >>= λ _. pure tt

  abbrev pub is_set : Option String → Bool
  is_set p = not (text_or_empty p == "")

  -- The steps after the checks of the configuration.
  unfoldable pub ensure_mgmt_objects : ManagementNetworkConfig → Exec S (Unit {0})
  ensure_mgmt_objects cfg =
      let vpc_name = text_or_empty cfg.name in
      let subnet_name = format_subnet_name vpc_name "0" in
      let nad_name = text_or_empty cfg.net_attach_def_name in
      let nad_namespace = text_or_empty cfg.net_attach_def_namespace in
      do
        vpc ← context "ensure management vpc" (ensure_mgmt_vpc vpc_name)
        context "ensure management subnet"
            (ensure_mgmt_subnet cfg vpc_name vpc.meta.uid subnet_name nad_name)
        context "ensure management network-attachment-definition"
            (ensure_mgmt_net_attach subnet_name nad_name nad_namespace)

  unfoldable pub check_mgmt_config : ManagementNetworkConfig → Exec S (Unit {0})
  check_mgmt_config cfg = do
    guard (is_set cfg.name) (plain "management network name is required")
    guard (is_set cfg.cidr) (plain "management network cidr is required")
    guard (env.lib.parse_cidr (text_or_empty cfg.cidr))
        (wrap "parse management network cidr" (plain "invalid CIDR address"))
    guard (is_set cfg.net_attach_def_name)
        (plain "management network netAttachDefName is required (Normalize should have set it)")
    guard (is_set cfg.net_attach_def_namespace) (
        plain "management network netAttachDefNamespace is required (Normalize should have set it)")

  abbrev pub is_enabled : Option ManagementNetworkConfig → Bool
  is_enabled none = false
  is_enabled (some cfg) = elim cfg.enabled [ none ↦ false | some b ↦ b ]

  unfoldable pub ensure_management_network : Option ManagementNetworkConfig → Exec S (Unit {0})
  ensure_management_network none = pure tt
  ensure_management_network (some cfg) =
      if is_enabled (some cfg) then (do check_mgmt_config cfg; ensure_mgmt_objects cfg) else pure tt
