-- ===== src/Config.antt =====
-- internal/config/kubevim/defaults.go: Normalize, which the start of the program calls before
-- anything else reads the configuration.
pub mod Normalized
use kube_vim.Common.{
  String, ◌<>◌, Bool, true, false, Option, none, some, ◌==◌, not, if◌then◌else◌, text_or_empty,
}
use kube_vim.Errors.{plain}
use kube_vim.Go.{Result, ok, err, panic}
use kube_vim.Network.Kubeovn.Mgmt.{ManagementNetworkConfig}

-- config.NetworkConfig and config.Config, the parts that Normalize reads
pub record NetworkConfig : Type 0 where
  pub management_network : Option ManagementNetworkConfig

pub record Config : Type 0 where
  pub network : Option NetworkConfig

-- `p == nil || *p == ""`
abbrev pub is_blank : Option String → Bool
is_blank p = text_or_empty p == ""

abbrev pub with_default : Option String → String → Option String
with_default p derived = if is_blank p then some derived else p

-- The defaults of an enabled management network.
abbrev pub with_namespace : String → ManagementNetworkConfig → Result ManagementNetworkConfig
with_namespace k8s_namespace mgmt =
    if is_blank mgmt.net_attach_def_namespace
    then if k8s_namespace == ""
      then err (
          plain
            "k8s namespace is required to default network.managementNetwork.netAttachDefNamespace")
      else ok (record mgmt { net_attach_def_namespace = some k8s_namespace })
    else ok mgmt

abbrev pub named_net_attach : ManagementNetworkConfig → ManagementNetworkConfig
named_net_attach mgmt = record mgmt {
  net_attach_def_name =
      with_default mgmt.net_attach_def_name
        ((text_or_empty mgmt.name <> "-subnet-0") <> "-netattach");
}

abbrev pub is_on : Option Bool → Bool
is_on none = false
is_on (some b) = b

unfoldable pub normalize_mgmt : String → ManagementNetworkConfig → Result ManagementNetworkConfig
normalize_mgmt k8s_namespace mgmt =
    if not (is_on mgmt.enabled)
    then ok mgmt
    else if is_blank mgmt.name
    then err (plain "network.managementNetwork.name is required when enabled")
    else if is_blank mgmt.cidr
    then err (plain "network.managementNetwork.cidr is required when enabled")
    else with_namespace k8s_namespace (named_net_attach mgmt)

abbrev pub in_config : Result ManagementNetworkConfig → Result Config
in_config (ok mgmt) = ok (record { network = some (record { management_network = some mgmt }) })
in_config (err e) = err e
in_config panic = panic

abbrev pub normalize_network :
    String → NetworkConfig → Option ManagementNetworkConfig → Result Config
normalize_network k8s_namespace network none = ok (record { network = some network })
normalize_network k8s_namespace network (some mgmt) = in_config (normalize_mgmt k8s_namespace mgmt)

abbrev pub normalize_config : String → Config → Option NetworkConfig → Result Config
normalize_config k8s_namespace c none = ok c
normalize_config k8s_namespace c (some network) =
    normalize_network k8s_namespace network network.management_network

unfoldable pub normalize : String → Option Config → Result Config
normalize k8s_namespace none = err (plain "config cannot be nil")
normalize k8s_namespace (some c) = normalize_config k8s_namespace c c.network
