-- ===== src/Config/Normalized.antt =====
-- A normalized configuration is one that EnsureManagementNetwork of
-- internal/kubevim/network/kubeovn/mgmt.go accepts.
use mathlib.Core.Path.{subst}
use text.Mathlib.TextLemmas.{append-ne-nil_of_right_ne-nil}
use kube_vim.Common.{
  String, ◌<>◌, true, false, Option, none, some, ◌==◌, ◌≡◌, refl, sym, ap, ◌∙◌, arith, str_ne,
  text_or_empty, Bool-cases, inl, inr,
}
use kube_vim.Go.{Result, ok, err, panic}
use kube_vim.Network.Types.{Env}
use kube_vim.Network.Kubeovn.Mgmt.{ManagementNetworkConfig, check_mgmt_config}
use kube_vim.Config.{
  NetworkConfig, Config, is_blank, is_on, with_default, with_namespace, named_net_attach,
  normalize_mgmt, in_config, normalize_network, normalize_config, normalize,
}

-- The fields that an enabled management network needs.
pub record IsResolved (mgmt : ManagementNetworkConfig) : Type 0 where
  pub name : is_blank mgmt.name ≡ false
  pub cidr : is_blank mgmt.cidr ≡ false
  pub net_attach_name : is_blank mgmt.net_attach_def_name ≡ false
  pub net_attach_namespace : is_blank mgmt.net_attach_def_namespace ≡ false

derived_name : (name : String) → ((name <> "-netattach") == "") ≡ false
derived_name name = str_ne _ _ (append-ne-nil_of_right_ne-nil name (λ h. cc))

with_default-set :
    (p : Option String) (derived : String)
    → (derived == "") ≡ false
    → is_blank (with_default p derived) ≡ false
with_default-set p derived h = ground (arith, h)

with_default-same :
    (p : Option String) (derived : String) → is_blank p ≡ false → with_default p derived ≡ p
with_default-same p derived h = ground (arith, h)

namespace-IsResolved :
    (k8s_namespace : String) (m m' : ManagementNetworkConfig)
    → is_blank m.name ≡ false
    → is_blank m.cidr ≡ false
    → is_blank m.net_attach_def_name ≡ false
    → with_namespace k8s_namespace m ≡ ok m'
    → IsResolved m'
namespace-IsResolved k8s_namespace m m' name cidr nad h = record {
  name = ground arith;
  cidr = ground arith;
  net_attach_name = ground arith;
  net_attach_namespace = ground arith;
}

mgmt-IsResolved :
    (k8s_namespace : String) (m m' : ManagementNetworkConfig)
    → normalize_mgmt k8s_namespace m ≡ ok m'
    → is_on m.enabled ≡ true
    → IsResolved m'
unfolding normalize_mgmt
mgmt-IsResolved k8s_namespace m m' h on =
    namespace-IsResolved k8s_namespace (named_net_attach m) m' (ground arith) (ground arith)
      (with_default-set m.net_attach_def_name _
        (derived_name (text_or_empty m.name <> "-subnet-0")))
      (ground arith)

-- The management network of a configuration.
abbrev pub managed_network : Config → Option ManagementNetworkConfig
managed_network c = elim c.network [ none ↦ none | some net ↦ net.management_network ]

-- A second run on what the first returned changes nothing.
normalize_mgmt-same :
    (k8s_namespace : String) (m : ManagementNetworkConfig)
    → IsResolved m
    → normalize_mgmt k8s_namespace m ≡ ok m
unfolding normalize_mgmt
normalize_mgmt-same k8s_namespace m r = elim (Bool-cases (is_on m.enabled)) [
  | inr off ↦ rw (off) refl
  | inl on ↦ rw (on, r.name, r.cidr, r.net_attach_namespace, r.net_attach_name) refl
]

-- Normalize turns nothing on.
enabled_kept :
    (k8s_namespace : String) (m m' : ManagementNetworkConfig)
    → normalize_mgmt k8s_namespace m ≡ ok m'
    → m'.enabled ≡ m.enabled
unfolding normalize_mgmt
enabled_kept k8s_namespace m m' h = ground arith

disabled-same :
    (k8s_namespace : String) (m : ManagementNetworkConfig)
    → is_on m.enabled ≡ false
    → normalize_mgmt k8s_namespace m ≡ ok m
unfolding normalize_mgmt
disabled-same k8s_namespace m off = rw (off) refl

normalize_mgmt_twice :
    (k8s_namespace other : String) (m m' : ManagementNetworkConfig)
    → normalize_mgmt k8s_namespace m ≡ ok m'
    → normalize_mgmt other m' ≡ ok m'
normalize_mgmt_twice k8s_namespace other m m' h = elim (Bool-cases (is_on m.enabled)) [
  | inl on ↦ normalize_mgmt-same other m' (mgmt-IsResolved k8s_namespace m m' h on)
  | inr off ↦ disabled-same other m' (ap is_on (enabled_kept k8s_namespace m m' h) ∙ off)
]

network_twice :
    (k8s_namespace other : String) (result : Result ManagementNetworkConfig) (c' : Config)
    (m : ManagementNetworkConfig)
    → normalize_mgmt k8s_namespace m ≡ result
    → in_config result ≡ ok c'
    → normalize other (some c') ≡ ok c'
unfolding normalize
network_twice k8s_namespace other (ok m') c' m run h =
    subst (λ c. normalize other (some c) ≡ ok c)
      {x = record { network = some (record { management_network = some m' }) }} {y = c'} (cc)
      (ap in_config (normalize_mgmt_twice k8s_namespace other m m' run))
network_twice k8s_namespace other (err e) c' m run h = absurd (cc)
network_twice k8s_namespace other panic c' m run h = absurd (cc)

config_twice :
    (k8s_namespace other : String) (c' : Config) (net : NetworkConfig)
    (m : Option ManagementNetworkConfig)
    → net.management_network ≡ m
    → normalize_network k8s_namespace net m ≡ ok c'
    → normalize other (some c') ≡ ok c'
unfolding normalize
config_twice k8s_namespace other c' net none none_there h =
    subst (λ c. normalize other (some c) ≡ ok c) {x = record { network = some net }} {y = c'} (cc)
      (ap (normalize_network other net) none_there)
config_twice k8s_namespace other c' net (some m) there h =
    network_twice k8s_namespace other (normalize_mgmt k8s_namespace m) c' m refl h

optional_twice :
    (k8s_namespace other : String) (c c' : Config) (net : Option NetworkConfig)
    → c.network ≡ net
    → normalize_config k8s_namespace c net ≡ ok c'
    → normalize other (some c') ≡ ok c'
unfolding normalize
optional_twice k8s_namespace other c c' none absent h =
    subst (λ x. normalize other (some x) ≡ ok x) {x = c} {y = c'} (cc)
      (ap (normalize_config other c) absent)
optional_twice k8s_namespace other c c' (some net) there h =
    config_twice k8s_namespace other c' net net.management_network refl h

-- Normalize on the configuration that it returned changes nothing, whatever the namespace of the
-- second run.
pub normalize_twice :
    (k8s_namespace other : String) (c c' : Config)
    → normalize k8s_namespace (some c) ≡ ok c'
    → normalize other (some c') ≡ ok c'
unfolding normalize
normalize_twice k8s_namespace other c c' h =
    optional_twice k8s_namespace other c c' c.network refl h

none-some : {A : Type 0} {a : A} → Path (Option A) none (some a) → ⊥
none-some h = cc

-- Where a resolved management network comes from.
from_mgmt :
    (result : Result ManagementNetworkConfig) (c' : Config) (m' : ManagementNetworkConfig)
    → in_config result ≡ ok c'
    → managed_network c' ≡ some m'
    → result ≡ ok m'
from_mgmt (ok m) c' m' h there =
    let same =
      ap managed_network {x = record { network = some (record { management_network = some m }) }}
        {y = c'} (cc) in
    cc
from_mgmt (err e) c' m' h there = absurd (cc)
from_mgmt panic c' m' h there = absurd (cc)

from_network :
    (k8s_namespace : String) (net : NetworkConfig) (m : Option ManagementNetworkConfig)
    (c' : Config) (m' : ManagementNetworkConfig)
    → net.management_network ≡ m
    → normalize_network k8s_namespace net m ≡ ok c'
    → managed_network c' ≡ some m'
    → (given : ManagementNetworkConfig) × (normalize_mgmt k8s_namespace given ≡ ok m')
from_network k8s_namespace net none c' m' absent h there =
    let same = ap managed_network {x = record { network = some net }} {y = c'} (cc) in
    absurd (none-some (sym absent ∙ same ∙ there))
from_network k8s_namespace net (some m) c' m' given h there =
    (m, from_mgmt (normalize_mgmt k8s_namespace m) c' m' h there)

from_config :
    (k8s_namespace : String) (c : Config) (net : Option NetworkConfig) (c' : Config)
    (m' : ManagementNetworkConfig)
    → c.network ≡ net
    → normalize_config k8s_namespace c net ≡ ok c'
    → managed_network c' ≡ some m'
    → (given : ManagementNetworkConfig) × (normalize_mgmt k8s_namespace given ≡ ok m')
from_config k8s_namespace c none c' m' absent h there =
    let same = ap managed_network {x = c} {y = c'} (cc) in
    absurd (
      none-some (
        sym (
          ap
            (λ (n : Option NetworkConfig). elim n [
              | none ↦ none
              | some net ↦ net.management_network
            ])
            absent)
        ∙ same
        ∙ there))
from_config k8s_namespace c (some net) c' m' given h there =
    from_network k8s_namespace net net.management_network c' m' refl h there

-- If Normalize succeeds, and the management network of its result is enabled with a CIDR that
-- parses, then that network passes the checks of EnsureManagementNetwork.
pub normalize-accepted :
    {S : Type 0} (env : Env S) (k8s_namespace : String) (c c' : Config)
    (m : ManagementNetworkConfig) (s : S)
    → normalize k8s_namespace (some c) ≡ ok c'
    → managed_network c' ≡ some m
    → is_on m.enabled ≡ true
    → env.lib.parse_cidr (text_or_empty m.cidr) ≡ true
    → check_mgmt_config env m s ≡ (ok tt, s)
unfolding normalize check_mgmt_config
normalize-accepted env k8s_namespace c c' m s h there on parses =
    let (given, run) = from_config k8s_namespace c c.network c' m refl h there in
    let r =
      mgmt-IsResolved k8s_namespace given m run
        (sym (ap is_on (enabled_kept k8s_namespace given m run)) ∙ on) in
    rw (r.name, r.cidr, parses, r.net_attach_name, r.net_attach_namespace) refl
