-- ===== src/Compute/Ipam/Paired.antt =====
-- The networks and the interfaces of a machine belong together.
use kube_vim.Common.{String, ℕ, Option, List, [], ◌∷◌, length, ◌≡◌}
use kube_vim.Common.Maps
use kube_vim.Go.{Exec}
use kube_vim.Go.Yields.{Yields}
use kube_vim.K8s.Kubevirt.{VmNetwork, VmInterface}
use kube_vim.Compute.Types.{InterfaceIpam}
use kube_vim.Compute.Ipam.{Resolved, Interfaces, Resolver, label_or_unsupported}

-- The network and its interface have one name, by which KubeVirt joins them.
abbrev IsPair : Resolved → Type 0
IsPair x = x.network.name ≡ x.interface.name

abbrev IsKeptPair : Resolved × List InterfaceIpam → Type 0
IsKeptPair found = IsPair found.0

abbrev pub network_names : List VmNetwork → List String
network_names [] = []
network_names (x ∷ xs) = x.name ∷ network_names xs

abbrev pub interface_names : List VmInterface → List String
interface_names [] = []
interface_names (x ∷ xs) = x.name ∷ interface_names xs

-- As many networks as `n`, and the interfaces have the same names in the same order.
pub record Paired (n : ℕ) (all : Interfaces) : Type 0 where
  pub names : network_names all.networks ≡ interface_names all.interfaces
  pub count : length all.networks ≡ n

module _ {S : Type 0} (r : Resolver S) where
  abbrev labelled : Option String → Exec S String
  labelled label =
      label_or_unsupported "network subnet '%s' missing label '%s' to identify subnet name" label
