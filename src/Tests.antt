-- ===== src/Tests.antt =====
-- The theorems at concrete inputs: an environment over the cluster in memory, and an instance of
-- each theorem for it.
mod Mgmt
mod Labels
mod Sriov
mod Subnets
mod Convert
mod Composite
mod Ipam
mod Flavour
mod Compute
mod Server
mod Config
mod Image
mod Grpc
use kube_vim.Common.{String, Bool, true, false, ◌==◌, not}
use kube_vim.Go.{Result, ok, err, panic}
use kube_vim.K8s.Memory.{Cluster, memory, memory_errors}
use kube_vim.Network.Types.{Env, Libraries, NetworkType, overlay, underlay, sriov}

-- A text that is not empty parses.
abbrev pub test_lib : Libraries
test_lib = record {
  errors = memory_errors;
  parse_ip = λ ip. not (ip == "");
  parse_cidr = λ cidr. not (cidr == "");
  cidr_contains = λ cidr ip. true;
  is_uuid = λ id. id == "u";
  network_type_string =
      λ t. elim t [ overlay ↦ "overlay" | underlay ↦ "underlay" | sriov ↦ "sriov" | _ ↦ "" ];
}

abbrev pub test_env : Env Cluster
test_env = record { client = memory; lib = test_lib; namespace = "kube-nfv" }

abbrev pub ok_or : {A : Type 0} → A → Result A → A
ok_or x (ok a) = a
ok_or x (err e) = x
ok_or x panic = x
