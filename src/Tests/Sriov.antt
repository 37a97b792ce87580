-- ===== src/Tests/Sriov.antt =====
-- An SR-IOV network on VLAN 7 in an empty cluster.
use kube_vim.Common.{
  String, Option, some, none, Bool, true, false, [], ◌∷◌, ◌≡◌, ◌⊎◌, refl, ◌==◌, ◌&&◌, arith, eq_iff,
  num_eq, if◌then◌else◌,
}
use kube_vim.Errors.{Error}
use kube_vim.Go.{ok, refuse}
use kube_vim.K8s.Objects.{Kind, new_meta}
use kube_vim.K8s.Memory.{empty, create_in, objects, with_objects}
use kube_vim.K8s.Memory.Lawful.{memory_lawful, memory-IsSynced}
use kube_vim.Network.Types.{Env, VirtualNetworkData, VirtualNetwork, sriov, overlay, GetNetworkOpt}
use kube_vim.Network.Sriov.{
  Json, OvsCniConfig, create_network, get_network, nad_key, check_sriov_data, format_ovs_cni_config,
  ovs_cni_config, nad_to_nfv_network,
}
use kube_vim.Network.Sriov.ReadBack.{
  ReadsBack, ShowsRequest, create_network-ShowsRequest, create_network-get_network,
}
use kube_vim.Tests.{test_env, ok_or}

abbrev vlan_7 : String → OvsCniConfig
vlan_7 name = record {
  cni_version = "0.3.1";
  name = name;
  type = "ovs";
  vlan = some 7;
  socket_file = "";
}

abbrev is_7 : OvsCniConfig → Bool
is_7 c =
    c.cni_version == "0.3.1"
    && c.type == "ovs"
    && c.socket_file == ""
    && elim c.vlan [ none ↦ false | some v ↦ num_eq v 7 ]

-- The configurations of VLAN 7, written as the name of the network.
abbrev pub test_json : Json
test_json = record {
  marshal = λ c. if is_7 c then some c.name else none;
  unmarshal = λ text. some (vlan_7 text);
}

test_json-ReadsBack : ReadsBack test_json
test_json-ReadsBack = record {
  unmarshal-marshal = λ c text h.
      ground (arith, eq_iff c.cni_version "0.3.1", eq_iff c.type "ovs", eq_iff c.socket_file "");
}

abbrev pub request : VirtualNetworkData
request = record {
  network_type = some sriov;
  provider_network = some "nic1";
  segmentation_id = some 7;
  layer3_attributes = [];
}

abbrev no_network : VirtualNetwork
no_network = record {
  network_resource_id = none;
  network_resource_name = none;
  subnet_id = [];
  network_type = overlay;
  provider_network = none;
  segmentation_id = none;
  metadata = none;
}

abbrev shown : VirtualNetwork
shown = ok_or no_network (create_network test_env test_json "" "fast" (some request) empty).0

request_run : (create_network test_env test_json "" "fast" (some request) empty).0 ≡ ok shown
unfolding create_network check_sriov_data format_ovs_cni_config ovs_cni_config nad_to_nfv_network
    create_in objects with_objects kube_vim.Network.Types.same_type kube_vim.Common.find
    kube_vim.K8s.Objects.is_object_managed_by_kube_nfv kube_vim.Common.Maps.lookup new_meta
request_run = refl

create_network-ShowsRequest_example : ShowsRequest test_env test_json "" "fast" request shown
create_network-ShowsRequest_example =
    create_network-ShowsRequest test_env test_json "" test_json-ReadsBack memory_lawful "fast"
      request empty shown request_run

create_network-get_network_example :
    let t = (create_network test_env test_json "" "fast" (some request) empty).1 in
    ((get_network test_env test_json "" (GetNetworkOpt.by_name "fast" ∷ []) t).0 ≡ ok shown)
    ⊎ ((e : Error) × ((test_env.client.get Kind.net_attach
            (nad_key test_env test_json "" "fast")
            t).0
          ≡ refuse e)
        × (test_env.lib.errors.is_not_found e ≡ false))
create_network-get_network_example =
    create_network-get_network test_env test_json "" memory_lawful memory-IsSynced "fast" request
      empty shown refl request_run
