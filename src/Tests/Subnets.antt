-- ===== src/Tests/Subnets.antt =====
-- A subnet of no network: created, and refused because its name is taken.
use kube_vim.Common.{some, none, false, [], ◌∷◌, ◌≡◌, ◌⊎◌, refl}
use kube_vim.Errors.{Error}
use kube_vim.Go.{ok, answer, refuse, Reply}
use kube_vim.K8s.Objects.{Kind, Object, new_meta}
use kube_vim.K8s.Client.{same_key, key_of}
use kube_vim.K8s.Memory.{Cluster, empty, exists_error, create_in, delete_in, objects, with_objects}
use kube_vim.K8s.Memory.Lawful.{memory_lawful, memory-IsSynced}
use kube_vim.Network.Types.{NetworkSubnetData, NetworkSubnet, GetSubnetOpt, ipv4}
use kube_vim.Network.Kubeovn.Convert.{subnet_spec}
use kube_vim.Network.Kubeovn.Subnets.{cluster_key, get_subnet}
use kube_vim.Network.Kubeovn.Create.{create_subnet, subnet_net_attach}
use kube_vim.Network.Kubeovn.Create.ReadBack.{create_subnet-get_subnet}
use kube_vim.Network.Kubeovn.Create.Cleanup.{
  Undone, create_subnet_objects-Undone, with_nad, sent, with_refusal,
}
use kube_vim.Tests.{test_env, ok_or}

abbrev subnet_data : NetworkSubnetData
subnet_data = record {
  network_id = none;
  ip_version = some ipv4;
  gateway_ip = some "10.2.0.1";
  cidr = some "10.2.0.0/24";
  is_dhcp_enabled = none;
}

abbrev no_subnet : NetworkSubnet
no_subnet = record {
  resource_id = "";
  network_id = none;
  ip_version = ipv4;
  gateway_ip = "";
  cidr = none;
  is_dhcp_enabled = false;
  metadata = [];
}

abbrev shown : NetworkSubnet
shown = ok_or no_subnet (create_subnet test_env "web" (some subnet_data) empty).0

subnet_created : (create_subnet test_env "web" (some subnet_data) empty).0 ≡ ok shown
unfolding create_subnet kube_vim.Network.Kubeovn.Create.subnet_network
    kube_vim.Network.Kubeovn.Convert.kubeovn_subnet_from_nfv_subnet_data
    kube_vim.Network.Kubeovn.Create.attach_to_network
    kube_vim.Network.Kubeovn.Create.create_subnet_objects create_in kube_vim.Common.find objects
    kube_vim.Network.Kubeovn.Create.create_with_cleanup with_objects
    kube_vim.Network.Kubeovn.Create.converted_or_deleted
    kube_vim.Network.Kubeovn.Convert.nfv_network_subnet_from_kubeovn_subnet
    kube_vim.K8s.Objects.is_object_instantiated kube_vim.K8s.Objects.is_object_managed_by_kube_nfv
    kube_vim.Common.Maps.lookup kube_vim.Common.Maps.insert new_meta
subnet_created = refl

create_subnet-get_subnet_example :
    let t = (create_subnet test_env "web" (some subnet_data) empty).1 in
    ((get_subnet test_env (GetSubnetOpt.by_name "web" ∷ []) t).0 ≡ ok shown)
    ⊎ ((e : Error) × ((test_env.client.get Kind.subnet (cluster_key "web") t).0 ≡ refuse e)
        × (test_env.lib.errors.is_not_found e ≡ false))
create_subnet-get_subnet_example =
    create_subnet-get_subnet test_env memory_lawful memory-IsSynced "web" subnet_data shown empty
      subnet_created

abbrev web : Object Kind.subnet
web = record { meta = new_meta "" "web" [] []; spec = subnet_spec "IPv4" false "10.2.0.0/24" }

-- A cluster where the subnet "web" is there, without an attachment definition.
abbrev with_web : Cluster
with_web = (create_in Kind.subnet web empty).1

abbrev nad_or_none : Reply (Object Kind.net_attach) → Object Kind.net_attach
nad_or_none (answer nad) = nad
nad_or_none (refuse e) = subnet_net_attach test_env ""

abbrev nad : Object Kind.net_attach
nad = nad_or_none (create_in Kind.net_attach (subnet_net_attach test_env "web") with_web).0

nad_created : (create_in Kind.net_attach (subnet_net_attach test_env "web") with_web).0 ≡ answer nad
unfolding create_in objects with_objects kube_vim.Common.find
nad_created = refl

web_refused :
    (create_in Kind.subnet (sent test_env web with_web) (with_nad test_env web with_web)).0
    ≡ refuse exists_error
unfolding create_in objects with_objects kube_vim.Common.find same_key key_of new_meta
web_refused = refl

nad_deleted :
    (delete_in Kind.net_attach
      (record { namespace = "kube-nfv"; name = "web-netattach" })
      (with_refusal test_env web with_web)).0
    ≡ answer tt
unfolding create_in delete_in objects with_objects subnet_net_attach kube_vim.Common.find same_key
    key_of new_meta
nad_deleted = refl

create_subnet_objects-Undone_example : Undone test_env web with_web exists_error memory_lawful
unfolding new_meta kube_vim.Network.Kubeovn.Names.format_net_attach_name
create_subnet_objects-Undone_example =
    create_subnet_objects-Undone test_env web with_web memory_lawful nad exists_error nad_created
      web_refused nad_deleted

-- The cluster after the creation of "web" above.
abbrev created : Cluster
created = (create_subnet test_env "web" (some subnet_data) empty).1
