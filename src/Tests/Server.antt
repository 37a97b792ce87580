-- ===== src/Tests/Server.antt =====
-- The vi-vnfm server over the modelled managers, in a cluster in memory.
use kube_vim.Common.{String, Bool, true, false, Option, none, some, List, [], ◌∷◌, ◌≡◌, ◌⊎◌, refl}
use kube_vim.Errors.{Error, Code, status, is_missing}
use kube_vim.Go.{Result, ok, err, answer, pure}
use kube_vim.K8s.Memory.{Cluster, memory, memory_errors, missing_error, empty}
use kube_vim.Network.Kubeovn.Backend.{kubeovn_manager}
use kube_vim.Flavour.Manager.{kubevirt_flavours}
use kube_vim.Compute.Allocate.{kubevirt_computes}
use kube_vim.Server.{ViVnfmServer, terminate_network, error_conversion_interceptor}
use kube_vim.Server.Terminate.{
  Deleted, network_deletion, subnet_deletion, not_found_anywhere, terminate_network-Deleted,
  terminate_network-NotFound,
}
use kube_vim.Tests.{test_env}
use kube_vim.Tests.Flavour.{flavour_env}
use kube_vim.Tests.Compute.{allocate_env, jammy}
use kube_vim.Tests.Ipam.{with_web}
use kube_vim.Tests.Grpc.{memory_errors-LooksThrough, memory_errors-OnlyForeign}

abbrev server : ViVnfmServer Cluster
server = record {
  image_mgr = record { get_image = λ id. pure jammy; list_images = pure (jammy ∷ []) };
  flavour_mgr = kubevirt_flavours flavour_env;
  network_mgr = kubeovn_manager test_env;
  compute_mgr = kubevirt_computes (allocate_env memory);
  filters = record {
    images = λ xs query. answer xs;
    computes = λ xs query. answer xs;
    flavours = λ xs query. answer xs;
    networks = λ xs query. answer xs;
    subnets = λ xs query. answer xs;
  };
  errors = memory_errors;
}

web_terminated : (terminate_network server (some "u") with_web).0 ≡ ok (some "u")
unfolding terminate_network kube_vim.Network.Kubeovn.Networks.delete_network
    kube_vim.Network.Kubeovn.Networks.get_network
    kube_vim.Network.Kubeovn.Networks.get_overlay_network
    kube_vim.Network.Kubeovn.Networks.find_network_object kube_vim.Common.find
    kube_vim.Common.filter kube_vim.K8s.Memory.objects is_missing
    kube_vim.Network.Kubeovn.Networks.get_underlay_network
    kube_vim.Network.Kubeovn.Subnets.delete_subnet kube_vim.Network.Kubeovn.Subnets.get_subnet
    kube_vim.Network.Kubeovn.Subnets.get_subnet_by_uid kube_vim.Common.Maps.matches
    kube_vim.Network.Kubeovn.Convert.nfv_network_subnet_from_kubeovn_subnet
    kube_vim.K8s.Objects.is_object_instantiated kube_vim.K8s.Objects.is_object_managed_by_kube_nfv
    kube_vim.Common.Maps.at kube_vim.Common.Maps.lookup kube_vim.Errors.is_err_not_found
    kube_vim.Errors.root kube_vim.K8s.Objects.is_managed_label
    kube_vim.Network.Kubeovn.Convert.check_network_object
    kube_vim.Network.Kubeovn.Convert.kubeovn_vlan_to_nfv_network
    kube_vim.Network.Kubeovn.Convert.kubeovn_vpc_to_nfv_network
    kube_vim.Network.Kubeovn.Convert.network_id_of
    kube_vim.Network.Kubeovn.Convert.nfv_ip_version_from_kubeovn
    kube_vim.Network.Kubeovn.Convert.subnet_with_version
    kube_vim.Network.Kubeovn.Networks.delete_network_object
    kube_vim.Network.Kubeovn.Networks.delete_subnets
    kube_vim.Network.Kubeovn.Networks.status_subnet_ids
    kube_vim.Network.Kubeovn.Subnets.convert_subnets
    kube_vim.Network.Kubeovn.Subnets.get_subnet_by_name
    kube_vim.Network.Kubeovn.Subnets.get_subnet_by_net_attach
    kube_vim.Network.Kubeovn.Subnets.get_subnet_by_network_ip
    kube_vim.Network.Kubeovn.Subnets.get_subnet_with kube_vim.Network.Kubeovn.Subnets.list_subnets
    kube_vim.Network.Kubeovn.Subnets.search_network_ip kube_vim.Network.Types.ip_belongs_to_cidr
    kube_vim.K8s.Memory.delete_in kube_vim.K8s.Client.same_key kube_vim.K8s.Client.key_of
    kube_vim.K8s.Memory.with_objects kube_vim.K8s.Client.is_cached
web_terminated = refl

terminate_network-Deleted_example : Deleted server (some "u") with_web
terminate_network-Deleted_example =
    terminate_network-Deleted server (some "u") with_web (some "u") web_terminated

abbrev error_or : {A : Type 0} → Error → Result A → Error
error_or e (err e') = e'
error_or e _ = e

abbrev network_error : Error
network_error = error_or missing_error (network_deletion server (some "u") empty).0

abbrev subnet_error : Error
subnet_error = error_or missing_error (subnet_deletion server (some "u") empty).0

no_network : (network_deletion server (some "u") empty).0 ≡ err network_error
unfolding kube_vim.Network.Kubeovn.Networks.delete_network
    kube_vim.Network.Kubeovn.Networks.get_network
    kube_vim.Network.Kubeovn.Networks.get_overlay_network
    kube_vim.Network.Kubeovn.Networks.find_network_object kube_vim.Common.find
    kube_vim.Common.filter kube_vim.K8s.Memory.objects is_missing
    kube_vim.Network.Kubeovn.Networks.get_underlay_network
no_network = refl

no_subnet_left : (subnet_deletion server (some "u") empty).0 ≡ err subnet_error
unfolding kube_vim.Network.Kubeovn.Subnets.delete_subnet kube_vim.Network.Kubeovn.Subnets.get_subnet
    kube_vim.Network.Kubeovn.Subnets.get_subnet_by_uid kube_vim.Common.find kube_vim.Common.filter
    kube_vim.K8s.Memory.objects kube_vim.Network.Kubeovn.Networks.delete_network
    kube_vim.Network.Kubeovn.Networks.get_network
    kube_vim.Network.Kubeovn.Networks.get_overlay_network
    kube_vim.Network.Kubeovn.Networks.find_network_object is_missing
    kube_vim.Network.Kubeovn.Networks.get_underlay_network
no_subnet_left = refl

network_missing : is_missing memory_errors network_error ≡ true
unfolding is_missing kube_vim.Network.Kubeovn.Networks.delete_network
    kube_vim.Network.Kubeovn.Networks.get_network
    kube_vim.Network.Kubeovn.Networks.get_overlay_network
    kube_vim.Network.Kubeovn.Networks.find_network_object kube_vim.Common.find
    kube_vim.Common.filter kube_vim.K8s.Memory.objects
    kube_vim.Network.Kubeovn.Networks.get_underlay_network
network_missing = refl

subnet_missing : is_missing memory_errors subnet_error ≡ true
unfolding is_missing kube_vim.Network.Kubeovn.Subnets.delete_subnet
    kube_vim.Network.Kubeovn.Subnets.get_subnet kube_vim.Network.Kubeovn.Subnets.get_subnet_by_uid
    kube_vim.Common.find kube_vim.Common.filter kube_vim.K8s.Memory.objects
    kube_vim.Network.Kubeovn.Networks.delete_network kube_vim.Network.Kubeovn.Networks.get_network
    kube_vim.Network.Kubeovn.Networks.get_overlay_network
    kube_vim.Network.Kubeovn.Networks.find_network_object
    kube_vim.Network.Kubeovn.Networks.get_underlay_network
subnet_missing = refl

subnet_plain : memory_errors.is_status subnet_error ≡ false
unfolding kube_vim.Errors.root kube_vim.Network.Kubeovn.Subnets.delete_subnet
    kube_vim.Network.Kubeovn.Subnets.get_subnet kube_vim.Network.Kubeovn.Subnets.get_subnet_by_uid
    kube_vim.Common.find kube_vim.Common.filter kube_vim.K8s.Memory.objects
    kube_vim.Network.Kubeovn.Networks.delete_network kube_vim.Network.Kubeovn.Networks.get_network
    kube_vim.Network.Kubeovn.Networks.get_overlay_network
    kube_vim.Network.Kubeovn.Networks.find_network_object is_missing
    kube_vim.Network.Kubeovn.Networks.get_underlay_network
subnet_plain = refl

terminate_network-NotFound_example :
    (error_conversion_interceptor memory_errors (terminate_network server (some "u")) empty).0
    ≡ err (status Code.not_found (not_found_anywhere server (some "u") empty subnet_error))
terminate_network-NotFound_example =
    terminate_network-NotFound server (some "u") empty memory_errors-LooksThrough
      memory_errors-OnlyForeign
      (record { error = network_error; raised = no_network; missing = network_missing })
      (record { error = subnet_error; raised = no_subnet_left; missing = subnet_missing })
      subnet_plain
