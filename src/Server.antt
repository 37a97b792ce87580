-- ===== src/Server.antt =====
-- internal/kubevim/server/grpc/vivnfm/server.go: the handlers of the vi-vnfm service, and the
-- interceptor of internal/kubevim/server/server.go that converts their errors. A request that
-- a handler does not test for nil is taken as its fields, since the gRPC server never passes nil.
pub mod Terminate
use kube_vim.Common.{
  String, ℕ, Bool, true, false, Option, none, some, List, [], ◌∷◌, ◌==◌, if◌then◌else◌,
  text_or_empty,
}
use kube_vim.Errors.{Error, Code, ForeignErrors, status, plain, wrap, is_missing}
use kube_vim.Errors.Grpc.{to_grpc_error, registered}
use kube_vim.Go.{
  Exec, Result, ok, err, panic, Reply, pure, raise, panics, context, lift, inspect, from_reply,
  ◌>>=◌, ◌>>◌,
}
use kube_vim.Network.Types.{
  Identifier, VirtualNetworkData, VirtualNetwork, NetworkSubnetData, NetworkSubnet, GetNetworkOpt,
  GetSubnetOpt,
}
use kube_vim.Network.Manager.{Manager}
use kube_vim.Flavour.Types.{FlavourManager, VirtualComputeFlavour}
use kube_vim.Image.Types.{NfvImageManager, SoftwareImage}
use kube_vim.Compute.Types.{ComputeManager, AllocateComputeRequest, VirtualCompute, GetComputeOpt}

-- `filter.FilterList` of github.com/kube-nfv/query-filter, at each type of item.
pub record Filters : Type 0 where
  pub images : List SoftwareImage → String → Reply (List SoftwareImage)
  pub computes : List VirtualCompute → String → Reply (List VirtualCompute)
  pub flavours : List VirtualComputeFlavour → String → Reply (List VirtualComputeFlavour)
  pub networks : List VirtualNetwork → String → Reply (List VirtualNetwork)
  pub subnets : List NetworkSubnet → String → Reply (List NetworkSubnet)

pub record ViVnfmServer (S : Type 0) : Type 0 where
  pub image_mgr : NfvImageManager S
  pub flavour_mgr : FlavourManager S
  pub network_mgr : Manager S
  pub compute_mgr : ComputeManager S
  pub filters : Filters
  pub errors : ForeignErrors

-- nfvcommon.NetworkResourceType; the enumeration is open
pub data NetworkResourceType : Type 0 where
  network subnet : NetworkResourceType
  unnamed : ℕ → NetworkResourceType

pub record AllocateNetworkRequest : Type 0 where
  pub network_resource_name : Option String
  pub network_resource_type : NetworkResourceType
  pub type_network_data : Option VirtualNetworkData
  pub type_subnet_data : Option NetworkSubnetData

pub record QueryNetworkRequest : Type 0 where
  pub network_resource_type : NetworkResourceType
  pub query_network_filter : Option String

-- The field of a response that is set.
pub data NetworkResource : Type 0 where
  network : VirtualNetwork → NetworkResource
  subnet : NetworkSubnet → NetworkResource

pub data NetworkResources : Type 0 where
  networks : List VirtualNetwork → NetworkResources
  subnets : List NetworkSubnet → NetworkResources

abbrev pub invalid : {S A : Type 0} → String → Exec S A
invalid text = raise (status Code.invalid_argument (plain text))

abbrev pub unimplemented : {S A : Type 0} → Exec S A
unimplemented = raise (status Code.unimplemented (plain "unsupported NetworkResourceType: %s"))

abbrev pub converted : {A : Type 0} → ForeignErrors → Result A → Result A
converted f (ok a) = ok a
converted f (err e) = elim (to_grpc_error f (registered f) (some e)) [
  | none ↦ err e
  | some grpc_err ↦ err grpc_err
]
converted f panic = panic

-- errorConversionInterceptor of internal/kubevim/server/server.go, around every handler
unfoldable pub error_conversion_interceptor : {S A : Type 0} → ForeignErrors → Exec S A → Exec S A
error_conversion_interceptor f handler s = let (resp, s') = handler s in (converted f resp, s')

module _ {S : Type 0} (server : ViVnfmServer S) where
  -- A list, its filter, and the texts of the two errors.
  abbrev pub filtered :
      {A : Type 0}
      → String
      → Exec S (List A)
      → String
      → (List A → String → Reply (List A))
      → Option String
      → Exec S (List A)
  filtered list_text list filter_text filter_list query = context list_text list >>= λ res.
      context filter_text (lift (from_reply (filter_list res (text_or_empty query))))

  unfoldable pub query_images : Option String → Exec S (List SoftwareImage)
  query_images query =
      filtered "query images" server.image_mgr.list_images "filter queried images"
        server.filters.images query

  unfoldable pub query_image : Option Identifier → Exec S SoftwareImage
  query_image id = server.image_mgr.get_image id

  unfoldable pub allocate_compute : Option AllocateComputeRequest → Exec S VirtualCompute
  allocate_compute req = server.compute_mgr.allocate_compute_resource req

  unfoldable pub query_compute : Option String → Exec S (List VirtualCompute)
  query_compute query =
      filtered "query compute resources" server.compute_mgr.list_compute_resources
        "filter queried compute resources" server.filters.computes query

  unfoldable pub terminate_compute : Option Identifier → Exec S (Option Identifier)
  terminate_compute id =
      context "delete virtualised compute resource '%s'"
        (server.compute_mgr.delete_compute_resource (GetComputeOpt.by_uid id ∷ []))
      >> pure id

  unfoldable pub create_compute_flavour : Option VirtualComputeFlavour → Exec S Identifier
  create_compute_flavour nfv_flavour = server.flavour_mgr.create_flavour nfv_flavour

  unfoldable pub query_compute_flavour : Option String → Exec S (List VirtualComputeFlavour)
  query_compute_flavour query =
      filtered "get flavours" server.flavour_mgr.get_flavours "filter queried flavours"
        server.filters.flavours query

  -- The text of the error reads the id through its pointer.
  abbrev pub flavour_not_deleted : Option Identifier → Error → Exec S (Unit {0})
  flavour_not_deleted none e = panics
  flavour_not_deleted (some id) e = raise (wrap "delete flavour '%s'" e)

  unfoldable pub delete_compute_flavour : Option Identifier → Exec S (Unit {0})
  delete_compute_flavour id =
      inspect (server.flavour_mgr.delete_flavour id) (λ done. pure tt) (flavour_not_deleted id)

  abbrev pub allocate_typed :
      NetworkResourceType
      → String
      → Option VirtualNetworkData
      → Option NetworkSubnetData
      → Exec S NetworkResource
  allocate_typed NetworkResourceType.network name none subnet_data =
      invalid "field typeNetworkData can't be empty with Network resource type"
  allocate_typed NetworkResourceType.network name (some network_data) subnet_data =
      server.network_mgr.create_network name (some network_data) >>= λ net.
      pure (NetworkResource.network net)
  allocate_typed NetworkResourceType.subnet name network_data none =
      invalid "field TypeSubnetData can't be empty with Subnet resource type"
  allocate_typed NetworkResourceType.subnet name network_data (some subnet_data) =
      server.network_mgr.create_subnet name (some subnet_data) >>= λ sub.
      pure (NetworkResource.subnet sub)
  allocate_typed (NetworkResourceType.unnamed n) name network_data subnet_data = unimplemented

  unfoldable pub allocate_network : Option AllocateNetworkRequest → Exec S NetworkResource
  allocate_network none = invalid "allocateNetworkRequest can't be empty"
  allocate_network (some req) =
      if text_or_empty req.network_resource_name == ""
      then invalid "networkResourceName can't be empty"
      else allocate_typed req.network_resource_type (text_or_empty req.network_resource_name)
          req.type_network_data req.type_subnet_data

  abbrev pub query_typed : NetworkResourceType → Option String → Exec S NetworkResources
  query_typed NetworkResourceType.network query =
      filtered "list networks" server.network_mgr.list_networks "filter networks"
        server.filters.networks query
      >>= λ nets. pure (NetworkResources.networks nets)
  query_typed NetworkResourceType.subnet query =
      filtered "list subnets" server.network_mgr.list_subnets "filter subnets"
        server.filters.subnets query
      >>= λ subs. pure (NetworkResources.subnets subs)
  query_typed (NetworkResourceType.unnamed n) query = unimplemented

  unfoldable pub query_network : Option QueryNetworkRequest → Exec S NetworkResources
  query_network none = invalid "queryNetworkRequest can't be empty"
  query_network (some req) = query_typed req.network_resource_type req.query_network_filter

  abbrev pub subnet_not_deleted : Error → Exec S (Option Identifier)
  subnet_not_deleted e =
      if is_missing server.errors e
      then raise (wrap "network resource '%s' not found in networks or subnets" e)
      else raise (wrap "delete subnet '%s'" e)

  -- The id may be one of a network or of a subnet.
  unfoldable pub terminate_network : Option Identifier → Exec S (Option Identifier)
  terminate_network id =
      inspect (server.network_mgr.delete_network (GetNetworkOpt.by_uid id ∷ [])) (λ done. pure id)
        (λ e.
          if is_missing server.errors e
          then inspect (server.network_mgr.delete_subnet (GetSubnetOpt.by_uid id ∷ []))
              (λ done. pure id) subnet_not_deleted
          else raise (wrap "delete network '%s'" e))
