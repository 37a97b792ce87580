-- ===== src/K8s/Objects.antt =====
-- The fields of the Kubernetes objects that kube-vim reads or writes.
use kube_vim.Common.{
  String, ℕ, Bool, false, Option, none, some, List, Map, ◌==◌, ◌&&◌, not, is_some,
}
use kube_vim.Common.Maps
use kube_vim.K8s.Kubevirt.{
  VmSpec, VmiSpec, PodSpec, SecretSpec, VolumeImportSpec, DataVolumeSpec, StorageClassSpec,
}

pub record ObjectMeta : Type 0 where
  pub namespace : String
  pub name : String
  pub uid : String
  pub resource_version : String
  -- `none` is the zero time
  pub created : Option ℕ
  -- set while finalizers hold an object whose deletion was asked for
  pub deletion_timestamp : Option ℕ
  pub labels : Map String
  pub annotations : Map String

-- kubeovn/v1: a Vpc or a Vlan lists the subnets that the kube-ovn controller found for it
pub record VpcSpec : Type 0 where
  pub status_subnets : List String

pub record VlanSpec : Type 0 where
  pub id : ℕ
  pub provider : String
  pub status_subnets : List String

pub record SubnetSpec : Type 0 where
  pub vpc : String
  pub vlan : String
  pub protocol : String
  pub cidr_block : String
  pub gateway : String
  pub gateway_type : String
  pub provider : String
  pub enable_dhcp : Bool
  pub is_default : Bool
  pub nat_outgoing : Bool
  pub exclude_ips : List String

pub record NetAttachSpec : Type 0 where
  pub config : String

-- instancetype/v1beta1; a `resource.Quantity` is kept as its text
pub record InstancetypeSpec : Type 0 where
  pub cpu_guest : ℕ
  pub memory_guest : String

pub record PreferenceSpec : Type 0 where

pub data Kind : Type 0 where
  vpc vlan subnet net_attach instancetype preference : Kind
  vm vmi pod secret volume_import data_volume storage_class : Kind

abbrev pub Spec : Kind → Type 0
Spec Kind.vpc = VpcSpec
Spec Kind.vlan = VlanSpec
Spec Kind.subnet = SubnetSpec
Spec Kind.net_attach = NetAttachSpec
Spec Kind.instancetype = InstancetypeSpec
Spec Kind.preference = PreferenceSpec
Spec Kind.vm = VmSpec
Spec Kind.vmi = VmiSpec
Spec Kind.pod = PodSpec
Spec Kind.secret = SecretSpec
Spec Kind.volume_import = VolumeImportSpec
Spec Kind.data_volume = DataVolumeSpec
Spec Kind.storage_class = StorageClassSpec

-- The place of a kind in the list above: two kinds are the same if their places are.
abbrev pub kind_index : Kind → ℕ
kind_index Kind.vpc = 0
kind_index Kind.vlan = 1
kind_index Kind.subnet = 2
kind_index Kind.net_attach = 3
kind_index Kind.instancetype = 4
kind_index Kind.preference = 5
kind_index Kind.vm = 6
kind_index Kind.vmi = 7
kind_index Kind.pod = 8
kind_index Kind.secret = 9
kind_index Kind.volume_import = 10
kind_index Kind.data_volume = 11
kind_index Kind.storage_class = 12

pub record Object (k : Kind) : Type 0 where
  pub meta : ObjectMeta
  pub spec : Spec k

-- The metadata of an object that the code builds and the apiserver has not seen.
unfoldable pub new_meta : String → String → Map String → Map String → ObjectMeta
new_meta namespace name labels annotations = record {
  namespace = namespace;
  name = name;
  uid = "";
  resource_version = "";
  created = none;
  deletion_timestamp = none;
  labels = labels;
  annotations = annotations;
}

-- config/default.go
abbrev pub k8s_managed_by_label : String
k8s_managed_by_label = "app.kubernetes.io/managed-by"

abbrev pub kube_nfv_name : String
kube_nfv_name = "kube-nfv"

unfoldable pub is_object_instantiated : ObjectMeta → Bool
is_object_instantiated obj =
    not (obj.resource_version == "") && not (obj.uid == "") && is_some obj.created

unfoldable pub is_managed_label : Option String → Bool
is_managed_label none = false
is_managed_label (some managed_by) = managed_by == kube_nfv_name

unfoldable pub is_object_managed_by_kube_nfv : ObjectMeta → Bool
unfolding is_managed_label
is_object_managed_by_kube_nfv obj = is_managed_label (Maps.lookup k8s_managed_by_label obj.labels)

abbrev pub set_label : (k : Kind) → String → String → Object k → Object k
set_label k key value o = record o {
  meta = record o.meta { labels = Maps.insert key value o.meta.labels };
}
