-- ===== src/K8s/Client.antt =====
-- client.Client and client.Reader: one operation for every kind of object.
use kube_vim.Common.Maps
use kube_vim.Common.{
  String, Option, none, some, List, Map, Bool, true, false, ◌==◌, ◌&&◌, ◌||◌, not, ◌≡◌, refl,
}
use kube_vim.Go.{Call}
use kube_vim.K8s.Objects.{Kind, Object, ObjectMeta, is_object_managed_by_kube_nfv}

-- client.ObjectKey; the namespace of a cluster-scoped object is ""
pub record ObjectKey : Type 0 where
  pub namespace : String
  pub name : String

unfoldable pub same_key : ObjectKey → ObjectKey → Bool
same_key a b = a.namespace == b.namespace && a.name == b.name

unfoldable pub key_of : ObjectMeta → ObjectKey
key_of m = record { namespace = m.namespace; name = m.name }

-- client.InNamespace and client.MatchingLabels
pub record ListOptions : Type 0 where
  pub in_namespace : Option String
  pub matching_labels : Map String

abbrev pub in_scope : {k : Kind} → ListOptions → Object k → Bool
in_scope opts o =
    elim opts.in_namespace [ none ↦ true | some ns ↦ o.meta.namespace == ns ]
    && Maps.matches opts.matching_labels o.meta.labels

abbrev pub is_cluster_scoped : Kind → Bool
is_cluster_scoped Kind.vpc = true
is_cluster_scoped Kind.vlan = true
is_cluster_scoped Kind.subnet = true
is_cluster_scoped Kind.storage_class = true
is_cluster_scoped _ = false

-- Pods have no label filter, and storage classes are not read through the cache.
abbrev pub needs_label : Kind → Bool
needs_label Kind.pod = false
needs_label Kind.storage_class = false
needs_label _ = true

-- internal/k8s/cluster.go: whether the reads of the client see an object, once it has reached the
-- cache. The default selector and namespace filter what the cache holds.
unfoldable pub is_cached : String → (k : Kind) → ObjectMeta → Bool
is_cached namespace k meta =
    (is_cluster_scoped k || (meta.namespace == namespace))
    && (not (needs_label k) || is_object_managed_by_kube_nfv meta)

-- The filter reads the namespace and the labels.
pub is_cached-like :
    (namespace : String) (k : Kind) (a b : ObjectMeta)
    → a.namespace ≡ b.namespace
    → a.labels ≡ b.labels
    → is_cached namespace k a ≡ is_cached namespace k b
unfolding is_cached is_object_managed_by_kube_nfv
is_cached-like namespace k a b h g = rw (h, g) refl

-- `get` and `list` may be served from a cache. `live_get` is the uncached reader of the code.
-- A write returns the object as the apiserver filled it in.
pub record Client (S : Type 0) : Type 0 where
  pub get : (k : Kind) → ObjectKey → Call S (Object k)
  pub list : (k : Kind) → ListOptions → Call S (List (Object k))
  pub live_get : (k : Kind) → ObjectKey → Call S (Object k)
  pub create : (k : Kind) → Object k → Call S (Object k)
  pub update : (k : Kind) → Object k → Call S (Object k)
  -- `Patch(obj, MergeFrom(base))`, where the code changed labels only
  pub patch_labels : (k : Kind) → Object k → Call S (Object k)
  pub delete : (k : Kind) → ObjectKey → Call S (Unit {0})
  pub delete_all_of : (k : Kind) → ListOptions → Call S (Unit {0})
