-- ===== src/K8s/Lawful.antt =====
-- What the proofs ask of the Kubernetes API: the documented effect of each call on the stored
-- objects. Any call may be refused; a refused write has stored nothing. Nobody else writes between
-- two calls of one handler.
use kube_vim.Common.{
  String, is_some, Option, none, some, Bool, true, false, ◌≡◌, ◌&&◌, num_eq, eq_iff, arith,
}
use kube_vim.Errors.{Error, ForeignErrors}
use kube_vim.Go.{answer, refuse}
use kube_vim.K8s.Objects.{Kind, kind_index, Object}
use kube_vim.K8s.Client.{Client, ObjectKey, same_key, key_of, is_cached}

abbrev pub same_ref : Kind → ObjectKey → Kind → ObjectKey → Bool
same_ref k a j b = num_eq (kind_index k) (kind_index j) && same_key a b

-- The kinds whose controllers hold a deleted object by finalizers until they have cleaned up, and
-- pods, which get time to stop.
abbrev pub has_finalizers : Kind → Bool
has_finalizers Kind.net_attach = false
has_finalizers Kind.instancetype = false
has_finalizers Kind.preference = false
has_finalizers Kind.secret = false
has_finalizers Kind.volume_import = false
has_finalizers _ = true

-- What an answered deletion leaves under the key: nothing, or an object that is marked as deleted.
abbrev pub IsGoing : {k : Kind} → Option (Object k) → Type 0
IsGoing none = Unit {0}
IsGoing (some o) = is_some o.meta.deletion_timestamp ≡ true

pub record IsLawful {S : Type 0} (c : Client S) (f : ForeignErrors) : Type 0 where
  pub stored : S → (k : Kind) → ObjectKey → Option (Object k)
  -- an object is stored under its own key
  pub stored_key :
      (s : S) (k : Kind) (key : ObjectKey) (o : Object k)
      → stored s k key ≡ some o
      → key_of o.meta ≡ key
  -- the uncached reader
  pub live_get_keeps :
      (k : Kind) (key : ObjectKey) (s : S) (j : Kind) (other : ObjectKey)
      → stored (c.live_get k key s).1 j other ≡ stored s j other
  pub live_get_found :
      (k : Kind) (key : ObjectKey) (s : S) (o : Object k)
      → (c.live_get k key s).0 ≡ answer o
      → stored s k key ≡ some o
  pub live_get_missing :
      (k : Kind) (key : ObjectKey) (s : S) (e : Error)
      → (c.live_get k key s).0 ≡ refuse e
      → f.is_not_found e ≡ true
      → stored s k key ≡ none
  -- the apiserver keeps the key, the labels, the annotations and the spec of a new object
  pub create_stores :
      (k : Kind) (o : Object k) (s : S) (o' : Object k)
      → (c.create k o s).0 ≡ answer o'
      → stored (c.create k o s).1 k (key_of o.meta) ≡ some o'
  pub create_labels :
      (k : Kind) (o : Object k) (s : S) (o' : Object k)
      → (c.create k o s).0 ≡ answer o'
      → o'.meta.labels ≡ o.meta.labels
  pub create_annotations :
      (k : Kind) (o : Object k) (s : S) (o' : Object k)
      → (c.create k o s).0 ≡ answer o'
      → o'.meta.annotations ≡ o.meta.annotations
  pub create_key :
      (k : Kind) (o : Object k) (s : S) (o' : Object k)
      → (c.create k o s).0 ≡ answer o'
      → key_of o'.meta ≡ key_of o.meta
  pub create_spec :
      (k : Kind) (o : Object k) (s : S) (o' : Object k)
      → (c.create k o s).0 ≡ answer o'
      → o'.spec ≡ o.spec
  pub create_other :
      (k : Kind) (o : Object k) (s : S) (j : Kind) (other : ObjectKey)
      → same_ref k (key_of o.meta) j other ≡ false
      → stored (c.create k o s).1 j other ≡ stored s j other
  pub create_refused :
      (k : Kind) (o : Object k) (s : S) (e : Error) (j : Kind) (other : ObjectKey)
      → (c.create k o s).0 ≡ refuse e
      → stored (c.create k o s).1 j other ≡ stored s j other
  pub create_exists :
      (k : Kind) (o : Object k) (s : S) (e : Error)
      → (c.create k o s).0 ≡ refuse e
      → f.is_already_exists e ≡ true
      → (old : Object k) × (stored s k (key_of o.meta) ≡ some old)
  -- a merge patch from the stored object
  pub patch_stores :
      (k : Kind) (o : Object k) (s : S) (o' : Object k)
      → (c.patch_labels k o s).0 ≡ answer o'
      → stored (c.patch_labels k o s).1 k (key_of o.meta) ≡ some o'
  pub patch_labels :
      (k : Kind) (o : Object k) (s : S) (o' : Object k)
      → (c.patch_labels k o s).0 ≡ answer o'
      → o'.meta.labels ≡ o.meta.labels
  pub patch_spec :
      (k : Kind) (o : Object k) (s : S) (o' : Object k)
      → (c.patch_labels k o s).0 ≡ answer o'
      → o'.spec ≡ o.spec
  pub patch_other :
      (k : Kind) (o : Object k) (s : S) (j : Kind) (other : ObjectKey)
      → same_ref k (key_of o.meta) j other ≡ false
      → stored (c.patch_labels k o s).1 j other ≡ stored s j other
  pub patch_refused :
      (k : Kind) (o : Object k) (s : S) (e : Error) (j : Kind) (other : ObjectKey)
      → (c.patch_labels k o s).0 ≡ refuse e
      → stored (c.patch_labels k o s).1 j other ≡ stored s j other
  pub delete_removes :
      (k : Kind) (key : ObjectKey) (s : S) (done : Unit {0})
      → has_finalizers k ≡ false
      → (c.delete k key s).0 ≡ answer done
      → stored (c.delete k key s).1 k key ≡ none
  pub delete_marks :
      (k : Kind) (key : ObjectKey) (s : S) (done : Unit {0})
      → (c.delete k key s).0 ≡ answer done
      → IsGoing (stored (c.delete k key s).1 k key)
  pub delete_missing :
      (k : Kind) (key : ObjectKey) (s : S) (e : Error)
      → (c.delete k key s).0 ≡ refuse e
      → f.is_not_found e ≡ true
      → stored s k key ≡ none
  pub delete_other :
      (k : Kind) (key : ObjectKey) (s : S) (j : Kind) (other : ObjectKey)
      → same_ref k key j other ≡ false
      → stored (c.delete k key s).1 j other ≡ stored s j other
  pub delete_refused :
      (k : Kind) (key : ObjectKey) (s : S) (e : Error) (j : Kind) (other : ObjectKey)
      → (c.delete k key s).0 ≡ refuse e
      → stored (c.delete k key s).1 j other ≡ stored s j other

-- The cache of `get` has caught up with the apiserver, as far as it holds objects at all: what it
-- holds is stored, and what it does not find is not stored, or is filtered out of it.
pub record IsSynced {S : Type 0} {c : Client S} {f : ForeignErrors} (l : IsLawful c f)
    (namespace : String) : Type 0 where
  pub get_keeps :
      (k : Kind) (key : ObjectKey) (s : S) (j : Kind) (other : ObjectKey)
      → l.stored (c.get k key s).1 j other ≡ l.stored s j other
  pub get_found :
      (k : Kind) (key : ObjectKey) (s : S) (o : Object k)
      → (c.get k key s).0 ≡ answer o
      → l.stored s k key ≡ some o
  pub get_missing :
      (k : Kind) (key : ObjectKey) (s : S) (e : Error) (o : Object k)
      → (c.get k key s).0 ≡ refuse e
      → f.is_not_found e ≡ true
      → l.stored s k key ≡ some o
      → is_cached namespace k o.meta ≡ false

pub same_key_refl : (a : ObjectKey) → same_key a a ≡ true
unfolding same_key
same_key_refl a = ground (arith, eq_iff a.namespace a.namespace, eq_iff a.name a.name)
