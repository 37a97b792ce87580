-- ===== src/K8s/Memory/Laws.antt =====
-- The cluster in memory meets the laws of `K8s.Lawful`.
use mathlib.Core.Path.{subst}
use kube_vim.Common.{
  true, false, none, some, List, [], ◌∷◌, ◌≡◌, refl, ◌∙◌, ◌↔◌, inl, inr, arith, find, find-holds,
  if◌then◌else◌, eq_iff, ◌+◌,
}
use kube_vim.Errors.{Error}
use kube_vim.Go.{answer, refuse}
use kube_vim.K8s.Objects.{Kind, Object}
use kube_vim.K8s.Client.{is_cached, ObjectKey, same_key, key_of}
use kube_vim.K8s.Lawful.{same_ref}
use kube_vim.K8s.Memory.{
  objects, objects-with_objects, objects-with_other, Kind-cases, at_key, without, Cluster,
  stored_in, create_in, get_in, cached_get, cache_namespace, write, filled, exists_error,
}

pub same_key_iff : (a b : ObjectKey) → (same_key a b ≡ true) ↔ (a ≡ b)
unfolding same_key
same_key_iff a b = ground (arith, eq_iff a.namespace b.namespace, eq_iff a.name b.name)

pub find-without :
    {k : Kind} (a b : ObjectKey) (xs : List (Object k))
    → find (at_key b) (without a xs) ≡ (if same_key a b then none else find (at_key b) xs)
unfolding find without
find-without a b [] = ground arith
find-without a b (o ∷ xs) = ground (
  arith,
  find-without a b xs,
  same_key_iff a b,
  same_key_iff (key_of o.meta) a,
  same_key_iff (key_of o.meta) b,
)

same_ref_self : (k : Kind) (a b : ObjectKey) → same_ref k a k b ≡ false → same_key a b ≡ false
same_ref_self k a b h = ground arith

-- A write to the objects of one kind that changes only what is found under `key`.
pub stored-write_other :
    (k : Kind) (xs : List (Object k)) (s : Cluster) (key : ObjectKey)
    → ((other : ObjectKey)
        → same_key key other ≡ false
        → find (at_key other) xs ≡ find (at_key other) (objects k s.cells))
    → (j : Kind) (other : ObjectKey) → same_ref k key j other ≡ false
    → stored_in (write k xs s) j other ≡ stored_in s j other
stored-write_other k xs s key keeps j other ne = elim (Kind-cases k j) [
  | inl differ ↦ rw (objects-with_other k j xs s.cells differ)
  | inr same ↦
      subst
        (λ j'.
          (other' : ObjectKey)
          → same_ref k key j' other' ≡ false
          → stored_in (write k xs s) j' other' ≡ stored_in s j' other')
        same
        (λ other' ne'.
          rw (objects-with_objects k xs s.cells) (keeps other' (same_ref_self k key other' ne')))
        other ne
]

pub stored-write :
    (k : Kind) (xs : List (Object k)) (s : Cluster) (key : ObjectKey)
    → stored_in (write k xs s) k key ≡ find (at_key key) xs
stored-write k xs s key = rw (objects-with_objects k xs s.cells)

same_key_self : (a : ObjectKey) → same_key a a ≡ true
same_key_self a = (same_key_iff a a).1 refl

pub find-cons_other :
    {k : Kind} (o : Object k) (xs : List (Object k)) (other : ObjectKey)
    → same_key (key_of o.meta) other ≡ false
    → find (at_key other) (o ∷ xs) ≡ find (at_key other) xs
unfolding find
find-cons_other o xs other ne = rw ne

pub find-cons_self :
    {k : Kind} (o : Object k) (xs : List (Object k))
    → find (at_key (key_of o.meta)) (o ∷ xs) ≡ some o
unfolding find
find-cons_self o xs = rw (same_key_self (key_of o.meta))

pub find-replaced :
    {k : Kind} (o : Object k) (xs : List (Object k)) (other : ObjectKey)
    → same_key (key_of o.meta) other ≡ false
    → find (at_key other) (o ∷ without (key_of o.meta) xs) ≡ find (at_key other) xs
find-replaced o xs other ne =
    find-cons_other o (without (key_of o.meta) xs) other ne
    ∙ find-without (key_of o.meta) other xs
    ∙ rw ne

pub find-removed :
    {k : Kind} (key : ObjectKey) (xs : List (Object k)) (other : ObjectKey)
    → same_key key other ≡ false
    → find (at_key other) (without key xs) ≡ find (at_key other) xs
find-removed key xs other ne = find-without key other xs ∙ rw ne

module _ (k : Kind) where
  pub stored_in-key :
      (s : Cluster) (key : ObjectKey) (o : Object k)
      → stored_in s k key ≡ some o
      → key_of o.meta ≡ key
  stored_in-key s key o h =
      (same_key_iff (key_of o.meta) key).0 (find-holds (at_key key) (objects k s.cells) o h)

  pub get_in-found :
      (key : ObjectKey) (s : Cluster) (o : Object k)
      → (get_in k key s).0 ≡ answer o
      → stored_in s k key ≡ some o
  unfolding get_in
  get_in-found key s o h = ground arith

  pub get_in-missing :
      (key : ObjectKey) (s : Cluster) (e : Error)
      → (get_in k key s).0 ≡ refuse e
      → stored_in s k key ≡ none
  unfolding get_in
  get_in-missing key s e h = ground arith

  pub get_in-state : (key : ObjectKey) (s : Cluster) → (get_in k key s).1 ≡ s
  unfolding get_in
  get_in-state key s = ground arith

  pub cached_get-found :
      (key : ObjectKey) (s : Cluster) (o : Object k)
      → (cached_get k key s).0 ≡ answer o
      → stored_in s k key ≡ some o
  unfolding cached_get
  cached_get-found key s o h = ground arith

  pub cached_get-missing :
      (key : ObjectKey) (s : Cluster) (e : Error) (o : Object k)
      → (cached_get k key s).0 ≡ refuse e
      → stored_in s k key ≡ some o
      → is_cached cache_namespace k o.meta ≡ false
  unfolding cached_get
  cached_get-missing key s e o h present = ground (arith, h, present)

  pub cached_get-state : (key : ObjectKey) (s : Cluster) → (cached_get k key s).1 ≡ s
  unfolding cached_get
  cached_get-state key s = ground arith

  pub create_in-missing :
      (o : Object k) (s : Cluster)
      → stored_in s k (key_of o.meta) ≡ none
      → create_in k o s ≡ (
        answer (record o { meta = filled s.next o.meta }),
        record (write k (record o { meta = filled s.next o.meta } ∷ objects k s.cells) s) {
          next = s.next + 1;
        },
      )
  unfolding create_in
  create_in-missing o s h = rw (create_in, h)

  pub create_in-exists :
      (o : Object k) (s : Cluster) (old : Object k)
      → stored_in s k (key_of o.meta) ≡ some old
      → create_in k o s ≡ (refuse exists_error, s)
  unfolding create_in
  create_in-exists o s old h = rw (create_in, h)
