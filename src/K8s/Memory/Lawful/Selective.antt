-- ===== src/K8s/Memory/Lawful/Selective.antt =====
-- DeleteAllOf of the cluster in memory meets the laws of `K8s.Selective`.
use kube_vim.Common.{
  Bool, true, Option, none, some, List, [], ◌∷◌, find, filter, not, ◌≡◌, refl, ap, ◌∙◌, arith,
  if◌then◌else◌,
}
use kube_vim.K8s.Objects.{Kind, Object}
use kube_vim.K8s.Client.{ObjectKey, ListOptions, key_of, in_scope}
use kube_vim.K8s.Selective.{IsSelective, unselected}
use kube_vim.K8s.Memory.{at_key, objects, objects-with_other, stored_in, survives, delete_all_in}
use kube_vim.K8s.Memory.Laws.{same_key_iff, stored-write}
use kube_vim.K8s.Memory.Lawful.{memory_lawful}

find-filter_key :
    {k : Kind} (keep : ObjectKey → Bool) (key : ObjectKey) (xs : List (Object k))
    → find (at_key key) (filter (λ o. keep (key_of o.meta)) xs)
      ≡ (if keep key then find (at_key key) xs else none)
unfolding find filter
find-filter_key keep key [] = ground arith
find-filter_key keep key (o ∷ xs) =
    ground (arith, find-filter_key keep key xs, same_key_iff (key_of o.meta) key)

survives-unselected :
    {k : Kind} (opts : ListOptions) (found : Option (Object k))
    → (if elim found [ none ↦ true | some o ↦ not (in_scope opts o) ] then found else none)
      ≡ unselected opts found
survives-unselected opts none = refl
survives-unselected opts (some o) = ground arith

pub memory_selective : IsSelective memory_lawful
unfolding delete_all_in memory_lawful
memory_selective = record {
  deleted = λ k opts s done key free h.
      stored-write k _ s key
      ∙ find-filter_key (survives k opts s) key (objects k s.cells)
      ∙ survives-unselected opts (stored_in s k key);
  other_kind = λ k opts s j other differ.
      ap (λ xs. find (at_key other) xs) (objects-with_other k j _ s.cells differ);
}
