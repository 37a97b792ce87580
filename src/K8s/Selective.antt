-- ===== src/K8s/Selective.antt =====
-- What the proofs ask of DeleteAllOf: the objects that the options select are deleted, if their kind
-- has no finalizers, and no other kind changes. Nobody else writes meanwhile.
use kube_vim.Common.{Option, none, some, false, ◌≡◌, if◌then◌else◌, num_eq}
use kube_vim.Errors.{ForeignErrors}
use kube_vim.Go.{answer}
use kube_vim.K8s.Objects.{Kind, kind_index, Object}
use kube_vim.K8s.Client.{Client, ObjectKey, ListOptions, in_scope}
use kube_vim.K8s.Lawful.{IsLawful, has_finalizers}

-- The object that stands under a key, unless the options select it.
abbrev pub unselected : {k : Kind} → ListOptions → Option (Object k) → Option (Object k)
unselected opts none = none
unselected opts (some o) = if in_scope opts o then none else some o

pub record IsSelective {S : Type 0} {c : Client S} {f : ForeignErrors} (l : IsLawful c f)
    : Type 0 where
  pub deleted :
      (k : Kind) (opts : ListOptions) (s : S) (done : Unit {0}) (key : ObjectKey)
      → has_finalizers k ≡ false
      → (c.delete_all_of k opts s).0 ≡ answer done
      → l.stored (c.delete_all_of k opts s).1 k key ≡ unselected opts (l.stored s k key)
  pub other_kind :
      (k : Kind) (opts : ListOptions) (s : S) (j : Kind) (other : ObjectKey)
      → num_eq (kind_index k) (kind_index j) ≡ false
      → l.stored (c.delete_all_of k opts s).1 j other ≡ l.stored s j other
