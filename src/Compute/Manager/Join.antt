-- ===== src/Compute/Manager/Join.antt =====
-- ListComputeResources of internal/kubevim/compute/kubevirt/manager.go joins machines, VMIs and pods
-- by maps. Here it is compared with a search in the lists for each machine.
use kube_vim.Common.{
  String, Bool, true, false, Option, none, some, List, [], ◌∷◌, ◌++◌, Map, find, filter, ◌==◌, ◌≡◌,
  refl, ap, ◌∙◌, arith, eq_iff, if◌then◌else◌,
}
use kube_vim.Common.Maps.{lookup, insert, lookup-insert}
use kube_vim.Go.{Exec, answer, call, ◌>>=◌}
use kube_vim.Go.Laws.{bind-same, call-eq-ok, context-eq-ok}
use kube_vim.K8s.Objects.{Kind, Object}
use kube_vim.Compute.Types.{VirtualCompute, KubevirtApi}
use kube_vim.Compute.Manager.{
  ComputeEnv, managed, index_by_name, pods_at, add_pod, index_pods, join_vms, list_vms, list_vmis,
  list_pods, list_compute_resources,
}

-- The apiserver keeps one VMI of a name in a namespace.
abbrev pub DistinctNames : List (Object Kind.vmi) → Type 0
DistinctNames [] = Unit
DistinctNames (vmi ∷ vmis) =
    (find (λ v. v.meta.name == vmi.meta.name) vmis ≡ none) × DistinctNames vmis

abbrev pub vmi_named : List (Object Kind.vmi) → String → Option (Object Kind.vmi)
vmi_named vmis name = find (λ v. v.meta.name == name) vmis

abbrev pub labelled_by : Option String → String → Bool
labelled_by none uid = false
labelled_by (some label) uid = label == uid

-- The pods with the label of a VMI.
abbrev pub pods_of : KubevirtApi → List (Object Kind.pod) → String → List (Object Kind.pod)
pods_of api pods uid =
    filter (λ pod. labelled_by (lookup api.created_by_label pod.meta.labels) uid) pods

abbrev or_found : Option (Object Kind.vmi) → Option (Object Kind.vmi) → Option (Object Kind.vmi)
or_found none old = old
or_found (some vmi) old = some vmi

or_none : (found : Option (Object Kind.vmi)) → or_found found none ≡ found
or_none none = refl
or_none (some vmi) = refl

lookup-index_by_name :
    (name : String) (vmis : List (Object Kind.vmi)) (index : Map (Object Kind.vmi))
    → DistinctNames vmis
    → lookup name (index_by_name vmis index) ≡ or_found (vmi_named vmis name) (lookup name index)
unfolding index_by_name find
lookup-index_by_name name [] index distinct = refl
lookup-index_by_name name (vmi ∷ vmis) index (fresh, distinct) = ground (
  arith,
  lookup-index_by_name name vmis (insert vmi.meta.name vmi index) distinct,
  lookup-insert vmi.meta.name name vmi index,
  eq_iff vmi.meta.name name,
)

append_assoc : {A : Type 0} (xs ys zs : List A) → (xs ++ ys) ++ zs ≡ xs ++ (ys ++ zs)
append_assoc [] ys zs = refl
append_assoc (x ∷ xs) ys zs = ap (λ l. x ∷ l) (append_assoc xs ys zs)

append_nil : {A : Type 0} (xs : List A) → xs ≡ xs ++ []
append_nil [] = refl
append_nil (x ∷ xs) = ap (λ l. x ∷ l) (append_nil xs)

pods_at-add_pod :
    (uid : String) (label : Option String) (pod : Object Kind.pod)
    (index : Map (List (Object Kind.pod)))
    → pods_at uid (add_pod label pod index)
      ≡ (if labelled_by label uid then pods_at uid index ++ (pod ∷ []) else pods_at uid index)
pods_at-add_pod uid none pod index = refl
pods_at-add_pod uid (some label) pod index =
    ground
      (arith, lookup-insert label uid (pods_at label index ++ (pod ∷ [])) index, eq_iff label uid)

append_if :
    {A : Type 0} (b : Bool) (xs ys : List A) (x : A)
    → (if b then xs ++ (x ∷ []) else xs) ++ ys ≡ xs ++ (if b then x ∷ ys else ys)
append_if true xs ys x = append_assoc xs (x ∷ []) ys
append_if false xs ys x = refl

pods_at-index_pods :
    (api : KubevirtApi) (uid : String) (pods : List (Object Kind.pod))
    (index : Map (List (Object Kind.pod)))
    → pods_at uid (index_pods api pods index) ≡ pods_at uid index ++ pods_of api pods uid
unfolding index_pods filter
pods_at-index_pods api uid [] index = append_nil (pods_at uid index)
pods_at-index_pods api uid (pod ∷ pods) index =
    let label = lookup api.created_by_label pod.meta.labels in
    pods_at-index_pods api uid pods (add_pod label pod index)
    ∙ ap (λ l. l ++ pods_of api pods uid) (pods_at-add_pod uid label pod index)
    ∙ append_if (labelled_by label uid) (pods_at uid index) (pods_of api pods uid) pod

module _ {S : Type 0} (env : ComputeEnv S) where
  -- For each machine, the VMI of its name and the pods of the VMI, sought in the lists.
  abbrev pub list_by_search : Exec S (List VirtualCompute)
  list_by_search = list_vms env >>= λ vms. list_vmis env >>= λ vmis.
      list_pods env >>= λ pods. join_vms env (vmi_named vmis) (pods_of env.api pods) vms []

  -- The list of VMIs, asked for in this state, names none twice.
  pub record AreDistinct (s : S) : Type 0 where
    pub at :
        (vmis : List (Object Kind.vmi))
        → (env.client.list Kind.vmi (managed env) s).0 ≡ answer vmis
        → DistinctNames vmis

  joined_by_search :
      (vms : List (Object Kind.vm)) (vmis : List (Object Kind.vmi)) (pods : List (Object Kind.pod))
      (s : S)
      → DistinctNames vmis
      → join_vms env
          (λ name. lookup name (index_by_name vmis []))
          (λ uid. pods_at uid (index_pods env.api pods []))
          vms
          []
          s
        ≡ join_vms env (vmi_named vmis) (pods_of env.api pods) vms [] s
  unfolding lookup
  joined_by_search vms vmis pods s distinct =
      let by_name = λ (name : String).
        lookup-index_by_name name vmis [] distinct ∙ or_none (vmi_named vmis name) in
      λ i.
        join_vms env (λ name. by_name name i) (λ uid. pods_at-index_pods env.api uid pods [] i) vms
          [] s

  -- Where the list of VMIs names none twice, the list of machines, which is joined by maps, is the
  -- one that a search of the lists for each machine gives: the VMI of its name, and the pods with
  -- the label of that VMI.
  pub list_compute_resources-by_search :
      (s : S) → AreDistinct (list_vms env s).1 → list_compute_resources env s ≡ list_by_search s
  unfolding list_compute_resources
  list_compute_resources-by_search s distinct = bind-same (list_vms env) _ _ s λ vms h.
      bind-same (list_vmis env) _ _ (list_vms env s).1 λ vmis h'.
        bind-same (list_pods env) _ _ (list_vmis env (list_vms env s).1).1 λ pods h''.
          joined_by_search vms vmis pods _ (
            distinct.at vmis (
              call-eq-ok (env.client.list Kind.vmi (managed env)) (list_vms env s).1 vmis (
                context-eq-ok "list kubevirt VirtualMachineInstances"
                  (call (env.client.list Kind.vmi (managed env))) (list_vms env s).1 vmis h')))
