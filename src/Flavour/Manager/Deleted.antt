-- ===== src/Flavour/Manager/Deleted.antt =====
-- What DeleteFlavour of internal/kubevim/flavour/kubevirt/manager.go takes out of the store.
use kube_vim.Common.{
  false, Option, some, ◌≡◌, refl, ap, ◌∙◌, arith, num_eq, text_or_empty, inl, inr,
}
use kube_vim.Errors.{ForeignErrors}
use kube_vim.Go.{ok, answer}
use kube_vim.Go.Laws.{Reply-cases}
use kube_vim.K8s.Objects.{Kind, kind_index}
use kube_vim.K8s.Client.{ObjectKey, ListOptions}
use kube_vim.K8s.Lawful.{IsLawful}
use kube_vim.K8s.Selective.{IsSelective, unselected}
use kube_vim.Network.Types.{Identifier}
use kube_vim.Flavour.Convert.{flavour_labels}
use kube_vim.Flavour.Manager.{FlavourEnv, delete_flavour}

module _ {S : Type 0} (env : FlavourEnv S) {errors : ForeignErrors} (l : IsLawful env.client errors)
    (selective : IsSelective l) where
  -- The objects of kube-nfv in the namespace with the label of the flavour.
  abbrev pub of_deleted : Option Identifier → ListOptions
  of_deleted id = record {
    in_namespace = some env.namespace;
    matching_labels = flavour_labels (text_or_empty id);
  }

  pub record FlavourGone (id : Option Identifier) (s t : S) : Type 0 where
    pub instancetypes :
        (key : ObjectKey)
        → l.stored t Kind.instancetype key
          ≡ unselected (of_deleted id) (l.stored s Kind.instancetype key)
    pub preferences :
        (key : ObjectKey)
        → l.stored t Kind.preference key
          ≡ unselected (of_deleted id) (l.stored s Kind.preference key)
    pub others :
        (j : Kind) (other : ObjectKey)
        → num_eq (kind_index Kind.instancetype) (kind_index j) ≡ false
        → num_eq (kind_index Kind.preference) (kind_index j) ≡ false
        → l.stored t j other ≡ l.stored s j other

  module _ (id : Option Identifier) (s : S) where
    abbrev without_instancetypes : S
    without_instancetypes = (env.client.delete_all_of Kind.instancetype (of_deleted id) s).1

    abbrev without_both : S
    without_both =
        (env.client.delete_all_of Kind.preference (of_deleted id) without_instancetypes).1

    answered-FlavourGone :
        (env.client.delete_all_of Kind.instancetype (of_deleted id) s).0 ≡ answer tt
        → (env.client.delete_all_of Kind.preference (of_deleted id) without_instancetypes).0
          ≡ answer tt
        → FlavourGone id s without_both
    answered-FlavourGone first second = record {
      instancetypes = λ key.
          selective.other_kind Kind.preference (of_deleted id) without_instancetypes
            Kind.instancetype key refl
          ∙ selective.deleted Kind.instancetype (of_deleted id) s tt key refl first;
      preferences = λ key.
          selective.deleted Kind.preference (of_deleted id) without_instancetypes tt key refl second
          ∙ ap (unselected (of_deleted id))
              (selective.other_kind Kind.instancetype (of_deleted id) s Kind.preference key refl);
      others = λ j other ne ne'.
          selective.other_kind Kind.preference (of_deleted id) without_instancetypes j other ne'
          ∙ selective.other_kind Kind.instancetype (of_deleted id) s j other ne;
    }

    -- Over an API that meets the documented laws, DeleteAllOf among them, a deletion of a flavour
    -- that succeeds takes away the instance types and the preferences of kube-nfv in the namespace
    -- that have the label of the flavour, and changes no other object.
    pub delete_flavour-FlavourGone :
        (delete_flavour env id s).0 ≡ ok tt → FlavourGone id s (delete_flavour env id s).1
    unfolding delete_flavour
    delete_flavour-FlavourGone h =
        elim (Reply-cases (env.client.delete_all_of Kind.instancetype (of_deleted id) s).0) [
          | inr (e, refused) ↦ absurd (ground (arith, refused))
          | inl (done, first) ↦
              elim (Reply-cases
                (env.client.delete_all_of Kind.preference (of_deleted id)
                  without_instancetypes).0) [
                    | inr (e, refused) ↦ absurd (ground (arith, first, refused))
                    | inl (done', second) ↦ rw (first) (answered-FlavourGone first second)
                  ]
        ]
