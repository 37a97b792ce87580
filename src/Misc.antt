-- ===== src/Misc.antt =====
-- internal/misc/k8s.go: label reconciliation, and the conversion of configured tolerations.
pub mod Labels
use kube_vim.Common.{
  String, ℕ, Bool, true, false, Option, none, some, List, [], ◌∷◌, Map, ◌==◌, not,
}
use kube_vim.Common.{if◌then◌else◌, text_or_empty}
use kube_vim.Common.Maps

-- `existing, ok := merged[k]; !ok || existing != v`
unfoldable pub differs : Option String → String → Bool
differs none v = true
differs (some existing) v = not (existing == v)

-- The loop of `MergeLabels` over the required labels, with `changed` and `merged` as they stand.
unfoldable pub merge_loop : Map String → Bool → Map String → Bool × Map String
unfolding differs
merge_loop [] changed merged = (changed, merged)
merge_loop ((k, v) ∷ required) changed merged =
    let set = differs (Maps.lookup k merged) v in
    merge_loop required (if set then true else changed)
      (if set then Maps.insert k v merged else merged)

-- A map is a value here, so the fresh copy of the current labels is the labels themselves.
unfoldable pub merge_labels : Map String → Map String → Bool × Map String
unfolding merge_loop
merge_labels current required = merge_loop required false current

-- kubevimconfig.Toleration and corev1.Toleration
pub record Toleration : Type 0 where
  pub key : Option String
  pub value : Option String
  pub operator : Option String
  pub effect : Option String
  pub toleration_seconds : Option ℕ

pub record K8sToleration : Type 0 where
  pub key : String
  pub value : String
  pub operator : String
  pub effect : String
  pub toleration_seconds : Option ℕ

unfoldable pub to_k8s_toleration : Toleration → K8sToleration
to_k8s_toleration t = record {
  key = text_or_empty t.key;
  value = text_or_empty t.value;
  operator = text_or_empty t.operator;
  effect = text_or_empty t.effect;
  toleration_seconds = t.toleration_seconds;
}

unfoldable pub to_k8s_tolerations : List Toleration → List K8sToleration
unfolding to_k8s_toleration
to_k8s_tolerations [] = []
to_k8s_tolerations (t ∷ tolerations) = to_k8s_toleration t ∷ to_k8s_tolerations tolerations
