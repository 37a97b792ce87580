-- ===== src/Misc/Labels.antt =====
-- What `MergeLabels` of internal/misc/k8s.go returns.
use kube_vim.Common.{
  String, Bool, true, false, Option, none, some, [], ◌∷◌, Map, ◌≡◌, ◌↔◌, refl, ap, ◌∙◌, arith,
  eq_iff,
}
use kube_vim.Common.Maps.{NodupKeys, lookup, insert, lookup-insert}
use kube_vim.Misc.{differs, merge_loop, merge_labels}

-- Every required label stands among the labels, with its value.
pub record HasLabels (labels required : Map String) : Type 0 where
  pub at : (k v : String) → lookup k required ≡ some v → lookup k labels ≡ some v

abbrev pub or_lookup : Option String → Option String → Option String
or_lookup none old = old
or_lookup (some v) old = some v

differs-eq-false : (o : Option String) (v : String) → differs o v ≡ false → o ≡ some v
unfolding differs
differs-eq-false none v h = cc
differs-eq-false (some w) v h = ground (arith, eq_iff w v)

differs_self : (v : String) → differs (some v) v ≡ false
unfolding differs
differs_self v = ground (arith, eq_iff v v)

lookup-merge_loop :
    (j : String) (required : Map String) (changed : Bool) (merged : Map String)
    → NodupKeys required
    → lookup j (merge_loop required changed merged).1
      ≡ or_lookup (lookup j required) (lookup j merged)
unfolding merge_loop lookup
lookup-merge_loop j [] changed merged u = refl
lookup-merge_loop j ((k, v) ∷ required) changed merged (fresh, u) = ground (
  arith,
  lookup-merge_loop j required true (insert k v merged) u,
  lookup-merge_loop j required changed merged u,
  lookup-insert k j v merged,
  eq_iff k j,
  differs-eq-false (lookup k merged) v,
)

merge_loop_changed : (required merged : Map String) → (merge_loop required true merged).0 ≡ true
unfolding merge_loop
merge_loop_changed [] merged = refl
merge_loop_changed ((k, v) ∷ required) merged =
    ground
      (arith, merge_loop_changed required merged, merge_loop_changed required (insert k v merged))

HasLabels-tail :
    (labels : Map String) (k v : String) (required : Map String)
    → lookup k required ≡ none
    → HasLabels labels ((k, v) ∷ required)
    → HasLabels labels required
unfolding lookup
HasLabels-tail labels k v required fresh h = record {
  at = λ j w e. h.at j w (ground (arith, eq_iff k j));
}

merge_loop_unchanged :
    (required merged : Map String)
    → NodupKeys required
    → HasLabels merged required
    → merge_loop required false merged ≡ (false, merged)
unfolding merge_loop
merge_loop_unchanged [] merged u h = refl
merge_loop_unchanged ((k, v) ∷ required) merged (fresh, u) h =
    rw (h.at k v (unfold lookup in ground (arith, eq_iff k k)), differs_self)
      (merge_loop_unchanged required merged u (HasLabels-tail merged k v required fresh h))

merge_loop_has :
    (required merged : Map String)
    → (merge_loop required false merged).0 ≡ false
    → HasLabels merged required
unfolding merge_loop lookup
merge_loop_has [] merged h = record { at = λ k v e. cc }
merge_loop_has ((k, v) ∷ required) merged h = record {
  at = λ j w e. ground (
    arith,
    eq_iff k j,
    differs-eq-false (lookup k merged) v,
    merge_loop_changed required (insert k v merged),
    (λ (q : (merge_loop required false merged).0 ≡ false).
        (merge_loop_has required merged q).at j w),
  );
}

-- For required labels with distinct keys, a label of the merged map has its required value, or
-- else the value that it had.
pub lookup-merge_labels :
    (j : String) (current required : Map String)
    → NodupKeys required
    → lookup j (merge_labels current required).1 ≡ or_lookup (lookup j required) (lookup j current)
unfolding merge_labels
lookup-merge_labels j current required u = lookup-merge_loop j required false current u

-- The merged labels hold all that is required.
pub merge_labels-HasLabels :
    (current required : Map String)
    → NodupKeys required
    → HasLabels (merge_labels current required).1 required
merge_labels-HasLabels current required u = record {
  at = λ k v e. lookup-merge_labels k current required u ∙ rw e;
}

-- For required labels with distinct keys, no change is reported exactly when all required labels
-- are there already.
pub merge_labels-changed_iff :
    (current required : Map String)
    → NodupKeys required
    → ((merge_labels current required).0 ≡ false) ↔ HasLabels current required
unfolding merge_labels
merge_labels-changed_iff current required u = (
  merge_loop_has required current,
  λ h. ap (λ (r : Bool × Map String). r.0) (merge_loop_unchanged required current u h),
)
