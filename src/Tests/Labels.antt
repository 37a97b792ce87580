-- ===== src/Tests/Labels.antt =====
-- Labels that are merged.
use kube_vim.Common.{String, Map, false, [], ◌∷◌, ◌≡◌, ◌↔◌, refl}
use kube_vim.Common.Maps.{NodupKeys, lookup}
use kube_vim.Misc.{merge_labels}
use kube_vim.Misc.Labels.{HasLabels, or_lookup, lookup-merge_labels, merge_labels-changed_iff}

abbrev current : Map String
current = ("team", "core") ∷ ("app", "old") ∷ []

abbrev required : Map String
required = ("app", "kube-nfv") ∷ ("tier", "vim") ∷ []

required-NodupKeys : NodupKeys required
unfolding lookup
required-NodupKeys = (refl, (refl, tt))

lookup-merge_labels_example :
    lookup "team" (merge_labels current required).1
    ≡ or_lookup (lookup "team" required) (lookup "team" current)
lookup-merge_labels_example = lookup-merge_labels "team" current required required-NodupKeys

merge_labels-changed_iff_example :
    ((merge_labels current required).0 ≡ false) ↔ HasLabels current required
merge_labels-changed_iff_example = merge_labels-changed_iff current required required-NodupKeys
