-- ===== src/Network/Kubeovn/Mgmt/Settled.antt =====
-- An `ensureMgmt*` step of mgmt.go whose object is there with its labels changes nothing.
use kube_vim.Common.{some, Map, ◌≡◌, String, Bool-cases, inl, inr, if◌then◌else◌}
use kube_vim.Common.Maps.{NodupKeys}
use kube_vim.Errors.{Error, wrap}
use kube_vim.Go.{Exec, raise, call, ok, err}
use kube_vim.Go.Laws.{call-eq-ok, call-eq-err, inspect-cases}
use kube_vim.K8s.Objects.{Kind, Object}
use kube_vim.K8s.Client.{ObjectKey}
use kube_vim.K8s.Lawful.{IsLawful}
use kube_vim.K8s.Same.{Same, Same-refl, inspect-Same}
use kube_vim.Misc.Labels.{HasLabels, merge_labels-changed_iff}
use kube_vim.Network.Types.{Env}
use kube_vim.Network.Kubeovn.Mgmt.{reconcile_labels, create_object, ensure_object}

module _ {S : Type 0} (env : Env S) (l : IsLawful env.client env.lib.errors) where
  module _ (k : Kind) (key : ObjectKey) (required : Map String) (u : NodupKeys required)
      (o : Object k) (s : S) (present : l.stored s k key ≡ some o)
      (labelled : HasLabels o.meta.labels required) where
    reconcile_settled : (t : S) → reconcile_labels env k required o t ≡ (ok o, t)
    unfolding reconcile_labels
    reconcile_settled t = rw ((merge_labels-changed_iff o.meta.labels required u).1 labelled)

    read_settled : (a : Object k) → (call (env.client.live_get k key) s).0 ≡ ok a → a ≡ o
    read_settled a found =
        cc (present, l.live_get_found k key s a (call-eq-ok (env.client.live_get k key) s a found))

    live_get-Same : Same l s (call (env.client.live_get k key) s).1
    live_get-Same = record { at = l.live_get_keeps k key s }

    -- The read cannot say that the object is missing.
    not_missing :
        {B : Type 0} (n : Exec S B) (e : Error) (t : S)
        → (call (env.client.live_get k key) s).0 ≡ err e
        → (if env.lib.errors.is_not_found e then n else raise (wrap "get" e)) t
          ≡ (err (wrap "get" e), t)
    not_missing n e t refused = elim (Bool-cases (env.lib.errors.is_not_found e)) [
      | inl missing ↦ absurd (
          cc (
            present,
            l.live_get_missing k key s e (call-eq-err (env.client.live_get k key) s e refused)
                missing,
          ))
      | inr other ↦ rw other
    ]

    module _ (new : Object k) (raced : Exec S (Object k)) where
      pub ensure_object-settled : Same l s (ensure_object env k key required new raced s).1
      unfolding ensure_object
      ensure_object-settled =
          inspect-Same l (call (env.client.live_get k key)) (reconcile_labels env k required) _ s
            live_get-Same
            (λ a found.
              rw (read_settled a found, reconcile_settled (call (env.client.live_get k key) s).1)
                (Same-refl l _))
            (λ e refused. rw (not_missing _ e _ refused) (Same-refl l _))

      pub ensure_object-settled_value :
          (x : Object k) → (ensure_object env k key required new raced s).0 ≡ ok x → x ≡ o
      unfolding ensure_object
      ensure_object-settled_value x done =
          elim (inspect-cases (call (env.client.live_get k key)) (reconcile_labels env k required) _
            s x done) [
              | inl (a, found, rest) ↦ cc (
                done,
                rest,
                read_settled a found,
                reconcile_settled (call (env.client.live_get k key) s).1,
              )
              | inr (e, refused, rest) ↦ absurd (
                  cc (
                    done,
                    rest,
                    not_missing (create_object env k new raced) e
                        (call (env.client.live_get k key) s).1 refused,
                  ))
            ]
