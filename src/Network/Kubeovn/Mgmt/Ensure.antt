-- ===== src/Network/Kubeovn/Mgmt/Ensure.antt =====
-- What one `ensureMgmt*` step of mgmt.go leaves behind.
use mathlib.Core.Path.{subst}
use kube_vim.Common.{
  String, false, none, some, Map, ◌≡◌, sym, ap, ◌∙◌, Bool-cases, inl, inr, if◌then◌else◌,
}
use kube_vim.Common.Maps.{NodupKeys}
use kube_vim.Errors.{Error, wrap}
use kube_vim.Go.{Exec, pure, raise, call, context, ◌>>=◌, Result, ok, answer, refuse}
use kube_vim.Go.Laws.{call-eq-ok, call-eq-err, context-eq-ok, bind-eq-ok, inspect-cases}
use kube_vim.K8s.Objects.{Kind, Object}
use kube_vim.K8s.Client.{ObjectKey, key_of}
use kube_vim.K8s.Lawful.{IsLawful, same_ref}
use kube_vim.Misc.{merge_labels}
use kube_vim.Misc.Labels.{HasLabels, merge_labels-HasLabels, merge_labels-changed_iff}
use kube_vim.Network.Types.{Env}
use kube_vim.Network.Kubeovn.Mgmt.{reconcile_labels, create_object, ensure_object}

module _ {S : Type 0} (env : Env S) (l : IsLawful env.client env.lib.errors) where
  -- The object `o` is stored with the labels; its spec is that of the object that was there, or
  -- else of the new one; nothing else is touched.
  pub record Ensured (k : Kind) (key : ObjectKey) (required : Map String) (new : Object k)
      (s s' : S) (o : Object k) : Type 0 where
    pub present : l.stored s' k key ≡ some o
    pub labelled : HasLabels o.meta.labels required
    pub kept : (old : Object k) → l.stored s k key ≡ some old → o.spec ≡ old.spec
    pub built : l.stored s k key ≡ none → o.spec ≡ new.spec
    pub others :
        (j : Kind) (other : ObjectKey)
        → same_ref k key j other ≡ false
        → l.stored s' j other ≡ l.stored s j other

  abbrev relabelled : (k : Kind) → Map String → Object k → Object k
  relabelled k required existing = record existing {
    meta = record existing.meta { labels = (merge_labels existing.meta.labels required).1 };
  }

  module _ (k : Kind) (key : ObjectKey) (required : Map String) (u : NodupKeys required) where
    keyed :
        (existing : Object k) (s : S)
        → l.stored s k key ≡ some existing
        → key_of (relabelled k required existing).meta ≡ key
    unfolding key_of
    keyed existing s found = l.stored_key s k key existing found

    patched-Ensured :
        (new existing : Object k) (s t : S) (o : Object k)
        → l.stored s k key ≡ some existing
        → ((j : Kind) (other : ObjectKey) → l.stored t j other ≡ l.stored s j other)
        → (env.client.patch_labels k (relabelled k required existing) t).0 ≡ answer o
        → Ensured k key required new s
            (env.client.patch_labels k (relabelled k required existing) t).1
            o
    patched-Ensured new existing s t o found same done = record {
      present =
          subst
            (λ key'.
              l.stored (env.client.patch_labels k (relabelled k required existing) t).1 k key'
              ≡ some o)
            (keyed existing s found) (l.patch_stores k (relabelled k required existing) t o done);
      labelled =
          subst (λ labels. HasLabels labels required)
            (sym (l.patch_labels k (relabelled k required existing) t o done))
            (merge_labels-HasLabels existing.meta.labels required u);
      kept = λ old e. l.patch_spec k (relabelled k required existing) t o done ∙ (cc);
      built = λ missing. absurd (cc);
      others = λ j other ne.
          l.patch_other k (relabelled k required existing) t j other
            (rw (keyed existing s found) ne)
          ∙ same j other;
    }

    reconcile-Ensured :
        (new existing : Object k) (s t : S) (o : Object k)
        → l.stored s k key ≡ some existing
        → ((j : Kind) (other : ObjectKey) → l.stored t j other ≡ l.stored s j other)
        → (reconcile_labels env k required existing t).0 ≡ ok o
        → Ensured k key required new s (reconcile_labels env k required existing t).1 o
    unfolding reconcile_labels
    reconcile-Ensured new existing s t o found same =
        elim (Bool-cases (merge_labels existing.meta.labels required).0) [
          | inl changed ↦ rw changed λ done.
              let patch = env.client.patch_labels k (relabelled k required existing) in
              patched-Ensured new existing s t o found same
                (call-eq-ok patch t o (context-eq-ok "patch labels" (call patch) t o done))
          | inr unchanged ↦ rw unchanged λ done. record {
            present = same k key ∙ found ∙ (cc);
            labelled =
                subst (λ (x : Object k). HasLabels x.meta.labels required) {x = existing} {y = o}
                  (cc) ((merge_labels-changed_iff existing.meta.labels required u).0 unchanged);
            kept = λ old e. cc;
            built = λ missing. absurd (cc);
            others = λ j other ne. same j other;
          }
        ]

    module _ (new : Object k) (fits : key_of new.meta ≡ key) (has : new.meta.labels ≡ required)
        (raced : Exec S (Object k)) where
      created-Ensured :
          (s t : S) (o : Object k)
          → l.stored s k key ≡ none
          → ((j : Kind) (other : ObjectKey) → l.stored t j other ≡ l.stored s j other)
          → (env.client.create k new t).0 ≡ answer o
          → Ensured k key required new s (env.client.create k new t).1 o
      created-Ensured s t o missing same done = record {
        present =
            subst (λ key'. l.stored (env.client.create k new t).1 k key' ≡ some o) fits
              (l.create_stores k new t o done);
        labelled =
            subst (λ labels. HasLabels labels required) (sym (l.create_labels k new t o done ∙ has))
              (record { at = λ j v e. e });
        kept = λ old e. absurd (cc);
        built = λ _. l.create_spec k new t o done;
        others = λ j other ne. l.create_other k new t j other (rw fits ne) ∙ same j other;
      }

      abbrev Post : S → Result (Object k) × S → Type 0
      Post s r = (o : Object k) → r.0 ≡ ok o → Ensured k key required new s r.1 o

      -- Where the object was missing, no refusal of the create is for its existence.
      raced-Ensured :
          (s t : S) (e : Error)
          → l.stored s k key ≡ none
          → ((j : Kind) (other : ObjectKey) → l.stored t j other ≡ l.stored s j other)
          → (env.client.create k new t).0 ≡ refuse e
          → Post s (
              (if env.lib.errors.is_already_exists e then raced else raise (wrap "create" e))
                (env.client.create k new t).1)
      raced-Ensured s t e missing same refused =
          elim (Bool-cases (env.lib.errors.is_already_exists e)) [
            | inl exists ↦
                let old = l.create_exists k new t e refused exists in
                absurd (cc (missing, same k key, fits, old.1))
            | inr other ↦ rw other λ o h. absurd (cc)
          ]

      create-Ensured :
          (s t : S)
          → l.stored s k key ≡ none
          → ((j : Kind) (other : ObjectKey) → l.stored t j other ≡ l.stored s j other)
          → Post s (create_object env k new raced t)
      unfolding create_object
      create-Ensured s t missing same o done =
          elim (inspect-cases (call (env.client.create k new)) pure _ t o done) [
            | inl (a, made, rest) ↦
                subst (Post s) (sym rest)
                  (λ o' e.
                    created-Ensured s t o' missing same
                      (cc (call-eq-ok (env.client.create k new) t a made)))
                  o done
            | inr (e, refused, rest) ↦
                subst (Post s) (sym rest)
                  (raced-Ensured s t e missing same
                    (call-eq-err (env.client.create k new) t e refused))
                  o done
          ]

      missing-Ensured :
          (s : S) (e : Error)
          → (env.client.live_get k key s).0 ≡ refuse e
          → Post s (
              (if env.lib.errors.is_not_found e
                  then create_object env k new raced
                  else raise (wrap "get" e))
                (env.client.live_get k key s).1)
      missing-Ensured s e refused = elim (Bool-cases (env.lib.errors.is_not_found e)) [
        | inl absent ↦ rw absent (
            create-Ensured s _ (l.live_get_missing k key s e refused absent)
              (l.live_get_keeps k key s))
        | inr other ↦ rw other λ o h. absurd (cc)
      ]

      -- A step that succeeds has done its work.
      pub ensure_object-Ensured :
          (s : S) (o : Object k)
          → (ensure_object env k key required new raced s).0 ≡ ok o
          → Ensured k key required new s (ensure_object env k key required new raced s).1 o
      unfolding ensure_object
      ensure_object-Ensured s o done =
          elim (inspect-cases (call (env.client.live_get k key)) (reconcile_labels env k required) _
            s o done) [
              | inl (existing, found, rest) ↦
                  subst (Post s) (sym rest)
                    (λ o' e.
                      reconcile-Ensured new existing s _ o'
                        (l.live_get_found k key s existing
                          (call-eq-ok (env.client.live_get k key) s existing found))
                        (l.live_get_keeps k key s) e)
                    o done
              | inr (e, refused, rest) ↦
                  subst (Post s) (sym rest)
                    (missing-Ensured s e (call-eq-err (env.client.live_get k key) s e refused)) o
                    done
            ]

      -- The same for a step whose object is not used any further.
      pub step-Ensured :
          (text : String) (s : S)
          → (context text (ensure_object env k key required new raced >>= λ _. pure tt) s).0 ≡ ok tt
          → (o : Object k) × Ensured k key required new s
              (context text (ensure_object env k key required new raced >>= λ _. pure tt) s).1
              o
      step-Ensured text s done =
          let m = ensure_object env k key required new raced in
          let (o, first, rest) =
            bind-eq-ok m (λ _. pure tt) s tt (context-eq-ok text (m >>= λ _. pure tt) s tt done) in
          (
            o,
            subst (λ t. Ensured k key required new s t o)
                (sym (ap (λ (r : Result (Unit {0}) × S). r.1) rest))
                (ensure_object-Ensured s o first),
          )
