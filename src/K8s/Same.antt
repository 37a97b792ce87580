-- ===== src/K8s/Same.antt =====
-- Two states of the cluster that store the same objects, and the actions that lead from one to the
-- other.
use kube_vim.Common.{◌≡◌, refl, ◌∙◌}
use kube_vim.Errors.{Error, ForeignErrors}
use kube_vim.Go.{Exec, Result, ok, err, panic, continue, branch, inspect, ◌>>=◌}
use kube_vim.K8s.Objects.{Kind}
use kube_vim.K8s.Client.{Client, ObjectKey}
use kube_vim.K8s.Lawful.{IsLawful}

module _ {S : Type 0} {c : Client S} {f : ForeignErrors} (l : IsLawful c f) where
  pub record Same (s t : S) : Type 0 where
    pub at : (j : Kind) (other : ObjectKey) → l.stored t j other ≡ l.stored s j other

  pub Same-refl : (s : S) → Same s s
  Same-refl s = record { at = λ j other. refl }

  pub Same-trans : {r s t : S} → Same r s → Same s t → Same r t
  Same-trans p q = record { at = λ j other. q.at j other ∙ p.at j other }

  continue-Same :
      {A B : Type 0} (r : Result A) (g : A → Exec S B) (s : S)
      → ((a : A) → r ≡ ok a → Same s (g a s).1)
      → Same s (continue r g s).1
  continue-Same (ok a) g s h = h a refl
  continue-Same (err e) g s h = Same-refl s
  continue-Same panic g s h = Same-refl s

  pub bind-Same :
      {A B : Type 0} (m : Exec S A) (g : A → Exec S B) (s : S)
      → Same s (m s).1
      → ((a : A) → (m s).0 ≡ ok a → Same (m s).1 (g a (m s).1).1)
      → Same s ((m >>= g) s).1
  bind-Same m g s first rest = Same-trans first (continue-Same (m s).0 g (m s).1 rest)

  branch-Same :
      {A B : Type 0} (r : Result A) (good : A → Exec S B) (bad : Error → Exec S B) (s : S)
      → ((a : A) → r ≡ ok a → Same s (good a s).1)
      → ((e : Error) → r ≡ err e → Same s (bad e s).1)
      → Same s (branch r good bad s).1
  branch-Same (ok a) good bad s g b = g a refl
  branch-Same (err e) good bad s g b = b e refl
  branch-Same panic good bad s g b = Same-refl s

  pub inspect-Same :
      {A B : Type 0} (m : Exec S A) (good : A → Exec S B) (bad : Error → Exec S B) (s : S)
      → Same s (m s).1
      → ((a : A) → (m s).0 ≡ ok a → Same (m s).1 (good a (m s).1).1)
      → ((e : Error) → (m s).0 ≡ err e → Same (m s).1 (bad e (m s).1).1)
      → Same s (inspect m good bad s).1
  inspect-Same m good bad s first g b = Same-trans first (branch-Same (m s).0 good bad (m s).1 g b)
