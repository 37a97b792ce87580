-- ===== src/Go/Laws.antt =====
-- What a successful action tells of its parts. The rules keep the parts shut.
use kube_vim.Common.{String, ◌≡◌, refl, ◌⊎◌, inl, inr}
use kube_vim.Errors.{Error}
use kube_vim.Go.{
  Exec, Result, ok, err, panic, Reply, answer, refuse, from_reply, wrapped, call, context, continue,
  branch, inspect, ◌>>=◌,
}

module _ {ℓ} {A : Type ℓ} where
  pub from_reply-eq-ok : (r : Reply A) (a : A) → from_reply r ≡ ok a → r ≡ answer a
  from_reply-eq-ok (answer b) a h = cc
  from_reply-eq-ok (refuse e) a h = cc

  pub from_reply-eq-err : (r : Reply A) (e : Error) → from_reply r ≡ err e → r ≡ refuse e
  from_reply-eq-err (answer b) e h = cc
  from_reply-eq-err (refuse d) e h = cc

  pub from_reply-ne-panic : (r : Reply A) → from_reply r ≡ panic → ⊥
  from_reply-ne-panic (answer b) h = cc
  from_reply-ne-panic (refuse e) h = cc

  pub wrapped-eq-ok : (text : String) (r : Result A) (a : A) → wrapped text r ≡ ok a → r ≡ ok a
  wrapped-eq-ok text (ok b) a h = h
  wrapped-eq-ok text (err e) a h = cc
  wrapped-eq-ok text panic a h = cc

  pub Reply-cases : (r : Reply A) → ((a : A) × (r ≡ answer a)) ⊎ ((e : Error) × (r ≡ refuse e))
  Reply-cases (answer a) = inl (a, refl)
  Reply-cases (refuse e) = inr (e, refl)

  pub Result-cases :
      (r : Result A) → ((a : A) × (r ≡ ok a)) ⊎ ((e : Error) × (r ≡ err e)) ⊎ (r ≡ panic)
  Result-cases (ok a) = inl (a, refl)
  Result-cases (err e) = inr (inl (e, refl))
  Result-cases panic = inr (inr refl)

module _ {ℓ} {S A : Type ℓ} where
  pub call-eq-ok : (m : S → Reply A × S) (s : S) (a : A) → (call m s).0 ≡ ok a → (m s).0 ≡ answer a
  call-eq-ok m s a h = from_reply-eq-ok (m s).0 a h

  pub call-eq-err :
      (m : S → Reply A × S) (s : S) (e : Error) → (call m s).0 ≡ err e → (m s).0 ≡ refuse e
  call-eq-err m s e h = from_reply-eq-err (m s).0 e h

  pub context-eq-ok :
      (text : String) (m : Exec S A) (s : S) (a : A) → (context text m s).0 ≡ ok a → (m s).0 ≡ ok a
  context-eq-ok text m s a h = wrapped-eq-ok text (m s).0 a h

module _ {ℓ} {S A B : Type ℓ} where
  continue-eq-ok :
      (r : Result A) (f : A → Exec S B) (s : S) (b : B)
      → (continue r f s).0 ≡ ok b
      → (a : A) × (r ≡ ok a) × (continue r f s ≡ f a s)
  continue-eq-ok (ok a) f s b h = (a, refl, refl)
  continue-eq-ok (err e) f s b h = cc
  continue-eq-ok panic f s b h = cc

  -- A block that succeeds ran its first action with success and went on with its value.
  pub bind-eq-ok :
      (m : Exec S A) (f : A → Exec S B) (s : S) (b : B)
      → ((m >>= f) s).0 ≡ ok b
      → (a : A) × ((m s).0 ≡ ok a) × ((m >>= f) s ≡ f a (m s).1)
  bind-eq-ok m f s b h = continue-eq-ok (m s).0 f (m s).1 b h

  continue-same :
      (r : Result A) (f g : A → Exec S B) (s : S)
      → ((a : A) → r ≡ ok a → f a s ≡ g a s)
      → continue r f s ≡ continue r g s
  continue-same (ok a) f g s h = h a refl
  continue-same (err e) f g s h = refl
  continue-same panic f g s h = refl

  -- Two continuations that agree on what the first action returns.
  pub bind-same :
      (m : Exec S A) (f g : A → Exec S B) (s : S)
      → ((a : A) → (m s).0 ≡ ok a → f a (m s).1 ≡ g a (m s).1)
      → (m >>= f) s ≡ (m >>= g) s
  bind-same m f g s h = continue-same (m s).0 f g (m s).1 h

  branch-cases :
      (r : Result A) (good : A → Exec S B) (bad : Error → Exec S B) (s : S) (b : B)
      → (branch r good bad s).0 ≡ ok b
      → ((a : A) × (r ≡ ok a) × (branch r good bad s ≡ good a s))
        ⊎ ((e : Error) × (r ≡ err e) × (branch r good bad s ≡ bad e s))
  branch-cases (ok a) good bad s b h = inl (a, refl, refl)
  branch-cases (err e) good bad s b h = inr (e, refl, refl)
  branch-cases panic good bad s b h = cc

  -- A test of the error that ends with success took one branch or the other.
  pub inspect-cases :
      (m : Exec S A) (good : A → Exec S B) (bad : Error → Exec S B) (s : S) (b : B)
      → (inspect m good bad s).0 ≡ ok b
      → ((a : A) × ((m s).0 ≡ ok a) × (inspect m good bad s ≡ good a (m s).1))
        ⊎ ((e : Error) × ((m s).0 ≡ err e) × (inspect m good bad s ≡ bad e (m s).1))
  inspect-cases m good bad s b h = branch-cases (m s).0 good bad (m s).1 b h
