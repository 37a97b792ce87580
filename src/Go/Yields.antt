-- ===== src/Go/Yields.antt =====
-- A predicate on every value that an action can return. An action that fails returns none.
use mathlib.Core.Path.{subst}
use kube_vim.Common.{String, Bool, true, false, ◌≡◌, refl, sym, ap, ◌∙◌, if◌then◌else◌, inl, inr}
use kube_vim.Errors.{Error}
use kube_vim.Go.{Exec, Result, ok, pure, raise, panics, lift, context, inspect, ◌>>=◌}
use kube_vim.Go.Laws.{bind-eq-ok, context-eq-ok, inspect-cases}

pub record Yields {S A : Type 0} (P : A → Type 0) (m : Exec S A) : Type 0 where
  pub at : (s : S) (a : A) → (m s).0 ≡ ok a → P a

ok_injective : {A : Type 0} (P : A → Type 0) (a b : A) → P a → Path (Result A) (ok a) (ok b) → P b
ok_injective P a b p h = subst P {x = a} {y = b} (cc) p

module _ {S A : Type 0} {P : A → Type 0} where
  pub Yields-pure : (a : A) → P a → Yields P (pure {S = S} a)
  Yields-pure a p = record { at = λ s b h. ok_injective P a b p h }

  pub Yields-raise : (e : Error) → Yields P (raise {S = S} e)
  Yields-raise e = record { at = λ s b h. absurd (cc) }

  pub Yields-panics : Yields P (panics {S = S} {A = A})
  Yields-panics = record { at = λ s b h. absurd (cc) }

  pub Yields-lift : (r : Result A) → ((a : A) → r ≡ ok a → P a) → Yields P (lift {S = S} r)
  Yields-lift r p = record { at = λ s b h. p b h }

  pub Yields-context : (text : String) (m : Exec S A) → Yields P m → Yields P (context text m)
  Yields-context text m y = record { at = λ s b h. y.at s b (context-eq-ok text m s b h) }

  pub Yields-if :
      (b : Bool) (m n : Exec S A)
      → (b ≡ true → Yields P m)
      → (b ≡ false → Yields P n)
      → Yields P (if b then m else n)
  Yields-if true m n p q = p refl
  Yields-if false m n p q = q refl

module _ {S A B : Type 0} {P : B → Type 0} where
  -- What the first action returns may be used, with where it returned it.
  pub Yields-bind_at :
      (m : Exec S A) (f : A → Exec S B)
      → ((s : S) (a : A) → (m s).0 ≡ ok a → Yields P (f a))
      → Yields P (m >>= f)
  Yields-bind_at m f y = record {
    at = λ s b h.
        let (a, first, rest) = bind-eq-ok m f s b h in
        (y s a first).at (m s).1 b (sym (ap (λ (r : Result B × S). r.0) rest) ∙ h);
  }

  pub Yields-bind :
      (m : Exec S A) (f : A → Exec S B) → ((a : A) → Yields P (f a)) → Yields P (m >>= f)
  Yields-bind m f y = Yields-bind_at m f (λ s a h. y a)

  pub Yields-then :
      {Q : A → Type 0} (m : Exec S A) (f : A → Exec S B)
      → Yields Q m
      → ((a : A) → Q a → Yields P (f a))
      → Yields P (m >>= f)
  Yields-then m f q y = Yields-bind_at m f (λ s a h. y a (q.at s a h))

  pub Yields-inspect :
      (m : Exec S A) (good : A → Exec S B) (bad : Error → Exec S B)
      → ((s : S) (a : A) → (m s).0 ≡ ok a → Yields P (good a))
      → ((e : Error) → Yields P (bad e))
      → Yields P (inspect m good bad)
  Yields-inspect m good bad y z = record {
    at = λ s b h. elim (inspect-cases m good bad s b h) [
      | inl (a, first, rest) ↦
          (y s a first).at (m s).1 b (sym (ap (λ (r : Result B × S). r.0) rest) ∙ h)
      | inr (e, first, rest) ↦ (z e).at (m s).1 b (sym (ap (λ (r : Result B × S). r.0) rest) ∙ h)
    ];
  }
