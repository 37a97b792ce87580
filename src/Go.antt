-- ===== src/Go.antt =====
-- Go's `(T, error)` results, run-time panics, and functions that act on the cluster.
pub mod Laws
pub mod Yields
use kube_vim.Common.{String, Bool, true, false, Option, none, some}
use kube_vim.Errors.{Error, wrap}

-- A call returns a value, returns an error, or dereferences a nil pointer.
pub data Result {ℓ} (A : Type ℓ) : Type ℓ where
  ok : A → Result A
  err : Error → Result A
  panic : Result A

-- An action on a state: the cluster, and all else outside the process.
abbrev pub Exec {ℓ} : Type ℓ → Type ℓ → Type ℓ
Exec S A = S → Result A × S

-- What a library call returns. It does not panic.
pub data Reply {ℓ} (A : Type ℓ) : Type ℓ where
  answer : A → Reply A
  refuse : Error → Reply A

abbrev pub Call {ℓ} : Type ℓ → Type ℓ → Type ℓ
Call S A = S → Reply A × S

module _ {ℓ} {A : Type ℓ} where
  abbrev pub from_reply : Reply A → Result A
  from_reply (answer a) = ok a
  from_reply (refuse e) = err e

  abbrev pub wrapped : String → Result A → Result A
  wrapped text (ok a) = ok a
  wrapped text (err e) = err (wrap text e)
  wrapped text panic = panic

module _ {ℓ} {S A : Type ℓ} where
  abbrev pub pure : A → Exec S A
  pure a s = (ok a, s)

  abbrev pub raise : Error → Exec S A
  raise e s = (err e, s)

  abbrev pub panics : Exec S A
  panics s = (panic, s)

  abbrev pub lift : Result A → Exec S A
  lift r s = (r, s)

  -- `x, err := call(...)`
  abbrev pub call : Call S A → Exec S A
  call m s = let (r, s') = m s in (from_reply r, s')

  -- `if err != nil { return nil, fmt.Errorf("text: %w", err) }`
  abbrev pub context : String → Exec S A → Exec S A
  context text m s = let (r, s') = m s in (wrapped text r, s')

  -- A value read through a pointer, which panics at nil.
  abbrev pub deref : Option A → Exec S A
  deref none s = (panic, s)
  deref (some a) s = (ok a, s)

  -- `if missing { return nil, &ErrInvalidArgument{...} }`
  abbrev pub required : Error → Option A → Exec S A
  required e none s = (err e, s)
  required e (some a) s = (ok a, s)

module _ {ℓ} {S A B : Type ℓ} where
  abbrev pub continue : Result A → (A → Exec S B) → Exec S B
  continue (ok a) f s = f a s
  continue (err e) f s = (err e, s)
  continue panic f s = (panic, s)

  infixl 10 ◌>>=◌ ◌>>◌
  abbrev pub ◌>>=◌ : Exec S A → (A → Exec S B) → Exec S B
  ◌>>=◌ m f s = let (r, s') = m s in continue r f s'

  abbrev pub ◌>>◌ : Exec S A → Exec S B → Exec S B
  ◌>>◌ m n s = let (r, s') = m s in continue r (λ _. n) s'

  -- `res, err := m(); switch { ... }`: the code looks at the error itself. A panic goes on.
  abbrev pub branch : Result A → (A → Exec S B) → (Error → Exec S B) → Exec S B
  branch (ok a) good bad = good a
  branch (err e) good bad = bad e
  branch panic good bad = panics

  abbrev pub inspect : Exec S A → (A → Exec S B) → (Error → Exec S B) → Exec S B
  inspect m good bad s = let (r, s') = m s in branch r good bad s'

-- `if !test { return nil, e }`
abbrev pub guard {ℓ} : {S : Type ℓ} → Bool → Error → Exec S (Unit {ℓ})
guard true e s = (ok tt, s)
guard false e s = (err e, s)

-- A call whose error is dropped: `cleanup()` as a statement.
abbrev pub ignore {ℓ} : {S A : Type ℓ} → Exec S A → Exec S (Unit {ℓ})
ignore m = inspect m (λ _. pure tt) (λ _. pure tt)
