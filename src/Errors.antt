-- ===== src/Errors.antt =====
-- internal/errors/errors.go and the error values of the other packages, with the chains that
-- `fmt.Errorf("...: %w", err)` builds. A text with `%s` keeps its format; the values that it quotes
-- are dropped.
pub mod Grpc
use kube_vim.Common.{String, Bool, true, false, arith, ◌≡◌}

-- google.golang.org/grpc/codes
pub data Code : Type 0 where
  invalid_argument not_found already_exists permission_denied : Code
  unauthenticated unimplemented internal : Code

pub data Error : Type 0 where
  -- errors.go
  not_implemented unsupported internal : Error
  not_found already_exists : String → String → Error
  invalid_argument permission_denied : String → String → Error
  object_not_instantiated : String → String → Error
  object_not_managed : String → String → String → Error
  -- compute/kubevirt/errors.go and image/errors.go
  ipam_configuration_missing apply_option : Error
  data_volume_already_exists : String → Error
  data_volume_not_found : String → String → Error
  -- `errors.New`, or `fmt.Errorf` without `%w`
  plain : String → Error
  -- a value of another library, such as a Kubernetes `StatusError`
  foreign : String → Error
  -- `status.Error(code, err.Error())`
  status : Code → Error → Error
  -- `fmt.Errorf(text + ": %w", err)`
  wrap : String → Error → Error

-- The end of the chain of `%w`. `errors.As` and `errors.Is` walk the chain, whose other members
-- are the values that `fmt.Errorf` made, so they test this one.
unfoldable pub root : Error → Error
root (wrap text e) = root e
root not_implemented = not_implemented
root e = e

-- `errors.As(err, &notFoundErr)` with `*apperrors.ErrNotFound`
unfoldable pub is_err_not_found : Error → Bool
unfolding root
is_err_not_found e = elim (root e) [ not_found entity identifier ↦ true | _ ↦ false ]

-- The predicates of k8s.io/apimachinery/pkg/api/errors, and `status.FromError`.
pub record ForeignErrors : Type 0 where
  pub is_not_found : Error → Bool
  pub is_already_exists : Error → Bool
  pub is_invalid : Error → Bool
  pub is_bad_request : Error → Bool
  pub is_forbidden : Error → Bool
  pub is_unauthorized : Error → Bool
  pub is_status : Error → Bool

-- They look through the chain of wrapped errors, and a value that kube-vim makes is of none of
-- the Kubernetes reasons.
pub record LooksThrough (f : ForeignErrors) : Type 0 where
  pub not_found : (text : String) (e : Error) → f.is_not_found (wrap text e) ≡ f.is_not_found e
  pub already_exists :
      (text : String) (e : Error) → f.is_already_exists (wrap text e) ≡ f.is_already_exists e
  pub invalid : (text : String) (e : Error) → f.is_invalid (wrap text e) ≡ f.is_invalid e
  pub bad_request :
      (text : String) (e : Error) → f.is_bad_request (wrap text e) ≡ f.is_bad_request e
  pub forbidden : (text : String) (e : Error) → f.is_forbidden (wrap text e) ≡ f.is_forbidden e
  pub unauthorized :
      (text : String) (e : Error) → f.is_unauthorized (wrap text e) ≡ f.is_unauthorized e
  pub status : (text : String) (e : Error) → f.is_status (wrap text e) ≡ f.is_status e

-- Either test of the managers for a missing object, the Kubernetes one or kube-vim's own.
unfoldable pub is_missing : ForeignErrors → Error → Bool
unfolding is_err_not_found
is_missing f e = elim (f.is_not_found e) [ true ↦ true | false ↦ is_err_not_found e ]

pub is_err_not_found-wrap :
    (text : String) (e : Error) → is_err_not_found (wrap text e) ≡ is_err_not_found e
unfolding is_err_not_found
is_err_not_found-wrap text e = ground arith

pub is_missing-wrap :
    (f : ForeignErrors)
    → LooksThrough f
    → (text : String) (e : Error) → is_missing f (wrap text e) ≡ is_missing f e
unfolding is_missing
is_missing-wrap f through text e = ground (arith, through.not_found text e)
