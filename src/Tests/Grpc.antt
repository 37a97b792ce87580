-- ===== src/Tests/Grpc.antt =====
-- Errors that reach a client.
use kube_vim.Common.{String, some, true, false, ◌≡◌, refl, arith}
use kube_vim.Errors.{Error, Code, foreign, wrap, root, status, LooksThrough, is_missing}
use kube_vim.Errors.Grpc.{
  OnlyForeign, registered, to_grpc_error, to_grpc_error-wrap, to_grpc_error-missing,
}
use kube_vim.K8s.Memory.{memory_errors}

pub memory_errors-LooksThrough : LooksThrough memory_errors
unfolding root
memory_errors-LooksThrough = record {
  not_found = λ text e. refl;
  already_exists = λ text e. refl;
  invalid = λ text e. refl;
  bad_request = λ text e. refl;
  forbidden = λ text e. refl;
  unauthorized = λ text e. refl;
  status = λ text e. refl;
}

pub memory_errors-OnlyForeign : OnlyForeign memory_errors
memory_errors-OnlyForeign = record { not_found = λ e h. ground arith }

abbrev missing_subnet : Error
missing_subnet = wrap "get subnet" (wrap "get kubeovn subnet '%s'" (foreign "NotFound"))

no_status : memory_errors.is_status missing_subnet ≡ false
unfolding root
no_status = refl

subnet_is_missing : is_missing memory_errors missing_subnet ≡ true
unfolding is_missing root
subnet_is_missing = refl

to_grpc_error-wrap_example :
    (code : Code) × (to_grpc_error memory_errors (registered memory_errors) (some missing_subnet)
      ≡ some (status code missing_subnet))
    × ((text : String)
        → to_grpc_error memory_errors (registered memory_errors) (some (wrap text missing_subnet))
          ≡ some (status code (wrap text missing_subnet)))
to_grpc_error-wrap_example =
    to_grpc_error-wrap memory_errors memory_errors-LooksThrough missing_subnet no_status

to_grpc_error-missing_example :
    to_grpc_error memory_errors (registered memory_errors) (some missing_subnet)
    ≡ some (status Code.not_found missing_subnet)
to_grpc_error-missing_example =
    to_grpc_error-missing memory_errors memory_errors-OnlyForeign missing_subnet no_status
      subnet_is_missing
