-- ===== src/Errors/Grpc.antt =====
-- internal/errors/{grpc,common,k8s}.go, and the converters of image/errors.go and
-- compute/kubevirt/errors.go: the status that a handler's error becomes.
use kube_vim.Common.{
  String, true, false, Option, none, some, List, [], ◌∷◌, ◌++◌, ◌||◌, ◌≡◌, ◌∙◌, arith, Bool-cases,
  inl, inr, if◌then◌else◌,
}
use kube_vim.Errors.{
  Error, root, Code, ForeignErrors, LooksThrough, status, is_missing, is_err_not_found, wrap,
  foreign,
}

-- `ConvertToGrpcError` of a registered converter; `none` is the nil that hands the error on.
abbrev pub Converter : Type 0
Converter = Error → Option Error

-- `RegisterErrorConverter`
unfoldable pub register_error_converter : List Converter → Converter → List Converter
register_error_converter converters converter = converters ++ (converter ∷ [])

-- The tests of CommonErrorConverter, each of which asks for another value at the end of the chain.
unfoldable pub common_code : Error → Option Code
common_code e = elim e [
  | Error.not_found entity id ↦ some Code.not_found
  | Error.invalid_argument field reason ↦ some Code.invalid_argument
  | Error.already_exists entity id ↦ some Code.already_exists
  | Error.permission_denied resource reason ↦ some Code.permission_denied
  | Error.not_implemented ↦ some Code.unimplemented
  | Error.unsupported ↦ some Code.unimplemented
  | Error.internal ↦ some Code.internal
  | _ ↦ none
]

abbrev pub with_code : Option Code → Converter
with_code none e = none
with_code (some code) e = some (status code e)

unfoldable pub common_converter : Converter
unfolding common_code root
common_converter e = with_code (common_code (root e)) e

unfoldable pub k8s_object_code : Error → Option Code
k8s_object_code e = elim e [
  | Error.object_not_instantiated kind name ↦ some Code.invalid_argument
  | Error.object_not_managed kind name uid ↦ some Code.permission_denied
  | _ ↦ none
]

-- The predicates of the Kubernetes API errors, in the order of the code.
unfoldable pub k8s_api_code : ForeignErrors → Error → Option Code
k8s_api_code f e =
    if f.is_not_found e
    then some Code.not_found
    else if f.is_already_exists e
    then some Code.already_exists
    else if f.is_invalid e || f.is_bad_request e
    then some Code.invalid_argument
    else if f.is_forbidden e
    then some Code.permission_denied
    else if f.is_unauthorized e
    then some Code.unauthenticated
    else none

unfoldable pub k8s_code : ForeignErrors → Error → Option Code
unfolding k8s_object_code k8s_api_code root
k8s_code f e = elim (k8s_object_code (root e)) [ some c ↦ some c | none ↦ k8s_api_code f e ]

unfoldable pub k8s_converter : ForeignErrors → Converter
unfolding k8s_code
k8s_converter f e = with_code (k8s_code f e) e

unfoldable pub image_code : Error → Option Code
image_code e = elim e [
  | Error.data_volume_already_exists name ↦ some Code.already_exists
  | Error.data_volume_not_found name uid ↦ some Code.not_found
  | Error.apply_option ↦ some Code.invalid_argument
  | _ ↦ none
]

unfoldable pub image_converter : Converter
unfolding image_code root
image_converter e = with_code (image_code (root e)) e

unfoldable pub compute_code : Error → Option Code
compute_code e = elim e [ Error.ipam_configuration_missing ↦ some Code.invalid_argument | _ ↦ none ]

unfoldable pub compute_converter : Converter
unfolding compute_code root
compute_converter e = with_code (compute_code (root e)) e

-- The loop of `ToGRPCError`; an error that no converter takes is Internal.
unfoldable pub convert_with : List Converter → Converter
convert_with [] e = some (status Code.internal e)
convert_with (converter ∷ converters) e =
    let later = convert_with converters e in
    elim (converter e) [ none ↦ later | some grpc_err ↦ some grpc_err ]

-- `ToGRPCError`; `none` is nil.
unfoldable pub to_grpc_error : ForeignErrors → List Converter → Option Error → Option Error
unfolding convert_with
to_grpc_error f converters none = none
to_grpc_error f converters (some e) = if f.is_status e then some e else convert_with converters e

-- The converters in the order of the packages' `init`s: those of the package itself, then those of
-- the packages that import it.
unfoldable pub registered : ForeignErrors → List Converter
unfolding register_error_converter
registered f =
    register_error_converter
      (register_error_converter
        (register_error_converter (register_error_converter [] common_converter) (k8s_converter f))
        image_converter)
      compute_converter

-- The Kubernetes predicates hold of Kubernetes errors only.
pub record OnlyForeign (f : ForeignErrors) : Type 0 where
  pub not_found : (e : Error) → f.is_not_found e ≡ true → (text : String) × (root e ≡ foreign text)

-- The code that an error gets, `none` where it stands as a status already.
code_of : ForeignErrors → Error → Code
unfolding k8s_code
code_of f e = elim (common_code (root e)) [
  | some c ↦ c
  | none ↦ elim (k8s_code f e) [
    | some c ↦ c
    | none ↦ elim (compute_code (root e)) [
      | some c ↦ c
      | none ↦ elim (image_code (root e)) [ some c ↦ c | none ↦ Code.internal ]
    ]
  ]
]

to_grpc_error-code_of :
    (f : ForeignErrors) (e : Error)
    → f.is_status e ≡ false
    → to_grpc_error f (registered f) (some e) ≡ some (status (code_of f e) e)
unfolding to_grpc_error registered common_converter k8s_converter compute_converter image_converter
    convert_with code_of register_error_converter
to_grpc_error-code_of f e plain = ground arith

code_of-wrap :
    (f : ForeignErrors)
    → LooksThrough f
    → (text : String) (e : Error) → code_of f (wrap text e) ≡ code_of f e
unfolding code_of k8s_code k8s_api_code root
code_of-wrap f through text e = ground (
  arith,
  through.not_found text e,
  through.already_exists text e,
  through.invalid text e,
  through.bad_request text e,
  through.forbidden text e,
  through.unauthorized text e,
)

code_of-foreign :
    (f : ForeignErrors) (e : Error) (text : String)
    → root e ≡ foreign text
    → f.is_not_found e ≡ true
    → code_of f e ≡ Code.not_found
unfolding code_of common_code k8s_code k8s_object_code k8s_api_code
code_of-foreign f e text end found = ground arith

code_of-not_found :
    (f : ForeignErrors) (e : Error) → is_err_not_found e ≡ true → code_of f e ≡ Code.not_found
unfolding code_of common_code is_err_not_found
code_of-not_found f e found = ground arith

code_of-missing :
    (f : ForeignErrors)
    → OnlyForeign f
    → (e : Error) → is_missing f e ≡ true
    → code_of f e ≡ Code.not_found
unfolding is_missing
code_of-missing f only e missing = elim (Bool-cases (f.is_not_found e)) [
  | inl found ↦ let (text, end) = only.not_found e found in code_of-foreign f e text end found
  | inr lost ↦ code_of-not_found f e (ground arith)
]

-- With library predicates that look through wrapped errors, whatever text is put before an error
-- that is no status yet, the client gets a status of one code, with the registered converters.
pub to_grpc_error-wrap :
    (f : ForeignErrors)
    → LooksThrough f
    → (e : Error) → f.is_status e ≡ false
    → (code : Code) × (to_grpc_error f (registered f) (some e) ≡ some (status code e))
      × ((text : String)
          → to_grpc_error f (registered f) (some (wrap text e)) ≡ some (status code (wrap text e)))
to_grpc_error-wrap f through e plain = (
  code_of f e,
  to_grpc_error-code_of f e plain,
  λ text.
      to_grpc_error-code_of f (wrap text e) (through.status text e ∙ plain)
      ∙ rw (code_of-wrap f through text e),
)

-- With a Kubernetes NotFound test that holds of Kubernetes errors only, an error that the managers
-- take for a missing object, and that is no status yet, reaches the client as NotFound.
pub to_grpc_error-missing :
    (f : ForeignErrors)
    → OnlyForeign f
    → (e : Error) → f.is_status e ≡ false
    → is_missing f e ≡ true
    → to_grpc_error f (registered f) (some e) ≡ some (status Code.not_found e)
to_grpc_error-missing f only e plain missing =
    to_grpc_error-code_of f e plain ∙ rw (code_of-missing f only e missing)
