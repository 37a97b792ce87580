-- ===== src/Server/Terminate.antt =====
-- TerminateVirtualisedNetworkResource of internal/kubevim/server/grpc/vivnfm/server.go.
use kube_vim.Common.{
  true, false, Option, none, some, [], ◌∷◌, ◌≡◌, ◌⊎◌, refl, ap, ◌∙◌, inl, inr, Bool-cases, arith,
}
use kube_vim.Errors.{Error, Code, LooksThrough, status, wrap, is_missing, is_missing-wrap}
use kube_vim.Errors.Grpc.{OnlyForeign, to_grpc_error-missing}
use kube_vim.Go.{Result, ok, err}
use kube_vim.Go.Laws.{Result-cases}
use kube_vim.Network.Types.{Identifier, GetNetworkOpt, GetSubnetOpt}
use kube_vim.Server.{ViVnfmServer, terminate_network, error_conversion_interceptor, converted}

module _ {S : Type 0} (server : ViVnfmServer S) (id : Option Identifier) (s : S) where
  abbrev pub network_deletion : Result (Unit {0}) × S
  network_deletion = server.network_mgr.delete_network (GetNetworkOpt.by_uid id ∷ []) s

  -- It is tried in the state that the first attempt left.
  abbrev pub subnet_deletion : Result (Unit {0}) × S
  subnet_deletion =
      server.network_mgr.delete_subnet (GetSubnetOpt.by_uid id ∷ []) network_deletion.1

  -- The network manager does not find the network.
  pub record NetworkMissing : Type 0 where
    pub error : Error
    pub raised : network_deletion.0 ≡ err error
    pub missing : is_missing server.errors error ≡ true

  pub record SubnetMissing : Type 0 where
    pub error : Error
    pub raised : subnet_deletion.0 ≡ err error
    pub missing : is_missing server.errors error ≡ true

  -- What stands for the id is deleted: a network, or else a subnet.
  abbrev pub Deleted : Type 0
  Deleted = (network_deletion.0 ≡ ok tt) ⊎ (NetworkMissing × (subnet_deletion.0 ≡ ok tt))

  subnet_tried :
      (x : Option Identifier) (e : Error)
      → network_deletion.0 ≡ err e
      → is_missing server.errors e ≡ true
      → (terminate_network server id s).0 ≡ ok x
      → subnet_deletion.0 ≡ ok tt
  unfolding terminate_network
  subnet_tried x e raised missing h = elim (Result-cases subnet_deletion.0) [
    | inl (done, deleted) ↦ deleted
    | inr (inl (e', failed)) ↦ elim (Bool-cases (is_missing server.errors e')) [
      | inl lost ↦ absurd (ground (arith, raised, missing, failed, lost))
      | inr other ↦ absurd (ground (arith, raised, missing, failed, other))
    ]
    | inr (inr panicked) ↦ absurd (ground (arith, raised, missing, panicked))
  ]

  -- A request to terminate a network resource succeeds only if the network manager deleted a
  -- network of the id, or did not find one and then deleted a subnet of the id.
  pub terminate_network-Deleted :
      (x : Option Identifier) → (terminate_network server id s).0 ≡ ok x → Deleted
  unfolding terminate_network
  terminate_network-Deleted x h = elim (Result-cases network_deletion.0) [
    | inl (done, deleted) ↦ inl deleted
    | inr (inl (e, raised)) ↦ elim (Bool-cases (is_missing server.errors e)) [
      | inl missing ↦ inr (
        record { error = e; raised = raised; missing = missing },
        subnet_tried x e raised missing h,
      )
      | inr other ↦ absurd (ground (arith, raised, other))
    ]
    | inr (inr panicked) ↦ absurd (ground (arith, panicked))
  ]

  abbrev pub not_found_anywhere : Error → Error
  not_found_anywhere e = wrap "network resource '%s' not found in networks or subnets" e

  both_missing :
      (n : NetworkMissing) (m : SubnetMissing)
      → (terminate_network server id s).0 ≡ err (not_found_anywhere m.error)
  unfolding terminate_network
  both_missing n m = rw (n.raised, n.missing, m.raised, m.missing) refl

  -- With library predicates that look through wrapped errors, and a Kubernetes NotFound test that
  -- holds of Kubernetes errors only, a request to terminate a network resource that is neither
  -- found as a network nor, after that, as a subnet reaches the client as NotFound, if the error
  -- of the subnet is no status yet.
  pub terminate_network-NotFound :
      LooksThrough server.errors
      → OnlyForeign server.errors
      → (n : NetworkMissing) (m : SubnetMissing) → server.errors.is_status m.error ≡ false
      → (error_conversion_interceptor server.errors (terminate_network server id) s).0
        ≡ err (status Code.not_found (not_found_anywhere m.error))
  unfolding error_conversion_interceptor
  terminate_network-NotFound through only n m plain =
      ap (converted server.errors) (both_missing n m)
      ∙ ap
          (λ (o : Option Error). elim o [
            | none ↦ err (not_found_anywhere m.error)
            | some grpc_err ↦ err grpc_err
          ])
          (to_grpc_error-missing server.errors only (not_found_anywhere m.error)
            (through.status _ m.error ∙ plain)
            (is_missing-wrap server.errors through _ m.error ∙ m.missing))
