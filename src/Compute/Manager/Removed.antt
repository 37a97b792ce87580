-- ===== src/Compute/Manager/Removed.antt =====
-- What DeleteComputeResource of internal/kubevim/compute/kubevirt/manager.go takes out of the store.
use mathlib.Core.Path.{subst}
use kube_vim.Common.{
  String, ◌<>◌, false, none, List, ◌≡◌, refl, sym, ap, ◌∙◌, arith, inl, inr, Bool-cases,
}
use kube_vim.Go.{Exec, Result, ok, call, context, ◌>>=◌}
use kube_vim.Go.Laws.{Reply-cases, bind-eq-ok, context-eq-ok, call-eq-ok}
use kube_vim.K8s.Objects.{Kind}
use kube_vim.K8s.Client.{ObjectKey}
use kube_vim.K8s.Lawful.{IsLawful, IsGoing, same_ref}
use kube_vim.Compute.Types.{VirtualCompute, GetComputeOpt}
use kube_vim.Compute.Volumes.{kubevirt_vm_cloud_init_secret_suffix}
use kube_vim.Compute.Manager.{
  ComputeEnv, vm_key, get_compute_resource, delete_secret, delete_compute_resource,
}

module _ {S : Type 0} (env : ComputeEnv S) (l : IsLawful env.client env.errors) where
  abbrev secret_key : String → ObjectKey
  secret_key name = vm_key env (name <> kubevirt_vm_cloud_init_secret_suffix)

  -- The machine is gone or marked as deleted, its secret is gone, and nothing else has changed.
  pub record MachineGoing (name : String) (s t : S) : Type 0 where
    pub machine : IsGoing (l.stored t Kind.vm (vm_key env name))
    pub secret : l.stored t Kind.secret (secret_key name) ≡ none
    pub others :
        (j : Kind) (other : ObjectKey)
        → same_ref Kind.vm (vm_key env name) j other ≡ false
        → same_ref Kind.secret (secret_key name) j other ≡ false
        → l.stored t j other ≡ l.stored s j other

  -- A secret that could not be deleted was missing.
  delete_secret-gone :
      (name : String) (s : S)
      → (delete_secret env (name <> kubevirt_vm_cloud_init_secret_suffix) s).0 ≡ ok tt
      → l.stored
          (delete_secret env (name <> kubevirt_vm_cloud_init_secret_suffix) s).1
          Kind.secret
          (secret_key name)
        ≡ none
  unfolding delete_secret
  delete_secret-gone name s h =
      elim (Reply-cases (env.client.delete Kind.secret (secret_key name) s).0) [
        | inl (done, answered) ↦
            rw (answered) (l.delete_removes Kind.secret (secret_key name) s done refl answered)
        | inr (e, refused) ↦ elim (Bool-cases (env.errors.is_not_found e)) [
          | inr other ↦ absurd (ground (arith, refused, other))
          | inl missing ↦
              rw (refused, missing)
                (l.delete_refused Kind.secret (secret_key name) s e Kind.secret (secret_key name)
                    refused
                  ∙ l.delete_missing Kind.secret (secret_key name) s e refused missing)
        ]
      ]

  delete_secret-state :
      (name : String) (s : S)
      → (delete_secret env name s).1 ≡ (env.client.delete Kind.secret (vm_key env name) s).1
  unfolding delete_secret
  delete_secret-state name s =
      elim (Reply-cases (env.client.delete Kind.secret (vm_key env name) s).0) [
        | inl (done, answered) ↦ rw (answered) refl
        | inr (e, refused) ↦ elim (Bool-cases (env.errors.is_not_found e)) [
          | inr other ↦ rw (refused, other) refl
          | inl missing ↦ rw (refused, missing) refl
        ]
      ]

  abbrev delete_vm : String → Exec S (Unit {0})
  delete_vm name =
      context "delete kubevirt VirtualMachine '%s' (id: %s)"
        (call (env.client.delete Kind.vm (vm_key env name)))

  abbrev delete_named : VirtualCompute → Exec S (Unit {0})
  delete_named vm = delete_vm vm.compute_name >>= λ done.
      delete_secret env (vm.compute_name <> kubevirt_vm_cloud_init_secret_suffix)

  delete_named-MachineGoing :
      (vm : VirtualCompute) (s : S)
      → (delete_named vm s).0 ≡ ok tt
      → MachineGoing vm.compute_name s (delete_named vm s).1
  delete_named-MachineGoing vm s h =
      let name = vm.compute_name in
      let secret_name = name <> kubevirt_vm_cloud_init_secret_suffix in
      let (done, first, rest) =
        bind-eq-ok (delete_vm name) (λ done. delete_secret env secret_name) s tt h in
      let t = (delete_vm name s).1 in
      let answered = call-eq-ok (env.client.delete Kind.vm (vm_key env name)) s done (
        context-eq-ok "delete kubevirt VirtualMachine '%s' (id: %s)"
          (call (env.client.delete Kind.vm (vm_key env name))) s done first) in
      let state = delete_secret-state secret_name t in
      subst (λ x. MachineGoing name s x) (sym (ap (λ (r : Result (Unit {0}) × S). r.1) rest))
        (record {
          machine =
              subst IsGoing
                (sym (
                  ap (λ x. l.stored x Kind.vm (vm_key env name)) state
                  ∙ l.delete_other Kind.secret (secret_key name) t Kind.vm (vm_key env name) refl))
                (l.delete_marks Kind.vm (vm_key env name) s done answered);
          secret =
              delete_secret-gone name t (sym (ap (λ (r : Result (Unit {0}) × S). r.0) rest) ∙ h);
          others = λ j other ne ne'.
              ap (λ x. l.stored x j other) state
              ∙ l.delete_other Kind.secret (secret_key name) t j other ne'
              ∙ l.delete_other Kind.vm (vm_key env name) s j other ne;
        })

  -- Over an API that meets the documented laws, a deletion of a machine that succeeds has looked
  -- the machine up, and leaves no machine of its name but one that is marked as deleted, and not
  -- its cloud-init secret; since the lookup, no other object has changed.
  pub delete_compute_resource-MachineGoing :
      (opts : List GetComputeOpt) (s : S)
      → (delete_compute_resource env opts s).0 ≡ ok tt
      → (vm : VirtualCompute) × ((get_compute_resource env opts s).0 ≡ ok vm)
        × MachineGoing vm.compute_name
            (get_compute_resource env opts s).1
            (delete_compute_resource env opts s).1
  unfolding delete_compute_resource
  delete_compute_resource-MachineGoing opts s h =
      let find_vm = context "get virtual machine for deletion" (get_compute_resource env opts) in
      let (vm, found, rest) =
        bind-eq-ok (context "get virtual machine for deletion" (get_compute_resource env opts))
          delete_named s tt h in
      (
        vm,
        context-eq-ok "get virtual machine for deletion" (get_compute_resource env opts) s vm found,
        subst (λ x. MachineGoing vm.compute_name (find_vm s).1 x)
            (sym (ap (λ (r : Result (Unit {0}) × S). r.1) rest))
            (delete_named-MachineGoing vm (find_vm s).1
              (sym (ap (λ (r : Result (Unit {0}) × S). r.0) rest) ∙ h)),
      )
