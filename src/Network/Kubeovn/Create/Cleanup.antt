-- ===== src/Network/Kubeovn/Create/Cleanup.antt =====
-- `CreateSubnet` of kubeovn/manager.go, where the apiserver refuses the subnet after the attachment
-- definition was created.
use kube_vim.Common.{refl, String, false, none, ◌≡◌, ap, ◌∙◌}
use kube_vim.Errors.{Error, wrap}
use kube_vim.Go.{Result, err, answer, refuse}
use kube_vim.K8s.Objects.{Kind, Object, new_meta}
use kube_vim.K8s.Client.{ObjectKey, key_of}
use kube_vim.K8s.Lawful.{IsLawful, same_ref}
use kube_vim.Network.Types.{Env, NetworkSubnet}
use kube_vim.Network.Kubeovn.Names.{format_net_attach_name}
use kube_vim.Network.Kubeovn.Subnets.{nad_key}
use kube_vim.Network.Kubeovn.Create.{
  with_provider, subnet_net_attach, create_with_cleanup, create_subnet_objects,
}

module _ {S : Type 0} (env : Env S) (subnet : Object Kind.subnet) (s : S) where
  abbrev nad_name : String
  nad_name = format_net_attach_name subnet.meta.name

  abbrev new_nad : Object Kind.net_attach
  new_nad = subnet_net_attach env subnet.meta.name

  -- The states after the attachment definition, the subnet, and the cleanup.
  abbrev pub with_nad : S
  with_nad = (env.client.create Kind.net_attach new_nad s).1

  abbrev pub sent : Object Kind.subnet
  sent = with_provider env nad_name subnet

  abbrev pub with_refusal : S
  with_refusal = (env.client.create Kind.subnet sent with_nad).1

  abbrev pub cleaned : S
  cleaned = (env.client.delete Kind.net_attach (nad_key env nad_name) with_refusal).1

  refused_run :
      (nad : Object Kind.net_attach) (e : Error)
      → (env.client.create Kind.net_attach new_nad s).0 ≡ answer nad
      → (env.client.create Kind.subnet sent with_nad).0 ≡ refuse e
      → (env.client.delete Kind.net_attach (nad_key env nad_name) with_refusal).0 ≡ answer tt
      → create_subnet_objects env subnet s ≡ (err (wrap "create kubeovn subnet '%s'" e), cleaned)
  unfolding create_subnet_objects create_with_cleanup
  refused_run nad e made refused deleted = rw (made, refused, deleted)

  -- What a refused subnet leaves: the error of the refusal, no attachment definition of the subnet's
  -- name, and all other objects as they were.
  pub record Undone (e : Error) (l : IsLawful env.client env.lib.errors) : Type 0 where
    pub error : (create_subnet_objects env subnet s).0 ≡ err (wrap "create kubeovn subnet '%s'" e)
    pub gone :
        l.stored (create_subnet_objects env subnet s).1 Kind.net_attach (nad_key env nad_name)
        ≡ none
    pub others :
        (j : Kind) (other : ObjectKey)
        → same_ref Kind.net_attach (nad_key env nad_name) j other ≡ false
        → l.stored (create_subnet_objects env subnet s).1 j other ≡ l.stored s j other

  others_kept :
      (l : IsLawful env.client env.lib.errors) (e : Error)
      → (env.client.create Kind.subnet sent with_nad).0 ≡ refuse e
      → (j : Kind) (other : ObjectKey)
      → same_ref Kind.net_attach (nad_key env nad_name) j other ≡ false
      → l.stored cleaned j other ≡ l.stored s j other
  unfolding subnet_net_attach new_meta key_of
  others_kept l e refused j other ne =
      l.delete_other Kind.net_attach (nad_key env nad_name) with_refusal j other ne
      ∙ l.create_refused Kind.subnet sent with_nad e j other refused
      ∙ l.create_other Kind.net_attach new_nad s j other ne

  -- Over an API that meets the documented laws, where the attachment definition is created, the
  -- subnet is refused, and the deletion of the definition is answered, the creation of a subnet
  -- returns the refusal, leaves no attachment definition of that name, and leaves all other
  -- objects as they were.
  pub create_subnet_objects-Undone :
      (l : IsLawful env.client env.lib.errors) (nad : Object Kind.net_attach) (e : Error)
      → (env.client.create Kind.net_attach new_nad s).0 ≡ answer nad
      → (env.client.create Kind.subnet sent with_nad).0 ≡ refuse e
      → (env.client.delete Kind.net_attach (nad_key env nad_name) with_refusal).0 ≡ answer tt
      → Undone e l
  create_subnet_objects-Undone l nad e made refused deleted =
      let run = refused_run nad e made refused deleted in
      let state = ap (λ (r : Result NetworkSubnet × S). r.1) run in
      record {
        error = ap (λ (r : Result NetworkSubnet × S). r.0) run;
        gone =
            ap (λ x. l.stored x Kind.net_attach (nad_key env nad_name)) state
            ∙ l.delete_removes Kind.net_attach (nad_key env nad_name) with_refusal tt refl deleted;
        others =
            λ j other ne. ap (λ x. l.stored x j other) state ∙ others_kept l e refused j other ne;
      }
