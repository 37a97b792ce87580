-- ===== src/Network/Kubeovn/Mgmt/Reconciled.antt =====
-- `EnsureManagementNetwork` of mgmt.go: what a run leaves behind, and that a second run is idle.
use mathlib.Core.Path.{subst}
use kube_vim.Common.{
  String, true, false, none, some, Map, ◌≡◌, refl, sym, ap, ◌∙◌, arith, ◌==◌, text_or_empty,
  Bool-cases, inl, inr,
}
use kube_vim.Common.Maps
use kube_vim.Common.Maps.{NodupKeys}
use kube_vim.Go.{Exec, pure, context, Result, ok, ◌>>◌}
use kube_vim.Go.Laws.{bind-eq-ok, context-eq-ok}
use kube_vim.K8s.Objects.{Kind, Object, new_meta}
use kube_vim.K8s.Client.{ObjectKey, key_of}
use kube_vim.K8s.Lawful.{IsLawful, same_ref}
use kube_vim.K8s.Same.{Same, Same-refl, bind-Same}
use kube_vim.Misc.Labels.{HasLabels}
use kube_vim.Network.Types.{Env}
use kube_vim.Network.Kubeovn.Names.{format_subnet_name}
use kube_vim.Network.Kubeovn.Mgmt.{
  ManagementNetworkConfig, mgmt_vpc_labels, mgmt_subnet_labels, mgmt_net_attach_labels, mgmt_vpc,
  mgmt_subnet, mgmt_net_attach, mgmt_required, vpc_key, ensure_object, ensure_mgmt_vpc,
  ensure_mgmt_subnet, ensure_mgmt_net_attach, ensure_mgmt_objects, check_mgmt_config, is_enabled,
  ensure_management_network,
}
use kube_vim.Network.Kubeovn.Mgmt.Ensure.{Ensured, ensure_object-Ensured, step-Ensured}
use kube_vim.Network.Kubeovn.Mgmt.Settled.{ensure_object-settled, ensure_object-settled_value}

NodupKeys-vpc : NodupKeys mgmt_vpc_labels
unfolding mgmt_vpc_labels Maps.lookup
NodupKeys-vpc = (refl, tt)

NodupKeys-net_attach : (n : String) → NodupKeys (mgmt_net_attach_labels n)
unfolding mgmt_net_attach_labels Maps.lookup
NodupKeys-net_attach n = (refl, (refl, tt))

NodupKeys-subnet : (t v id n a : String) → NodupKeys (mgmt_subnet_labels t v id n a)
unfolding mgmt_subnet_labels Maps.lookup
NodupKeys-subnet t v id n a = elim (Bool-cases (id == "")) [
  | inl empty ↦ rw empty (refl, (refl, (refl, (refl, (refl, tt)))))
  | inr set ↦ rw set (refl, (refl, (refl, (refl, (refl, (refl, tt))))))
]

module _ (cfg : ManagementNetworkConfig) where
  abbrev pub vpc_name : String
  vpc_name = text_or_empty cfg.name

  abbrev pub subnet_name : String
  subnet_name = format_subnet_name vpc_name "0"

  abbrev pub nad_name : String
  nad_name = text_or_empty cfg.net_attach_def_name

  abbrev pub nad_namespace : String
  nad_namespace = text_or_empty cfg.net_attach_def_namespace

  abbrev pub nad_key : ObjectKey
  nad_key = record { namespace = nad_namespace; name = nad_name }

module _ {S : Type 0} (env : Env S) (l : IsLawful env.client env.lib.errors) where
  module _ (cfg : ManagementNetworkConfig) where
    -- The required labels of the subnet, which carry the uid of the Vpc.
    abbrev pub subnet_labels : Object Kind.vpc → Map String
    subnet_labels vpc =
        mgmt_required env (vpc_name cfg) vpc.meta.uid (subnet_name cfg) (nad_name cfg)

    abbrev new_subnet : Object Kind.vpc → Object Kind.subnet
    new_subnet vpc = mgmt_subnet env cfg (vpc_name cfg) (subnet_name cfg) (subnet_labels vpc)

    abbrev new_nad : Object Kind.net_attach
    new_nad = mgmt_net_attach env (subnet_name cfg) (nad_name cfg) (nad_namespace cfg)

    -- The three objects of the network, from the state `s` before the run to `t` after it.
    pub record Reconciled (s t : S) : Type 0 where
      pub vpc : Object Kind.vpc
      pub subnet : Object Kind.subnet
      pub net_attach : Object Kind.net_attach
      pub vpc_present : l.stored t Kind.vpc (vpc_key env (vpc_name cfg)) ≡ some vpc
      pub vpc_labelled : HasLabels vpc.meta.labels mgmt_vpc_labels
      pub subnet_present : l.stored t Kind.subnet (vpc_key env (subnet_name cfg)) ≡ some subnet
      pub subnet_labelled : HasLabels subnet.meta.labels (subnet_labels vpc)
      -- the spec of a subnet that was there, its CIDR and gateway with it, is kept
      pub subnet_kept :
          (old : Object Kind.subnet)
          → l.stored s Kind.subnet (vpc_key env (subnet_name cfg)) ≡ some old
          → subnet.spec ≡ old.spec
      pub subnet_built :
          l.stored s Kind.subnet (vpc_key env (subnet_name cfg)) ≡ none
          → subnet.spec ≡ (new_subnet vpc).spec
      pub net_attach_present : l.stored t Kind.net_attach (nad_key cfg) ≡ some net_attach
      pub net_attach_labelled :
          HasLabels net_attach.meta.labels (mgmt_net_attach_labels (subnet_name cfg))
      pub others :
          (j : Kind) (other : ObjectKey)
          → same_ref Kind.vpc (vpc_key env (vpc_name cfg)) j other ≡ false
          → same_ref Kind.subnet (vpc_key env (subnet_name cfg)) j other ≡ false
          → same_ref Kind.net_attach (nad_key cfg) j other ≡ false
          → l.stored t j other ≡ l.stored s j other

    abbrev step_vpc : Exec S (Object Kind.vpc)
    step_vpc = context "ensure management vpc" (ensure_mgmt_vpc env (vpc_name cfg))

    vpc-Ensured :
        (s : S) (vpc : Object Kind.vpc)
        → (step_vpc s).0 ≡ ok vpc
        → Ensured env l Kind.vpc
            (vpc_key env (vpc_name cfg))
            mgmt_vpc_labels
            (mgmt_vpc env (vpc_name cfg))
            s
            (step_vpc s).1
            vpc
    unfolding ensure_mgmt_vpc key_of new_meta
    vpc-Ensured s vpc done =
        ensure_object-Ensured env l Kind.vpc (vpc_key env (vpc_name cfg)) mgmt_vpc_labels
          NodupKeys-vpc (mgmt_vpc env (vpc_name cfg)) refl refl _ s vpc
          (context-eq-ok "ensure management vpc" (ensure_mgmt_vpc env (vpc_name cfg)) s vpc done)

    abbrev step_subnet : Object Kind.vpc → Exec S (Unit {0})
    step_subnet vpc =
        context "ensure management subnet"
          (ensure_mgmt_subnet env cfg (vpc_name cfg) vpc.meta.uid (subnet_name cfg) (nad_name cfg))

    subnet-Ensured :
        (s : S) (vpc : Object Kind.vpc)
        → (step_subnet vpc s).0 ≡ ok tt
        → (o : Object Kind.subnet) × Ensured env l Kind.subnet
            (vpc_key env (subnet_name cfg))
            (subnet_labels vpc)
            (new_subnet vpc)
            s
            (step_subnet vpc s).1
            o
    unfolding ensure_mgmt_subnet key_of new_meta
    subnet-Ensured s vpc done =
        step-Ensured env l Kind.subnet (vpc_key env (subnet_name cfg)) (subnet_labels vpc)
          (NodupKeys-subnet _ (vpc_name cfg) vpc.meta.uid (subnet_name cfg) (nad_name cfg))
          (new_subnet vpc) refl refl (pure (new_subnet vpc)) "ensure management subnet" s done

    abbrev step_nad : Exec S (Unit {0})
    step_nad =
        context "ensure management network-attachment-definition"
          (ensure_mgmt_net_attach env (subnet_name cfg) (nad_name cfg) (nad_namespace cfg))

    nad-Ensured :
        (s : S)
        → (step_nad s).0 ≡ ok tt
        → (o : Object Kind.net_attach) × Ensured env l Kind.net_attach
            (nad_key cfg)
            (mgmt_net_attach_labels (subnet_name cfg))
            new_nad
            s
            (step_nad s).1
            o
    unfolding ensure_mgmt_net_attach key_of new_meta
    nad-Ensured s done =
        step-Ensured env l Kind.net_attach (nad_key cfg) (mgmt_net_attach_labels (subnet_name cfg))
          (NodupKeys-net_attach (subnet_name cfg)) new_nad refl refl (pure new_nad)
          "ensure management network-attachment-definition" s done

    chain-Reconciled :
        (s t r q : S) (vpc : Object Kind.vpc) (subnet : Object Kind.subnet)
        (nad : Object Kind.net_attach)
        → Ensured env l Kind.vpc
            (vpc_key env (vpc_name cfg))
            mgmt_vpc_labels
            (mgmt_vpc env (vpc_name cfg))
            s
            t
            vpc
        → Ensured env l Kind.subnet
            (vpc_key env (subnet_name cfg))
            (subnet_labels vpc)
            (new_subnet vpc)
            t
            r
            subnet
        → Ensured env l Kind.net_attach
            (nad_key cfg)
            (mgmt_net_attach_labels (subnet_name cfg))
            new_nad
            r
            q
            nad
        → Reconciled s q
    chain-Reconciled s t r q vpc subnet nad a b c = record {
      vpc = vpc;
      subnet = subnet;
      net_attach = nad;
      vpc_present = c.others _ _ refl ∙ b.others _ _ refl ∙ a.present;
      vpc_labelled = a.labelled;
      subnet_present = c.others _ _ refl ∙ b.present;
      subnet_labelled = b.labelled;
      subnet_kept = λ old e. b.kept old (a.others _ _ refl ∙ e);
      subnet_built = λ e. b.built (a.others _ _ refl ∙ e);
      net_attach_present = c.present;
      net_attach_labelled = c.labelled;
      others = λ j other x y z. c.others j other z ∙ b.others j other y ∙ a.others j other x;
    }

    objects-Reconciled :
        (s : S)
        → (ensure_mgmt_objects env cfg s).0 ≡ ok tt
        → Reconciled s (ensure_mgmt_objects env cfg s).1
    unfolding ensure_mgmt_objects
    objects-Reconciled s done =
        let (vpc, first, rest) = bind-eq-ok step_vpc _ s tt done in
        let s1 = (step_vpc s).1 in
        let (_, second, rest') =
          bind-eq-ok (step_subnet vpc) (λ _. step_nad) s1 tt
            (sym (ap (λ (r : Result (Unit {0}) × S). r.0) rest) ∙ done) in
        let s2 = (step_subnet vpc s1).1 in
        let whole = rest ∙ rest' in
        let (subnet, b) = subnet-Ensured s1 vpc second in
        let (nad, c) =
          nad-Ensured s2 (sym (ap (λ (r : Result (Unit {0}) × S). r.0) whole) ∙ done) in
        subst (Reconciled s) (sym (ap (λ (r : Result (Unit {0}) × S). r.1) whole))
          (chain-Reconciled s s1 s2 (step_nad s2).1 vpc subnet nad (vpc-Ensured s vpc first) b c)

    check_mgmt_config-state : (s : S) → (check_mgmt_config env cfg s).1 ≡ s
    unfolding check_mgmt_config
    check_mgmt_config-state s = ground arith

    run_checked :
        (s : S)
        → is_enabled env (some cfg) ≡ true
        → (ensure_management_network env (some cfg) s).0 ≡ ok tt
        → ensure_management_network env (some cfg) s ≡ ensure_mgmt_objects env cfg s
    unfolding ensure_management_network
    run_checked s on = rw on λ done.
        let (_, first, rest) =
          bind-eq-ok (check_mgmt_config env cfg) (λ _. ensure_mgmt_objects env cfg) s tt done in
        rest ∙ ap (ensure_mgmt_objects env cfg) (check_mgmt_config-state s)

    -- Over an API that meets the documented laws, an enabled run of EnsureManagementNetwork that
    -- succeeds leaves the Vpc, the subnet and the attachment definition stored with their required
    -- labels, builds a missing subnet from the configuration, keeps the spec of a subnet that was
    -- there, and touches no other object.
    pub ensure_management_network-Reconciled :
        (s : S)
        → is_enabled env (some cfg) ≡ true
        → (ensure_management_network env (some cfg) s).0 ≡ ok tt
        → Reconciled s (ensure_management_network env (some cfg) s).1
    ensure_management_network-Reconciled s on done =
        let run = run_checked s on done in
        rw run (objects-Reconciled s (sym (ap (λ (r : Result (Unit {0}) × S). r.0) run) ∙ done))

    step_vpc-settled :
        (t : S) (o : Object Kind.vpc)
        → l.stored t Kind.vpc (vpc_key env (vpc_name cfg)) ≡ some o
        → HasLabels o.meta.labels mgmt_vpc_labels
        → Same l t (step_vpc t).1 × ((x : Object Kind.vpc) → (step_vpc t).0 ≡ ok x → o ≡ x)
    unfolding ensure_mgmt_vpc
    step_vpc-settled t o present labelled = (
      ensure_object-settled env l Kind.vpc (vpc_key env (vpc_name cfg)) mgmt_vpc_labels
          NodupKeys-vpc o t present labelled _ _,
      λ x e. sym (
          ensure_object-settled_value env l Kind.vpc (vpc_key env (vpc_name cfg)) mgmt_vpc_labels
            NodupKeys-vpc o t present labelled _ _ x
            (context-eq-ok "ensure management vpc" (ensure_mgmt_vpc env (vpc_name cfg)) t x e)),
    )

    step_subnet-settled :
        (t : S) (vpc : Object Kind.vpc) (o : Object Kind.subnet)
        → l.stored t Kind.subnet (vpc_key env (subnet_name cfg)) ≡ some o
        → HasLabels o.meta.labels (subnet_labels vpc)
        → Same l t (step_subnet vpc t).1
    unfolding ensure_mgmt_subnet
    step_subnet-settled t vpc o present labelled =
        bind-Same l
          (ensure_object env Kind.subnet (vpc_key env (subnet_name cfg)) (subnet_labels vpc)
            (new_subnet vpc) (pure (new_subnet vpc)))
          (λ _. pure tt) t
          (ensure_object-settled env l Kind.subnet (vpc_key env (subnet_name cfg))
            (subnet_labels vpc)
            (NodupKeys-subnet _ (vpc_name cfg) vpc.meta.uid (subnet_name cfg) (nad_name cfg)) o t
            present labelled _ _)
          (λ _ _. Same-refl l _)

    step_nad-settled :
        (t : S) (o : Object Kind.net_attach)
        → l.stored t Kind.net_attach (nad_key cfg) ≡ some o
        → HasLabels o.meta.labels (mgmt_net_attach_labels (subnet_name cfg))
        → Same l t (step_nad t).1
    unfolding ensure_mgmt_net_attach
    step_nad-settled t o present labelled =
        bind-Same l
          (ensure_object env Kind.net_attach (nad_key cfg)
            (mgmt_net_attach_labels (subnet_name cfg)) new_nad (pure new_nad))
          (λ _. pure tt) t
          (ensure_object-settled env l Kind.net_attach (nad_key cfg)
            (mgmt_net_attach_labels (subnet_name cfg)) (NodupKeys-net_attach (subnet_name cfg)) o t
            present labelled _ _)
          (λ _ _. Same-refl l _)

    settled_objects : (s t : S) → Reconciled s t → Same l t (ensure_mgmt_objects env cfg t).1
    unfolding ensure_mgmt_objects
    settled_objects s t h =
        let (same, value) = step_vpc-settled t h.vpc h.vpc_present h.vpc_labelled in
        bind-Same l step_vpc (λ vpc. step_subnet vpc >> step_nad) t same
          λ vpc found.
            let same' =
              step_subnet-settled (step_vpc t).1 vpc h.subnet (same.at _ _ ∙ h.subnet_present) (
                subst (λ v. HasLabels h.subnet.meta.labels (subnet_labels v)) (value vpc found)
                  h.subnet_labelled) in
            bind-Same l (step_subnet vpc) (λ _. step_nad) (step_vpc t).1 same'
              λ _ _.
                step_nad-settled (step_subnet vpc (step_vpc t).1).1 h.net_attach
                  (same'.at _ _ ∙ same.at _ _ ∙ h.net_attach_present) h.net_attach_labelled

    run_again :
        (t : S)
        → is_enabled env (some cfg) ≡ true
        → Same l t (ensure_mgmt_objects env cfg t).1
        → Same l t (ensure_management_network env (some cfg) t).1
    unfolding ensure_management_network
    run_again t on same = rw on (
        bind-Same l (check_mgmt_config env cfg) (λ _. ensure_mgmt_objects env cfg) t
          (rw check_mgmt_config-state (Same-refl l t)) (λ _ _. rw check_mgmt_config-state same))

    -- Over an API that meets the documented laws, once an enabled run of EnsureManagementNetwork
    -- has succeeded, another run leaves every stored object as it is, also where a call of it
    -- fails.
    pub ensure_management_network_twice :
        (s : S)
        → is_enabled env (some cfg) ≡ true
        → (ensure_management_network env (some cfg) s).0 ≡ ok tt
        → let t = (ensure_management_network env (some cfg) s).1 in
          Same l t (ensure_management_network env (some cfg) t).1
    ensure_management_network_twice s on done =
        run_again (ensure_management_network env (some cfg) s).1 on
          (settled_objects s _ (ensure_management_network-Reconciled s on done))
