-- ===== src/Network/Kubeovn/Create/ReadBack.antt =====
-- `CreateSubnet` of kubeovn/manager.go: a created subnet, looked up by its name, and what a refused
-- one leaves.
use mathlib.Core.Path.{subst}
use kube_vim.Common.{
  String, true, false, Option, none, some, [], ◌∷◌, ◌≡◌, refl, sym, ap, ◌∙◌, ◌⊎◌, inl, inr, arith,
  ◌==◌, Bool-cases,
}
use kube_vim.Errors.{Error, wrap}
use kube_vim.Go.{
  ignore, Exec, Result, ok, Reply, answer, refuse, call, context, deref, lift, inspect, pure, raise,
  ◌>>=◌, ◌>>◌,
}
use kube_vim.Go.Laws.{bind-eq-ok, context-eq-ok, call-eq-ok, inspect-cases}
use kube_vim.K8s.Objects.{Kind, Object, new_meta, is_object_managed_by_kube_nfv}
use kube_vim.K8s.Client.{ObjectKey, key_of, is_cached}
use kube_vim.K8s.Lawful.{IsLawful, IsSynced}
use kube_vim.Network.Types.{
  Env, Libraries, NetworkType, overlay, underlay, sriov, VirtualNetwork, NetworkSubnetData,
  NetworkSubnet, GetSubnetOpt,
}
use kube_vim.Network.Kubeovn.Names.{format_net_attach_name}
use kube_vim.Network.Kubeovn.Convert.{
  kubeovn_subnet_from_nfv_subnet_data, subnet_from_protocol, subnet_with_spec,
  nfv_network_subnet_from_kubeovn_subnet,
}
use kube_vim.Network.Kubeovn.Subnets.{
  nad_key, cluster_key, get_subnet, get_subnet_with, get_subnet_by_name, delete_subnet,
}
use kube_vim.Network.Kubeovn.Subnets.Delete.{shown_of}
use kube_vim.Network.Kubeovn.Create.{
  place_in, network_labels, with_provider, subnet_net_attach, create_with_cleanup,
  converted_or_deleted, create_subnet_objects, attach_named, attach_to_network, subnet_network,
  create_subnet,
}

raise_after :
    {S A B : Type 0} (m : Exec S A) (e : Error) (s : S) (b : B) → ((m >> raise e) s).0 ≡ ok b → ⊥
raise_after m e s b h = let (_, _, rest) = bind-eq-ok m (λ _. raise e) s b h in absurd (cc)

-- An action whose failure is cleaned up and passed on: success comes from the action alone.
module _ {S A : Type 0} (m : Exec S A) (cleanup : Error → Exec S (Unit {0})) (text : String) where
  abbrev pub undone_on_error : Exec S A
  undone_on_error = inspect m pure λ e. cleanup e >> raise (wrap text e)

  pub undone_on_error-ok :
      (s : S) (a : A)
      → (undone_on_error s).0 ≡ ok a
      → ((m s).0 ≡ ok a) × ((undone_on_error s).1 ≡ (m s).1)
  undone_on_error-ok s a h =
      elim (inspect-cases m pure (λ e. cleanup e >> raise (wrap text e)) s a h) [
        | inl (b, made, whole) ↦ (
          made ∙ sym (ap (λ (r : Result A × S). r.0) whole) ∙ h,
          ap (λ (r : Result A × S). r.1) whole,
        )
        | inr (e, refused, whole) ↦ absurd (
            raise_after (cleanup e) (wrap text e) (m s).1 a
              (sym (ap (λ (r : Result A × S). r.0) whole) ∙ h))
      ]

module _ {S : Type 0} (env : Env S) where
  create_with_cleanup-ok :
      (nad_name : String) (x o : Object Kind.subnet) (s : S)
      → (create_with_cleanup env nad_name x s).0 ≡ ok o
      → ((env.client.create Kind.subnet x s).0 ≡ answer o)
        × ((create_with_cleanup env nad_name x s).1 ≡ (env.client.create Kind.subnet x s).1)
  unfolding create_with_cleanup
  create_with_cleanup-ok nad_name x o s h =
      let (made, state) =
        undone_on_error-ok (call (env.client.create Kind.subnet x))
          (λ e. ignore (call (env.client.delete Kind.net_attach (nad_key env nad_name))))
          "create kubeovn subnet '%s'" s o h in
      (call-eq-ok (env.client.create Kind.subnet x) s o made, state)

  converted_or_deleted-ok :
      (o : Object Kind.subnet) (sub : NetworkSubnet) (s : S)
      → (converted_or_deleted env o s).0 ≡ ok sub
      → (nfv_network_subnet_from_kubeovn_subnet o ≡ ok sub) × ((converted_or_deleted env o s).1 ≡ s)
  unfolding converted_or_deleted
  converted_or_deleted-ok o sub s h =
      undone_on_error-ok (lift (nfv_network_subnet_from_kubeovn_subnet o))
        (λ e. ignore (delete_subnet env (GetSubnetOpt.by_uid (some o.meta.uid) ∷ [])))
        "convert created kubeovn subnet '%s' (id: %s) to vivnfm.NetworkSubnet (subnet will be deleted)"
        s sub h

  -- What a successful creation sent, got back and shows.
  record Created (m : Exec S NetworkSubnet) (s : S) (name : String) (sub : NetworkSubnet)
      : Type 0 where
    pub sent : Object Kind.subnet
    pub stored : Object Kind.subnet
    pub before : S
    pub named : key_of sent.meta ≡ cluster_key name
    pub created : (env.client.create Kind.subnet sent before).0 ≡ answer stored
    pub shown : nfv_network_subnet_from_kubeovn_subnet stored ≡ ok sub
    pub state : (m s).1 ≡ (env.client.create Kind.subnet sent before).1

  create_subnet_objects-Created :
      (subnet : Object Kind.subnet) (name : String) (sub : NetworkSubnet) (s : S)
      → key_of subnet.meta ≡ cluster_key name
      → (create_subnet_objects env subnet s).0 ≡ ok sub
      → Created (create_subnet_objects env subnet) s name sub
  unfolding create_subnet_objects key_of
  create_subnet_objects-Created subnet name sub s named h =
      let nad_name = format_net_attach_name subnet.meta.name in
      let first =
        context "create multus network-attachment-definition for subnet '%s'"
          (call (env.client.create Kind.net_attach (subnet_net_attach env subnet.meta.name))) in
      let sent = with_provider env nad_name subnet in
      let second = create_with_cleanup env nad_name sent in
      let (nad, made, rest) = bind-eq-ok first (λ _. second >>= converted_or_deleted env) s sub h in
      let s1 = (first s).1 in
      let (o, stored, rest') =
        bind-eq-ok second (converted_or_deleted env) s1 sub
          (sym (ap (λ (r : Result NetworkSubnet × S). r.0) rest) ∙ h) in
      let whole = rest ∙ rest' in
      let (created, state) = create_with_cleanup-ok nad_name sent o s1 stored in
      let (shown, state') =
        converted_or_deleted-ok o sub (second s1).1
          (sym (ap (λ (r : Result NetworkSubnet × S). r.0) whole) ∙ h) in
      record {
        sent = sent;
        stored = o;
        before = s1;
        named = named;
        created = created;
        shown = shown;
        state = ap (λ (r : Result NetworkSubnet × S). r.1) whole ∙ state' ∙ state;
      }

  built_key :
      (lib : Libraries) (name : String) (d : NetworkSubnetData) (built : Object Kind.subnet)
      → kubeovn_subnet_from_nfv_subnet_data lib name (some d) ≡ ok built
      → (key_of built.meta ≡ cluster_key name) × ((name == "") ≡ false)
  unfolding kubeovn_subnet_from_nfv_subnet_data subnet_from_protocol subnet_with_spec new_meta
      key_of
  built_key lib name d built h = (ground arith, ground arith)

  placed_key :
      (type : NetworkType) (network id : String) (x : Object Kind.subnet)
      → key_of (network_labels env network id type (place_in env type network x)).meta
        ≡ key_of x.meta
  unfolding key_of
  placed_key overlay network id x = refl
  placed_key underlay network id x = refl
  placed_key sriov network id x = refl
  placed_key (NetworkType.unnamed n) network id x = refl

  attach_named_key :
      (name : Option String) (vnet : VirtualNetwork) (built x : Object Kind.subnet) (s : S)
      → (attach_named env name vnet built s).0 ≡ ok x
      → key_of x.meta ≡ key_of built.meta
  attach_named_key none vnet built x s h = cc
  attach_named_key (some name) vnet built x s h =
      let attach = λ (id : String).
        network_labels env name id vnet.network_type (place_in env vnet.network_type name built) in
      let (id, found, rest) =
        bind-eq-ok (deref vnet.network_resource_id) (λ id. pure (attach id)) s x h in
      let same = sym (ap (λ (r : Result (Object Kind.subnet) × S). r.0) rest) ∙ h in
      let placed = placed_key vnet.network_type name id built in
      subst (λ (o : Object Kind.subnet). key_of o.meta ≡ key_of built.meta) {x = attach id} {y = x}
        (cc) placed

  attached_key :
      (vnet : Option VirtualNetwork) (built x : Object Kind.subnet) (s : S)
      → (attach_to_network env vnet built s).0 ≡ ok x
      → key_of x.meta ≡ key_of built.meta
  unfolding attach_to_network
  attached_key none built x s h = cc
  attached_key (some vnet) built x s h =
      attach_named_key vnet.network_resource_name vnet built x s h

  create_subnet-Created :
      (name : String) (d : NetworkSubnetData) (sub : NetworkSubnet) (s : S)
      → (create_subnet env name (some d) s).0 ≡ ok sub
      → Created (create_subnet env name (some d)) s name sub × ((name == "") ≡ false)
  unfolding create_subnet
  create_subnet-Created name d sub s h =
      let first = subnet_network env d.network_id in
      let second =
        context "create kubeovn subnet '%s' from NetworkSubnetData"
          (lift (kubeovn_subnet_from_nfv_subnet_data env.lib name (some d))) in
      let (vnet, found, rest) =
        bind-eq-ok first
          (λ v. second >>= λ b. attach_to_network env v b >>= create_subnet_objects env) s sub h in
      let s1 = (first s).1 in
      let (built, converted, rest') =
        bind-eq-ok second (λ b. attach_to_network env vnet b >>= create_subnet_objects env) s1 sub
          (sym (ap (λ (r : Result NetworkSubnet × S). r.0) rest) ∙ h) in
      let (x, attached, rest'') =
        bind-eq-ok (attach_to_network env vnet built) (create_subnet_objects env) s1 sub
          (sym (ap (λ (r : Result NetworkSubnet × S). r.0) (rest ∙ rest')) ∙ h) in
      let whole = rest ∙ rest' ∙ rest'' in
      let (key, named) = built_key env.lib name d built (
        context-eq-ok "create kubeovn subnet '%s' from NetworkSubnetData"
          (lift (kubeovn_subnet_from_nfv_subnet_data env.lib name (some d))) s1 built converted) in
      let c =
        create_subnet_objects-Created x name sub (attach_to_network env vnet built s1).1
          (attached_key vnet built x s1 attached ∙ key)
          (sym (ap (λ (r : Result NetworkSubnet × S). r.0) whole) ∙ h) in
      (
        record {
          sent = c.sent;
          stored = c.stored;
          before = c.before;
          named = c.named;
          created = c.created;
          shown = c.shown;
          state = ap (λ (r : Result NetworkSubnet × S). r.1) whole ∙ c.state;
        },
        named,
      )

  get_by_name :
      (name : String) (t : S)
      → (name == "") ≡ false
      → get_subnet env (GetSubnetOpt.by_name name ∷ []) t ≡ get_subnet_by_name env name t
  unfolding get_subnet get_subnet_with
  get_by_name name t named = rw named

  found_or_refused :
      (name : String) (t : S) (o : Object Kind.subnet) (sub : NetworkSubnet)
      (reply : Reply (Object Kind.subnet))
      → ((x : Object Kind.subnet) → reply ≡ answer x → x ≡ o)
      → ((e : Error) → reply ≡ refuse e → env.lib.errors.is_not_found e ≡ false)
      → (env.client.get Kind.subnet (cluster_key name) t).0 ≡ reply
      → nfv_network_subnet_from_kubeovn_subnet o ≡ ok sub
      → ((get_subnet_by_name env name t).0 ≡ ok sub)
        ⊎ ((e : Error) × ((env.client.get Kind.subnet (cluster_key name) t).0 ≡ refuse e)
            × (env.lib.errors.is_not_found e ≡ false))
  unfolding get_subnet_by_name
  found_or_refused name t o sub (answer x) same missing h shown =
      inl (rw (h, same x refl, shown) refl)
  found_or_refused name t o sub (refuse e) same missing h shown = inr (e, h, missing e refl)

  module _ (l : IsLawful env.client env.lib.errors) (y : IsSynced l env.namespace) where
    refused_otherwise :
        (key : ObjectKey) (t : S) (e : Error)
        → (env.client.get Kind.subnet key t).0 ≡ refuse e
        → (o : Object Kind.subnet) → l.stored t Kind.subnet key ≡ some o
        → is_object_managed_by_kube_nfv o.meta ≡ true
        → env.lib.errors.is_not_found e ≡ false
    unfolding is_cached
    refused_otherwise key t e h o present managed =
        elim (Bool-cases (env.lib.errors.is_not_found e)) [
          | inl missing ↦
              let hidden = y.get_missing Kind.subnet key t e o h missing present in
              absurd (ground (arith, hidden, managed))
          | inr other ↦ other
        ]

    -- Over an API that meets the documented laws, with the filtered cache of the code caught up,
    -- the subnet that a successful CreateSubnet of the kube-ovn manager returns is what a lookup
    -- by its name then finds; else the API refuses that lookup, with an error other than NotFound.
    pub create_subnet-get_subnet :
        (name : String) (d : NetworkSubnetData) (sub : NetworkSubnet) (s : S)
        → (create_subnet env name (some d) s).0 ≡ ok sub
        → let t = (create_subnet env name (some d) s).1 in
          ((get_subnet env (GetSubnetOpt.by_name name ∷ []) t).0 ≡ ok sub)
          ⊎ ((e : Error) × ((env.client.get Kind.subnet (cluster_key name) t).0 ≡ refuse e)
              × (env.lib.errors.is_not_found e ≡ false))
    create_subnet-get_subnet name d sub s h =
        let (c, named) = create_subnet-Created name d sub s h in
        let t = (create_subnet env name (some d) s).1 in
        let present =
          ap (λ x. l.stored x Kind.subnet (cluster_key name)) c.state
          ∙ subst
              (λ k.
                l.stored (env.client.create Kind.subnet c.sent c.before).1 Kind.subnet k
                ≡ some c.stored)
              c.named (l.create_stores Kind.subnet c.sent c.before c.stored c.created) in
        let managed = (shown_of c.stored sub c.shown).1 in
        rw (get_by_name name t named) (
          found_or_refused name t c.stored sub (env.client.get Kind.subnet (cluster_key name) t).0
            (λ x g. let found = y.get_found Kind.subnet (cluster_key name) t x g in cc)
            (λ e g. refused_otherwise (cluster_key name) t e g c.stored present managed) refl
            c.shown)
