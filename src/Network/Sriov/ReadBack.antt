-- ===== src/Network/Sriov/ReadBack.antt =====
-- An SR-IOV network that was created, looked up by its name.
use mathlib.Core.Path.{subst}
use kube_vim.Common.{
  String, ℕ, true, false, some, [], ◌∷◌, ◌≡◌, refl, sym, ap, ◌∙◌, ◌⊎◌, inl, inr, arith, ◌==◌,
  eq_iff, text_or_empty, Bool-cases,
}
use kube_vim.Common.Maps
use kube_vim.Errors.{Error}
use kube_vim.Go.{Exec, Result, ok, Reply, answer, refuse, call, context, lift, ◌>>=◌}
use kube_vim.Go.Laws.{bind-eq-ok, context-eq-ok, call-eq-ok}
use kube_vim.K8s.Objects.{Kind, Object, new_meta, is_managed_label, is_object_managed_by_kube_nfv}
use kube_vim.K8s.Client.{ObjectKey, key_of, is_cached, is_cached-like}
use kube_vim.K8s.Lawful.{IsLawful, IsSynced}
use kube_vim.Network.Types.{
  Env, sriov, VirtualNetworkData, VirtualNetwork, GetNetworkOpt, k8s_network_type_label,
}
use kube_vim.Network.Sriov.{
  Json, OvsCniConfig, ovs_cni_config, format_ovs_cni_config, stored_vlan, nad_to_nfv_network,
  device_resource_name, check_sriov_data, create_network, get_network, get_network_by_name,
  get_network_with, show_sriov, sriov_name, sriov_nad, nad_key, or_zero,
  nad_resource_name_annotation,
}

-- encoding/json reads back what it wrote.
pub record ReadsBack (json : Json) : Type 0 where
  pub unmarshal-marshal :
      (c : OvsCniConfig) (text : String) → json.marshal c ≡ some text → json.unmarshal text ≡ some c

stored_vlan-format :
    (json : Json)
    → ReadsBack json
    → (name : String) (vlan : ℕ) (socket_file text : String)
    → format_ovs_cni_config json name vlan socket_file ≡ ok text
    → stored_vlan json text ≡ vlan
unfolding format_ovs_cni_config ovs_cni_config stored_vlan
stored_vlan-format json back name vlan socket_file text h =
    ground (arith, back.unmarshal-marshal (ovs_cni_config name vlan socket_file) text)

module _ {S : Type 0} (env : Env S) (json : Json) (socket_file : String) where
  abbrev new_nad : String → VirtualNetworkData → String → Object Kind.net_attach
  new_nad name d config =
      sriov_nad env json socket_file name (device_resource_name (text_or_empty d.provider_network))
        config

  -- What a successful creation did: the object it stored and the network it shows for it.
  record Made (name : String) (d : VirtualNetworkData) (s : S) (net : VirtualNetwork) : Type 0 where
    pub config : String
    pub nad : Object Kind.net_attach
    pub formatted :
        format_ovs_cni_config json name (or_zero d.segmentation_id) socket_file ≡ ok config
    pub created : (env.client.create Kind.net_attach (new_nad name d config) s).0 ≡ answer nad
    pub shown : nad_to_nfv_network json nad ≡ ok net
    pub state :
        (create_network env json socket_file name (some d) s).1
        ≡ (env.client.create Kind.net_attach (new_nad name d config) s).1

  check_sriov_data-ok :
      (d : VirtualNetworkData) (provider : String)
      → check_sriov_data d ≡ ok provider
      → text_or_empty d.provider_network ≡ provider
  unfolding check_sriov_data
  check_sriov_data-ok d provider h = ground arith

  abbrev create_step : String → String → String → Exec S (Object Kind.net_attach)
  create_step name provider config = context "create SR-IOV NetworkAttachmentDefinition '%s'" (
      call (
        env.client.create Kind.net_attach
          (sriov_nad env json socket_file name (device_resource_name provider) config)))

  abbrev show_step : Object Kind.net_attach → Exec S VirtualNetwork
  show_step nad = lift (nad_to_nfv_network json nad)

  abbrev format_step : String → VirtualNetworkData → Exec S String
  format_step name d =
      context "build ovs-cni config for network '%s'"
        (lift (format_ovs_cni_config json name (or_zero d.segmentation_id) socket_file))

  created-Made :
      (name : String) (d : VirtualNetworkData) (s : S) (net : VirtualNetwork)
      (provider config : String)
      → check_sriov_data d ≡ ok provider
      → format_ovs_cni_config json name (or_zero d.segmentation_id) socket_file ≡ ok config
      → create_network env json socket_file name (some d) s
        ≡ (create_step name provider config >>= show_step) s
      → ((create_step name provider config >>= show_step) s).0 ≡ ok net
      → Made name d s net
  created-Made name d s net provider config checked formatted run done =
      let (nad, made, rest) = bind-eq-ok (create_step name provider config) show_step s net done in
      let provided = sym (check_sriov_data-ok d provider checked) in
      let answered =
        call-eq-ok
          (env.client.create Kind.net_attach
            (sriov_nad env json socket_file name (device_resource_name provider) config))
          s nad
          (context-eq-ok "create SR-IOV NetworkAttachmentDefinition '%s'"
            (call (
              env.client.create Kind.net_attach
                (sriov_nad env json socket_file name (device_resource_name provider) config)))
            s nad made) in
      record {
        config = config;
        nad = nad;
        formatted = formatted;
        created =
            subst
              (λ p.
                (env.client.create Kind.net_attach
                  (sriov_nad env json socket_file name (device_resource_name p) config) s).0
                ≡ answer nad)
              provided answered;
        shown = sym (ap (λ (r : Result VirtualNetwork × S). r.0) rest) ∙ done;
        state =
            ap (λ (r : Result VirtualNetwork × S). r.1) (run ∙ rest)
            ∙ ap
                (λ p.
                  (env.client.create Kind.net_attach
                    (sriov_nad env json socket_file name (device_resource_name p) config) s).1)
                provided;
      }

  create_network-Made :
      (name : String) (d : VirtualNetworkData) (s : S) (net : VirtualNetwork)
      → (create_network env json socket_file name (some d) s).0 ≡ ok net
      → Made name d s net
  unfolding create_network
  create_network-Made name d s net done =
      let (provider, checked, rest) =
        bind-eq-ok (lift (check_sriov_data d))
          (λ p. format_step name d >>= λ c. create_step name p c >>= show_step) s net done in
      let (config, formatted, rest') =
        bind-eq-ok (format_step name d) (λ c. create_step name provider c >>= show_step) s net
          (sym (ap (λ (r : Result VirtualNetwork × S). r.0) rest) ∙ done) in
      let run = rest ∙ rest' in
      created-Made name d s net provider config checked
        (context-eq-ok "build ovs-cni config for network '%s'"
          (lift (format_ovs_cni_config json name (or_zero d.segmentation_id) socket_file)) s config
          formatted)
        run (sym (ap (λ (r : Result VirtualNetwork × S). r.0) run) ∙ done)

  -- The network that a client is shown for its request.
  pub record ShowsRequest (name : String) (d : VirtualNetworkData) (net : VirtualNetwork)
      : Type 0 where
    pub name_shown : net.network_resource_name ≡ some name
    pub type_shown : net.network_type ≡ sriov
    pub no_subnets_shown : net.subnet_id ≡ []
    pub provider_shown :
        net.provider_network ≡ some (device_resource_name (text_or_empty d.provider_network))
    pub vlan_shown : net.segmentation_id ≡ some (or_zero d.segmentation_id)

  module _ (back : ReadsBack json) (l : IsLawful env.client env.lib.errors) where
    shown-fields :
        (nad : Object Kind.net_attach) (net : VirtualNetwork)
        → nad_to_nfv_network json nad ≡ ok net
        → (net.network_resource_name ≡ some nad.meta.name)
          × (net.network_type ≡ sriov)
          × (net.subnet_id ≡ [])
          × (net.provider_network
              ≡ some (Maps.at nad_resource_name_annotation nad.meta.annotations))
          × (net.segmentation_id ≡ some (stored_vlan json nad.spec.config))
    unfolding nad_to_nfv_network
    shown-fields nad net h = (ground arith, ground arith, ground arith, ground arith, ground arith)

    -- Over an API that meets the documented laws and a JSON library that reads back what it wrote,
    -- a created SR-IOV network is shown with its name, no subnets, the device plugin resource that
    -- its provider network names, and its segmentation id (0 where none was given).
    pub create_network-ShowsRequest :
        (name : String) (d : VirtualNetworkData) (s : S) (net : VirtualNetwork)
        → (create_network env json socket_file name (some d) s).0 ≡ ok net
        → ShowsRequest name d net
    unfolding new_meta key_of Maps.at Maps.lookup
    create_network-ShowsRequest name d s net done =
        let m = create_network-Made name d s net done in
        let new = new_nad name d m.config in
        let (named, typed, no_subs, provided, vlan) = shown-fields m.nad net m.shown in
        record {
          name_shown =
              named
              ∙ ap (λ (k : _). some (k.name)) (l.create_key Kind.net_attach new s m.nad m.created);
          type_shown = typed;
          no_subnets_shown = no_subs;
          provider_shown =
              provided
              ∙ ap (λ a. some (Maps.at nad_resource_name_annotation a))
                  (l.create_annotations Kind.net_attach new s m.nad m.created);
          vlan_shown =
              vlan
              ∙ ap (λ c. some (stored_vlan json c.config))
                  (l.create_spec Kind.net_attach new s m.nad m.created)
              ∙ ap some (
                  stored_vlan-format json back name (or_zero d.segmentation_id) socket_file m.config
                    m.formatted);
        }

  module _ (l : IsLawful env.client env.lib.errors) where
    get_by_name :
        (name : String) (t : S)
        → (name == "") ≡ false
        → get_network env json socket_file (GetNetworkOpt.by_name name ∷ []) t
          ≡ get_network_by_name env json socket_file name t
    unfolding get_network get_network_with
    get_by_name name t named = rw named

    found_or_refused :
        (name : String) (t : S) (nad : Object Kind.net_attach) (net : VirtualNetwork)
        → (reply : Reply (Object Kind.net_attach))
        → ((o : Object Kind.net_attach) → reply ≡ answer o → o ≡ nad)
        → ((e : Error) → reply ≡ refuse e → env.lib.errors.is_not_found e ≡ false)
        → (env.client.get Kind.net_attach (nad_key env json socket_file name) t).0 ≡ reply
        → ((u : S) → (show_sriov env json socket_file nad u).0 ≡ ok net)
        → ((get_network_by_name env json socket_file name t).0 ≡ ok net)
          ⊎ ((e : Error) × ((env.client.get Kind.net_attach (nad_key env json socket_file name) t).0
                ≡ refuse e)
              × (env.lib.errors.is_not_found e ≡ false))
    unfolding get_network_by_name
    found_or_refused name t nad net (answer o) same missing h shows =
        inl (rw (h, same o refl) (shows _))
    found_or_refused name t nad net (refuse e) same missing h shows = inr (e, h, missing e refl)

    shows_created :
        (nad : Object Kind.net_attach) (net : VirtualNetwork)
        → Maps.at k8s_network_type_label nad.meta.labels ≡ sriov_name env json socket_file
        → nad_to_nfv_network json nad ≡ ok net
        → (u : S) → (show_sriov env json socket_file nad u).0 ≡ ok net
    unfolding show_sriov
    shows_created nad net typed shown u = ground (
      arith,
      eq_iff (Maps.at k8s_network_type_label nad.meta.labels) (sriov_name env json socket_file),
    )

    -- The attachment definition as it is sent would be seen through the cache, and the apiserver
    -- keeps what the filter of the cache reads.
    sent-cached :
        (name : String) (d : VirtualNetworkData) (config : String)
        → is_cached env.namespace Kind.net_attach (new_nad name d config).meta ≡ true
    unfolding is_cached new_meta Maps.lookup is_object_managed_by_kube_nfv is_managed_label
    sent-cached name d config = ground (arith, eq_iff env.namespace env.namespace)

    created-cached :
        (name : String) (d : VirtualNetworkData) (config : String) (s : S)
        (nad : Object Kind.net_attach)
        → (env.client.create Kind.net_attach (new_nad name d config) s).0 ≡ answer nad
        → is_cached env.namespace Kind.net_attach nad.meta ≡ true
    unfolding key_of new_meta
    created-cached name d config s nad made =
        let new = new_nad name d config in
        is_cached-like env.namespace Kind.net_attach nad.meta new.meta
          (ap (λ (k : ObjectKey). k.namespace) (l.create_key Kind.net_attach new s nad made))
          (l.create_labels Kind.net_attach new s nad made)
        ∙ sent-cached name d config

    module _ (y : IsSynced l env.namespace) where
      refused_otherwise :
          (key : ObjectKey) (t : S) (e : Error)
          → (env.client.get Kind.net_attach key t).0 ≡ refuse e
          → (nad : Object Kind.net_attach) → l.stored t Kind.net_attach key ≡ some nad
          → is_cached env.namespace Kind.net_attach nad.meta ≡ true
          → env.lib.errors.is_not_found e ≡ false
      refused_otherwise key t e h nad present cached =
          elim (Bool-cases (env.lib.errors.is_not_found e)) [
            | inl missing ↦
                let hidden = y.get_missing Kind.net_attach key t e nad h missing present in
                absurd (cc)
            | inr other ↦ other
          ]

      -- Over an API that meets the documented laws, with the filtered cache of the code caught up,
      -- a created SR-IOV network with a name that is not empty is what a lookup by the name then
      -- finds; else the API refuses that lookup, with an error other than NotFound.
      pub create_network-get_network :
          (name : String) (d : VirtualNetworkData) (s : S) (net : VirtualNetwork)
          → (name == "") ≡ false
          → (create_network env json socket_file name (some d) s).0 ≡ ok net
          → let t = (create_network env json socket_file name (some d) s).1 in
            ((get_network env json socket_file (GetNetworkOpt.by_name name ∷ []) t).0 ≡ ok net)
            ⊎ ((e : Error) × ((env.client.get Kind.net_attach
                    (nad_key env json socket_file name)
                    t).0
                  ≡ refuse e)
                × (env.lib.errors.is_not_found e ≡ false))
      unfolding new_meta key_of Maps.at Maps.lookup
      create_network-get_network name d s net named done =
          let m = create_network-Made name d s net done in
          let new = new_nad name d m.config in
          let t = (create_network env json socket_file name (some d) s).1 in
          let key = nad_key env json socket_file name in
          let present =
            ap (λ x. l.stored x Kind.net_attach key) m.state
            ∙ l.create_stores Kind.net_attach new s m.nad m.created in
          let typed =
            ap (λ a. Maps.at k8s_network_type_label a)
              (l.create_labels Kind.net_attach new s m.nad m.created) in
          rw (get_by_name name t named) (
            found_or_refused name t m.nad net (env.client.get Kind.net_attach key t).0
              (λ o h. let found = y.get_found Kind.net_attach key t o h in cc)
              (λ e h.
                refused_otherwise key t e h m.nad present
                  (created-cached name d m.config s m.nad m.created))
              refl (shows_created m.nad net typed m.shown))
