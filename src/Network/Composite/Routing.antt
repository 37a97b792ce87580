-- ===== src/Network/Composite/Routing.antt =====
-- Which backend of composite/manager.go answers.
use kube_vim.Common.{
  String, Bool, true, false, Option, some, List, [], ◌∷◌, ◌≡◌, refl, sym, ap, ◌∙◌, ◌↔◌, ◌⊎◌, inl,
  inr, Bool-cases, if◌then◌else◌,
}
use kube_vim.Errors.{Error, is_err_not_found}
use kube_vim.Go.{Exec, Result, ok, err, panic, context, ◌>>=◌}
use kube_vim.Go.Laws.{bind-eq-ok, context-eq-ok, Result-cases}
use kube_vim.Network.Types.{
  Env, sriov, same_type, VirtualNetwork, NetworkSubnetData, NetworkSubnet, GetNetworkOpt,
}
use kube_vim.Network.Manager.{Manager}
use kube_vim.Network.Sriov.{Json, sriov_manager}
use kube_vim.Network.Composite.{
  first_found, get_network, delete_network, create_subnet, create_subnet_in,
}

-- A call that does not find its object.
pub record NotFound {S A : Type 0} (m : Exec S A) (s : S) : Type 0 where
  pub error : Error
  pub raised : (m s).0 ≡ err error
  pub not_found : is_err_not_found error ≡ true

module _ {S A : Type 0} (first second : Exec S A) (s : S) where
  abbrev whole : Result A × S
  whole = first_found first second s

  abbrev next : Result A × S
  next = second (first s).1

  at_ok : (a : A) → (first s).0 ≡ ok a → whole ≡ (ok a, (first s).1)
  unfolding first_found
  at_ok a h = rw (first_found, h)

  at_panic : (first s).0 ≡ panic → whole ≡ (panic, (first s).1)
  unfolding first_found
  at_panic h = rw (first_found, h)

  at_error :
      (e : Error) → (first s).0 ≡ err e → is_err_not_found e ≡ false → whole ≡ (err e, (first s).1)
  unfolding first_found
  at_error e h other = rw (first_found, h, other)

  module _ (e : Error) (h : (first s).0 ≡ err e) (missing : is_err_not_found e ≡ true) where
    then_ok : (a : A) → next.0 ≡ ok a → whole ≡ (ok a, next.1)
    unfolding first_found
    then_ok a g = rw (first_found, h, missing, g)

    then_panic : next.0 ≡ panic → whole ≡ (panic, next.1)
    unfolding first_found
    then_panic g = rw (first_found, h, missing, g)

    then_error :
        (e' : Error) → next.0 ≡ err e' → is_err_not_found e' ≡ false → whole ≡ (err e', next.1)
    unfolding first_found
    then_error e' g other = rw (first_found, h, missing, g, other)

    then_missing :
        (e' : Error) → next.0 ≡ err e' → is_err_not_found e' ≡ true → whole ≡ (err e, next.1)
    unfolding first_found
    then_missing e' g missing' = rw (first_found, h, missing, g, missing')

  then-ok :
      (e : Error)
      → (first s).0 ≡ err e
      → is_err_not_found e ≡ true
      → (a : A) → whole.0 ≡ ok a
      → whole ≡ next
  then-ok e h missing a done = elim (Result-cases next.0) [
    | inl (b, g) ↦ then_ok e h missing b g ∙ ap (λ (r : Result A). (r, next.1)) (sym g)
    | inr (inr g) ↦ let w = then_panic e h missing g in absurd (cc)
    | inr (inl (e', g)) ↦ elim (Bool-cases (is_err_not_found e')) [
      | inl missing' ↦ let w = then_missing e h missing e' g missing' in absurd (cc)
      | inr other ↦ let w = then_error e h missing e' g other in absurd (cc)
    ]
  ]

  first_found-ok :
      (a : A) → whole.0 ≡ ok a → (whole ≡ first s) ⊎ (NotFound first s × (whole ≡ next))
  first_found-ok a done = elim (Result-cases (first s).0) [
    | inl (b, h) ↦ inl (at_ok b h ∙ ap (λ (r : Result A). (r, (first s).1)) (sym h))
    | inr (inr h) ↦ let w = at_panic h in absurd (cc)
    | inr (inl (e, h)) ↦ elim (Bool-cases (is_err_not_found e)) [
      | inr other ↦ let w = at_error e h other in absurd (cc)
      | inl missing ↦
          inr (record { error = e; raised = h; not_found = missing }, then-ok e h missing a done)
    ]
  ]

  then-NotFound :
      (e : Error)
      → (first s).0 ≡ err e
      → is_err_not_found e ≡ true
      → NotFound (first_found first second) s
      → NotFound second (first s).1
  then-NotFound e h missing lost = elim (Result-cases next.0) [
    | inl (b, g) ↦ let w = then_ok e h missing b g in let r = lost.raised in absurd (cc)
    | inr (inr g) ↦ let w = then_panic e h missing g in let r = lost.raised in absurd (cc)
    | inr (inl (e', g)) ↦ elim (Bool-cases (is_err_not_found e')) [
      | inl missing' ↦ record { error = e'; raised = g; not_found = missing' }
      | inr other ↦
          let w = then_error e h missing e' g other in
          let r = lost.raised in let n = lost.not_found in absurd (cc)
    ]
  ]

  first-NotFound : NotFound (first_found first second) s → NotFound first s
  first-NotFound lost = elim (Result-cases (first s).0) [
    | inl (b, h) ↦ let w = at_ok b h in let r = lost.raised in absurd (cc)
    | inr (inr h) ↦ let w = at_panic h in let r = lost.raised in absurd (cc)
    | inr (inl (e, h)) ↦ elim (Bool-cases (is_err_not_found e)) [
      | inl missing ↦ record { error = e; raised = h; not_found = missing }
      | inr other ↦
          let w = at_error e h other in let r = lost.raised in let n = lost.not_found in absurd (cc)
    ]
  ]

  first_found-NotFound :
      NotFound (first_found first second) s ↔ (NotFound first s × NotFound second (first s).1)
  first_found-NotFound = (
    λ lost. let a = first-NotFound lost in (a, then-NotFound a.error a.raised a.not_found lost),
    λ (a, b). record {
      error = a.error;
      raised =
          ap (λ (r : Result A × S). r.0)
            (then_missing a.error a.raised a.not_found b.error b.raised b.not_found);
      not_found = a.not_found;
    },
  )

module _ {S : Type 0} (ovn other : Manager S) where
  -- The composite does not find a network exactly when the OVN manager does not find it and, asked
  -- after that, the SR-IOV manager does not find it either.
  pub get_network-NotFound_iff :
      (opts : List GetNetworkOpt) (s : S)
      → NotFound (get_network ovn other opts) s ↔ (
          NotFound (ovn.get_network opts) s
          × NotFound (other.get_network opts) (ovn.get_network opts s).1)
  unfolding get_network
  get_network-NotFound_iff opts s =
      first_found-NotFound (ovn.get_network opts) (other.get_network opts) s

  -- A network that the composite reports as deleted was deleted by the OVN manager alone, or by
  -- the SR-IOV manager after the OVN manager did not find it.
  pub delete_network-backend :
      (opts : List GetNetworkOpt) (s : S)
      → (delete_network ovn other opts s).0 ≡ ok tt
      → (delete_network ovn other opts s ≡ ovn.delete_network opts s)
        ⊎ (NotFound (ovn.delete_network opts) s
            × (delete_network ovn other opts s
                ≡ other.delete_network opts (ovn.delete_network opts s).1))
  unfolding delete_network
  delete_network-backend opts s done =
      first_found-ok (ovn.delete_network opts) (other.delete_network opts) s tt done

  record NoSubnets : Type 0 where
    pub refused :
        (name : String) (d : Option NetworkSubnetData) (s : S) (sub : NetworkSubnet)
        → (other.create_subnet name d s).0 ≡ ok sub
        → ⊥

  chosen-ok :
      (sriov_network : Bool) (name : String) (d : NetworkSubnetData) (s : S) (sub : NetworkSubnet)
      → NoSubnets
      → ((if sriov_network
            then other.create_subnet name (some d)
            else ovn.create_subnet name (some d))
          s).0
        ≡ ok sub
      → sriov_network ≡ false
  chosen-ok true name d s sub none_there done = absurd (none_there.refused name (some d) s sub done)
  chosen-ok false name d s sub none_there done = refl

  abbrev chosen : String → NetworkSubnetData → VirtualNetwork → Exec S NetworkSubnet
  chosen name d net =
      if same_type net.network_type sriov
      then other.create_subnet name (some d)
      else ovn.create_subnet name (some d)

  abbrev lookup_network : String → Exec S VirtualNetwork
  lookup_network id = get_network ovn other (GetNetworkOpt.by_uid (some id) ∷ [])

  create_subnet-by_id :
      (name : String) (d : NetworkSubnetData) (id : String) (s : S)
      → d.network_id ≡ some id
      → create_subnet ovn other name (some d) s
        ≡ (context "resolve network for subnet creation" (lookup_network id) >>= chosen name d) s
  unfolding create_subnet
  create_subnet-by_id name d id s named = ap (λ i. create_subnet_in ovn other i name d s) named

  create_subnet-ok :
      (name : String) (d : NetworkSubnetData) (id : String) (s : S) (sub : NetworkSubnet)
      → NoSubnets
      → d.network_id ≡ some id
      → (create_subnet ovn other name (some d) s).0 ≡ ok sub
      → (net : VirtualNetwork) × ((get_network ovn other (GetNetworkOpt.by_uid (some id) ∷ []) s).0
          ≡ ok net)
        × (same_type net.network_type sriov ≡ false)
        × (create_subnet ovn other name (some d) s
            ≡ ovn.create_subnet name
                (some d)
                (get_network ovn other (GetNetworkOpt.by_uid (some id) ∷ []) s).1)
  create_subnet-ok name d id s sub none_there named done =
      let start = create_subnet-by_id name d id s named in
      let (net, found, rest) =
        bind-eq-ok (context "resolve network for subnet creation" (lookup_network id))
          (chosen name d) s sub (sym (ap (λ (r : Result NetworkSubnet × S). r.0) start) ∙ done) in
      let type =
        chosen-ok (same_type net.network_type sriov) name d (lookup_network id s).1 sub none_there
          (sym (ap (λ (r : Result NetworkSubnet × S). r.0) (start ∙ rest)) ∙ done) in
      (
        net,
        context-eq-ok "resolve network for subnet creation" (lookup_network id) s net found,
        type,
        start ∙ rest ∙ rw type,
      )

-- Over the SR-IOV manager, the composite creates no subnet in an SR-IOV network: a subnet with a
-- network id that was created was created by the OVN manager, after a lookup by that id that found
-- a network of another type.
pub create_subnet-not_sriov :
    {S : Type 0} (ovn : Manager S) (env : Env S) (json : Json) (socket_file : String)
    (name : String) (d : NetworkSubnetData) (id : String) (s : S) (sub : NetworkSubnet)
    → d.network_id ≡ some id
    → let other = sriov_manager env json socket_file in
      (create_subnet ovn other name (some d) s).0 ≡ ok sub
      → (net : VirtualNetwork) × ((get_network ovn other (GetNetworkOpt.by_uid (some id) ∷ []) s).0
          ≡ ok net)
        × (same_type net.network_type sriov ≡ false)
        × (create_subnet ovn other name (some d) s
            ≡ ovn.create_subnet name
                (some d)
                (get_network ovn other (GetNetworkOpt.by_uid (some id) ∷ []) s).1)
create_subnet-not_sriov ovn env json socket_file name d id s sub named done =
    create_subnet-ok ovn (sriov_manager env json socket_file) name d id s sub
      (record { refused = λ _ _ _ _ h. absurd (cc) }) named done
