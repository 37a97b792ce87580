-- ===== src/Compute/Ipam/Addresses.antt =====
-- The subnet and the static address of an IPAM that internal/kubevim/compute/kubevirt/ipam.go
-- selects for an interface.
use kube_vim.Common.{
  String, Bool, true, false, Option, none, some, List, [], ◌∷◌, find, find-holds, ◌≡◌, refl, ap,
  ◌∙◌, ◌⊎◌, inl, inr, arith, eq_iff, sym,
}
use kube_vim.Go.{ok, context, pure, raise, ◌>>=◌}
use kube_vim.Go.Laws.{context-eq-ok}
use kube_vim.Go.Yields.{
  Yields, Yields-pure, Yields-raise, Yields-panics, Yields-bind, Yields-bind_at, Yields-then,
  Yields-if,
}
use kube_vim.Network.Types.{
  Identifier, NetworkSubnet, GetNetworkOpt, GetSubnetOpt, ip_belongs_to_cidr,
}
use kube_vim.Compute.Types.{InterfaceIpam}
use kube_vim.Compute.Ipam.{
  Resolver, named_by, dynamic_ipam, checked_address, in_subnet_range, found_subnet_ipam,
  subnet_ipam, with_first_subnet, dynamic_network_ipam, entry_ipam, found_network_ipam,
  network_ipam,
}

named_by-some :
    (named : Option Identifier) (id : Identifier) → named_by named id ≡ true → named ≡ some id
named_by-some none id h = cc
named_by-some (some other) id h = ground (arith, eq_iff other id)

module _ {S : Type 0} (r : Resolver S) where
  -- A subnet that a lookup by this id found has a CIDR with this address.
  pub record Contained (id : Identifier) (ip : String) : Type 0 where
    pub state : S
    pub subnet : NetworkSubnet
    pub cidr : String
    pub found : (r.net_manager.get_subnet (GetSubnetOpt.by_uid (some id) ∷ []) state).0 ≡ ok subnet
    pub range : subnet.cidr ≡ some cidr
    pub inside : ip_belongs_to_cidr r.lib (some ip) (some cidr) ≡ true

  abbrev pub HasAddress : Identifier → Option String → Type 0
  HasAddress id address = (address ≡ none) ⊎ ((ip : String) × (address ≡ some ip) × Contained id ip)

  -- The IPAM is one of the subnet, with no static address or with one of the subnet.
  pub record IsAddressed (id : Identifier) (ipam : InterfaceIpam) : Type 0 where
    pub subnet : ipam.subnet_id ≡ some id
    pub address : HasAddress id ipam.ip_address

  checked_ip-IsAddressed :
      (id : Identifier) (ipam : InterfaceIpam) (ip : String) (s : S) (sub : NetworkSubnet)
      → ipam.subnet_id ≡ some id
      → ipam.ip_address ≡ some ip
      → (r.net_manager.get_subnet (GetSubnetOpt.by_uid (some id) ∷ []) s).0 ≡ ok sub
      → (cidr : Option String) → sub.cidr ≡ cidr
      → Yields (IsAddressed id) (in_subnet_range r ipam cidr)
  checked_ip-IsAddressed id ipam ip s sub named static found none range = Yields-raise _
  checked_ip-IsAddressed id ipam ip s sub named static found (some cidr) range =
      Yields-if (ip_belongs_to_cidr r.lib ipam.ip_address (some cidr)) (pure ipam) (raise _)
        (λ inside. Yields-pure ipam (record {
          subnet = named;
          address = inr (
            ip,
            static,
            record {
              state = s;
              subnet = sub;
              cidr = cidr;
              found = found;
              range = range;
              inside = sym (ap (λ a. ip_belongs_to_cidr r.lib a (some cidr)) static) ∙ inside;
            },
          );
        }))
        (λ outside. Yields-raise _)

  static_ip-IsAddressed :
      (id : Identifier) (ipam : InterfaceIpam)
      → ipam.subnet_id ≡ some id
      → (address : Option String) → ipam.ip_address ≡ address
      → Yields (IsAddressed id) (checked_address r id ipam address)
  static_ip-IsAddressed id ipam named none static =
      Yields-pure ipam (record { subnet = named; address = inl static })
  static_ip-IsAddressed id ipam named (some ip) static =
      Yields-bind_at
        (context "get subnet '%s'" (r.net_manager.get_subnet (GetSubnetOpt.by_uid (some id) ∷ [])))
        _
        λ s sub found.
          checked_ip-IsAddressed id ipam ip s sub named static
            (context-eq-ok _ (r.net_manager.get_subnet (GetSubnetOpt.by_uid (some id) ∷ [])) s sub
              found)
            sub.cidr refl

  found_ipam-IsAddressed :
      (id : Identifier) (found : Option InterfaceIpam)
      → ((ipam : InterfaceIpam) → found ≡ some ipam → ipam.subnet_id ≡ some id)
      → Yields (IsAddressed id) (found_subnet_ipam r id found)
  found_ipam-IsAddressed id none names =
      Yields-pure (dynamic_ipam none id) (record { subnet = refl; address = inl refl })
  found_ipam-IsAddressed id (some ipam) names =
      static_ip-IsAddressed id ipam (names ipam refl) ipam.ip_address refl

  pub subnet_ipam-Yields :
      (id : Identifier) (ipams : List InterfaceIpam)
      → Yields (IsAddressed id) (subnet_ipam r id ipams)
  unfolding subnet_ipam
  subnet_ipam-Yields id ipams = found_ipam-IsAddressed id _ λ ipam found.
      named_by-some ipam.subnet_id id
        (find-holds (λ ipam. named_by ipam.subnet_id id) ipams ipam found)

  -- The IPAM of a subnet names it, and has no static address or one of its CIDR.
  pub subnet_ipam-IsAddressed :
      (id : Identifier) (ipams : List InterfaceIpam) (s : S) (ipam : InterfaceIpam)
      → (subnet_ipam r id ipams s).0 ≡ ok ipam
      → IsAddressed id ipam
  subnet_ipam-IsAddressed id ipams = (subnet_ipam-Yields id ipams).at

  -- The IPAM of a network is one of a subnet.
  abbrev pub InSomeSubnet : InterfaceIpam × List InterfaceIpam → Type 0
  InSomeSubnet found = (id : Identifier) × IsAddressed id found.0

  on_subnet-InSomeSubnet :
      (id : Identifier) (searched kept : List InterfaceIpam)
      → Yields InSomeSubnet (subnet_ipam r id searched >>= λ ipam. pure (ipam, kept))
  on_subnet-InSomeSubnet id searched kept =
      Yields-then (subnet_ipam r id searched) _ (subnet_ipam-Yields id searched)
        λ ipam p. Yields-pure (ipam, kept) (id, p)

  first_subnet-InSomeSubnet :
      (has_entry : Bool) (id : Identifier) (ipams : List InterfaceIpam) (ids : List Identifier)
      → Yields InSomeSubnet (with_first_subnet r has_entry id ipams ids)
  first_subnet-InSomeSubnet has_entry id ipams [] = Yields-raise _
  first_subnet-InSomeSubnet true id ipams (fst_sub_id ∷ _) = on_subnet-InSomeSubnet fst_sub_id _ _
  first_subnet-InSomeSubnet false id ipams (fst_sub_id ∷ _) =
      on_subnet-InSomeSubnet fst_sub_id _ ipams

  dynamic-InSomeSubnet :
      (has_entry : Bool) (id : Identifier) (ipams : List InterfaceIpam) (give_up : Bool)
      → Yields InSomeSubnet (dynamic_network_ipam r has_entry id ipams give_up)
  dynamic-InSomeSubnet has_entry id ipams true = Yields-raise _
  dynamic-InSomeSubnet has_entry id ipams false =
      Yields-bind
        (context "get network '%s'"
          (r.net_manager.get_network (GetNetworkOpt.by_uid (some id) ∷ [])))
        _ λ net. first_subnet-InSomeSubnet has_entry id ipams net.subnet_id

  entry-InSomeSubnet :
      (id : Identifier) (ipams : List InterfaceIpam) (give_up : Bool)
      (subnet_id : Option Identifier) (ip : Option String)
      → Yields InSomeSubnet (entry_ipam r id ipams give_up subnet_id ip)
  entry-InSomeSubnet id ipams give_up (some subnet_id) ip =
      on_subnet-InSomeSubnet subnet_id ipams ipams
  entry-InSomeSubnet id ipams give_up none (some ip) =
      Yields-bind
        (context "get subnet with networkId '%s' and IP '%s'"
          (r.net_manager.get_subnet (GetSubnetOpt.by_network_ip (some id) (some ip) ∷ [])))
        _ λ sub. Yields-panics
  entry-InSomeSubnet id ipams give_up none none = dynamic-InSomeSubnet true id ipams give_up

  found_network-InSomeSubnet :
      (id : Identifier) (ipams : List InterfaceIpam) (give_up : Bool) (found : Option InterfaceIpam)
      → Yields InSomeSubnet (found_network_ipam r id ipams give_up found)
  found_network-InSomeSubnet id ipams give_up none = dynamic-InSomeSubnet false id ipams give_up
  found_network-InSomeSubnet id ipams give_up (some ipam) =
      entry-InSomeSubnet id ipams give_up ipam.subnet_id ipam.ip_address

  -- The IPAM that is selected for an interface on a network names a subnet, and has no static
  -- address, or one that lies in the CIDR of that subnet, by a lookup of the network manager.
  pub network_ipam-InSomeSubnet :
      (id : Identifier) (ipams : List InterfaceIpam) (give_up : Bool) (s : S)
      (found : InterfaceIpam × List InterfaceIpam)
      → (network_ipam r id ipams give_up s).0 ≡ ok found
      → InSomeSubnet found
  unfolding network_ipam
  network_ipam-InSomeSubnet id ipams give_up =
      (found_network-InSomeSubnet id ipams give_up
        (find (λ ipam. named_by ipam.network_id id) ipams)).at
