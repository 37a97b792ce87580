-- ===== src/Compute/Ipam/Selected.antt =====
-- The subnet that `networkIpam` of internal/kubevim/compute/kubevirt/ipam.go selects.
use kube_vim.Common.{
  String, Bool, true, false, Option, none, some, List, [], ◌∷◌, find, ◌≡◌, refl, ap, ◌∙◌, ◌⊎◌, inl,
  inr, sym,
}
use kube_vim.Go.{Result, ok, context, pure, ◌>>=◌}
use kube_vim.Go.Laws.{bind-eq-ok, context-eq-ok}
use kube_vim.Go.Yields.{Yields, Yields-pure, Yields-bind, Yields-panics, Yields-then}
use kube_vim.Network.Types.{Identifier, VirtualNetwork, GetNetworkOpt, GetSubnetOpt}
use kube_vim.Compute.Types.{InterfaceIpam}
use kube_vim.Compute.Ipam.{
  Resolver, named_by, subnet_ipam, with_first_subnet, dynamic_network_ipam, static_network_ipam,
  entry_ipam, found_network_ipam, network_ipam,
}
use kube_vim.Compute.Ipam.Addresses.{subnet_ipam-Yields}

module _ {S : Type 0} (r : Resolver S) (id : Identifier) (ipams : List InterfaceIpam) where
  abbrev pub first_entry : Option InterfaceIpam
  first_entry = find (λ ipam. named_by ipam.network_id id) ipams

  -- The first entry of the network names the subnet.
  pub record ByEntry (found : InterfaceIpam) : Type 0 where
    pub entry : InterfaceIpam
    pub first : first_entry ≡ some entry
    pub subnet_id : Identifier
    pub named : entry.subnet_id ≡ some subnet_id
    pub selected : found.subnet_id ≡ some subnet_id

  -- There is no entry of the network, or one with neither a subnet nor a static address.
  abbrev pub Unspecified : Option InterfaceIpam → Type 0
  Unspecified none = Unit {0}
  Unspecified (some entry) = (entry.subnet_id ≡ none) × (entry.ip_address ≡ none)

  -- The subnet is the first one of the network, as the network manager shows it.
  pub record ByNetwork (give_up : Bool) (s : S) (found : InterfaceIpam) : Type 0 where
    pub allowed : give_up ≡ false
    pub unspecified : Unspecified first_entry
    pub network : VirtualNetwork
    pub shown : (r.net_manager.get_network (GetNetworkOpt.by_uid (some id) ∷ []) s).0 ≡ ok network
    pub subnet_id : Identifier
    pub others : List Identifier
    pub listed : network.subnet_id ≡ subnet_id ∷ others
    pub selected : found.subnet_id ≡ some subnet_id

  abbrev pub Selected : Bool → S → InterfaceIpam → Type 0
  Selected give_up s found = ByEntry found ⊎ ByNetwork give_up s found

  abbrev Names : Identifier → InterfaceIpam × List InterfaceIpam → Type 0
  Names subnet_id found = found.0.subnet_id ≡ some subnet_id

  on_subnet-Names :
      (subnet_id : Identifier) (searched kept : List InterfaceIpam)
      → Yields (Names subnet_id) (subnet_ipam r subnet_id searched >>= λ ipam. pure (ipam, kept))
  on_subnet-Names subnet_id searched kept =
      Yields-then (subnet_ipam r subnet_id searched) _ (subnet_ipam-Yields r subnet_id searched)
        λ ipam p. Yields-pure (ipam, kept) p.subnet

  first_subnet-named :
      (has_entry : Bool) (ids : List Identifier) (s : S)
      (found : InterfaceIpam × List InterfaceIpam)
      → (with_first_subnet r has_entry id ipams ids s).0 ≡ ok found
      → (subnet_id : Identifier) × (others : List Identifier) × (ids ≡ subnet_id ∷ others)
        × Names subnet_id found
  first_subnet-named has_entry [] s found h = absurd cc
  first_subnet-named true (subnet_id ∷ others) s found h =
      (subnet_id, others, refl, (on_subnet-Names subnet_id _ _).at s found h)
  first_subnet-named false (subnet_id ∷ others) s found h =
      (subnet_id, others, refl, (on_subnet-Names subnet_id _ ipams).at s found h)

  dynamic-ByNetwork :
      (has_entry give_up : Bool) (s : S) (found : InterfaceIpam × List InterfaceIpam)
      → Unspecified first_entry
      → (dynamic_network_ipam r has_entry id ipams give_up s).0 ≡ ok found
      → ByNetwork give_up s found.0
  dynamic-ByNetwork has_entry true s found free h = absurd cc
  dynamic-ByNetwork has_entry false s found free h =
      let get = r.net_manager.get_network (GetNetworkOpt.by_uid (some id) ∷ []) in
      let (net, shown, rest) =
        bind-eq-ok (context "get network '%s'" get)
          (λ net. with_first_subnet r has_entry id ipams net.subnet_id) s found h in
      let (subnet_id, others, listed, selected) =
        first_subnet-named has_entry net.subnet_id (get s).1 found
          (sym (ap (λ (x : Result (InterfaceIpam × List InterfaceIpam) × S). x.0) rest) ∙ h) in
      record {
        allowed = refl;
        unspecified = free;
        network = net;
        shown = context-eq-ok "get network '%s'" get s net shown;
        subnet_id = subnet_id;
        others = others;
        listed = listed;
        selected = selected;
      }

  -- The write through the nil pointer ends the run.
  static-fails :
      (ip : String) (s : S) (found : InterfaceIpam × List InterfaceIpam)
      → (static_network_ipam r id ipams none ip s).0 ≡ ok found
      → ⊥
  static-fails ip s found h =
      (Yields-bind {P = λ x. ⊥}
          (context "get subnet with networkId '%s' and IP '%s'"
            (r.net_manager.get_subnet (GetSubnetOpt.by_network_ip (some id) (some ip) ∷ [])))
          _ λ sub. Yields-panics).at
        s found h

  entry-Selected :
      (give_up : Bool) (entry : InterfaceIpam) (named : Option Identifier) (address : Option String)
      (s : S) (found : InterfaceIpam × List InterfaceIpam)
      → first_entry ≡ some entry
      → entry.subnet_id ≡ named
      → entry.ip_address ≡ address
      → (entry_ipam r id ipams give_up named address s).0 ≡ ok found
      → Selected give_up s found.0
  entry-Selected give_up entry (some subnet_id) address s found first names static h = inl (record {
    entry = entry;
    first = first;
    subnet_id = subnet_id;
    named = names;
    selected = (on_subnet-Names subnet_id ipams ipams).at s found h;
  })
  entry-Selected give_up entry none (some ip) s found first names static h =
      absurd (static-fails ip s found h)
  entry-Selected give_up entry none none s found first names static h =
      inr (dynamic-ByNetwork true give_up s found (rw (first) (names, static)) h)

  found-Selected :
      (give_up : Bool) (entry : Option InterfaceIpam) (s : S)
      (found : InterfaceIpam × List InterfaceIpam)
      → first_entry ≡ entry
      → (found_network_ipam r id ipams give_up entry s).0 ≡ ok found
      → Selected give_up s found.0
  found-Selected give_up none s found first h =
      inr (dynamic-ByNetwork false give_up s found (rw (first) tt) h)
  found-Selected give_up (some entry) s found first h =
      entry-Selected give_up entry entry.subnet_id entry.ip_address s found first refl refl h

  -- Where an IPAM is selected for an interface on a network, its subnet is the one that the first
  -- entry of the network names; else that entry is missing, or has neither a subnet nor a static
  -- address, the caller did not ask to give up then, and the subnet is the first one of the
  -- network that the network manager shows.
  pub network_ipam-Selected :
      (give_up : Bool) (s : S) (found : InterfaceIpam × List InterfaceIpam)
      → (network_ipam r id ipams give_up s).0 ≡ ok found
      → Selected give_up s found.0
  unfolding network_ipam
  network_ipam-Selected give_up s found h = found-Selected give_up first_entry s found refl h
