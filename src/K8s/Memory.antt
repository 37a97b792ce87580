-- ===== src/K8s/Memory.antt =====
-- A cluster in memory, with which the theorems are run: a counter for uids and a list of objects for
-- each kind. Reads go through a filtered cache, and finalizers hold deleted objects of some kinds.
pub mod Laws
pub mod Writes
pub mod Lawful
use kube_vim.Common.{
  String, ℕ, zero, suc, ◌+◌, ◌<>◌, Bool, true, false, Option, none, some, List, [], ◌∷◌, ◌++◌, Map,
  ◌==◌, ◌&&◌, not, find, filter, if◌then◌else◌, num_eq, ◌≡◌, refl, ◌⊎◌, inl, inr, arith,
}
use kube_vim.Common.Maps
use kube_vim.Errors.{Error, foreign, root, ForeignErrors}
use kube_vim.Go.{Reply, answer, refuse, Call}
use kube_vim.K8s.Objects.{Kind, Object, ObjectMeta, kind_index}
use kube_vim.K8s.Lawful.{has_finalizers}
use kube_vim.K8s.Client.{is_cached, Client, ObjectKey, ListOptions, same_key, key_of, in_scope}

pub record Cells : Type 0 where
  pub vpcs : List (Object Kind.vpc)
  pub vlans : List (Object Kind.vlan)
  pub subnets : List (Object Kind.subnet)
  pub net_attaches : List (Object Kind.net_attach)
  pub instancetypes : List (Object Kind.instancetype)
  pub preferences : List (Object Kind.preference)
  pub vms : List (Object Kind.vm)
  pub vmis : List (Object Kind.vmi)
  pub pods : List (Object Kind.pod)
  pub secrets : List (Object Kind.secret)
  pub volume_imports : List (Object Kind.volume_import)
  pub data_volumes : List (Object Kind.data_volume)
  pub storage_classes : List (Object Kind.storage_class)

abbrev pub no_cells : Cells
no_cells = record {
  vpcs = [];
  vlans = [];
  subnets = [];
  net_attaches = [];
  instancetypes = [];
  preferences = [];
  vms = [];
  vmis = [];
  pods = [];
  secrets = [];
  volume_imports = [];
  data_volumes = [];
  storage_classes = [];
}

unfoldable pub objects : (k : Kind) → Cells → List (Object k)
objects Kind.vpc c = c.vpcs
objects Kind.vlan c = c.vlans
objects Kind.subnet c = c.subnets
objects Kind.net_attach c = c.net_attaches
objects Kind.instancetype c = c.instancetypes
objects Kind.preference c = c.preferences
objects Kind.vm c = c.vms
objects Kind.vmi c = c.vmis
objects Kind.pod c = c.pods
objects Kind.secret c = c.secrets
objects Kind.volume_import c = c.volume_imports
objects Kind.data_volume c = c.data_volumes
objects Kind.storage_class c = c.storage_classes

unfoldable pub with_objects : (k : Kind) → List (Object k) → Cells → Cells
with_objects Kind.vpc xs c = record c { vpcs = xs }
with_objects Kind.vlan xs c = record c { vlans = xs }
with_objects Kind.subnet xs c = record c { subnets = xs }
with_objects Kind.net_attach xs c = record c { net_attaches = xs }
with_objects Kind.instancetype xs c = record c { instancetypes = xs }
with_objects Kind.preference xs c = record c { preferences = xs }
with_objects Kind.vm xs c = record c { vms = xs }
with_objects Kind.vmi xs c = record c { vmis = xs }
with_objects Kind.pod xs c = record c { pods = xs }
with_objects Kind.secret xs c = record c { secrets = xs }
with_objects Kind.volume_import xs c = record c { volume_imports = xs }
with_objects Kind.data_volume xs c = record c { data_volumes = xs }
with_objects Kind.storage_class xs c = record c { storage_classes = xs }

pub objects-with_objects :
    (k : Kind) (xs : List (Object k)) (c : Cells) → objects k (with_objects k xs c) ≡ xs
unfolding objects with_objects
objects-with_objects Kind.vpc xs c = refl
objects-with_objects _ xs c = refl

pub objects-with_other :
    (k j : Kind) (xs : List (Object k)) (c : Cells)
    → num_eq (kind_index k) (kind_index j) ≡ false
    → objects j (with_objects k xs c) ≡ objects j c
unfolding objects with_objects
objects-with_other Kind.vpc Kind.vpc xs c h = cc
objects-with_other Kind.vlan Kind.vlan xs c h = cc
objects-with_other Kind.subnet Kind.subnet xs c h = cc
objects-with_other Kind.net_attach Kind.net_attach xs c h = cc
objects-with_other Kind.instancetype Kind.instancetype xs c h = cc
objects-with_other Kind.preference Kind.preference xs c h = cc
objects-with_other Kind.vm Kind.vm xs c h = cc
objects-with_other Kind.vmi Kind.vmi xs c h = cc
objects-with_other Kind.pod Kind.pod xs c h = cc
objects-with_other Kind.secret Kind.secret xs c h = cc
objects-with_other Kind.volume_import Kind.volume_import xs c h = cc
objects-with_other Kind.data_volume Kind.data_volume xs c h = cc
objects-with_other Kind.storage_class Kind.storage_class xs c h = cc
objects-with_other _ _ xs c h = refl

pub Kind-cases : (k j : Kind) → (num_eq (kind_index k) (kind_index j) ≡ false) ⊎ (k ≡ j)
Kind-cases Kind.vpc Kind.vpc = inr refl
Kind-cases Kind.vlan Kind.vlan = inr refl
Kind-cases Kind.subnet Kind.subnet = inr refl
Kind-cases Kind.net_attach Kind.net_attach = inr refl
Kind-cases Kind.instancetype Kind.instancetype = inr refl
Kind-cases Kind.preference Kind.preference = inr refl
Kind-cases Kind.vm Kind.vm = inr refl
Kind-cases Kind.vmi Kind.vmi = inr refl
Kind-cases Kind.pod Kind.pod = inr refl
Kind-cases Kind.secret Kind.secret = inr refl
Kind-cases Kind.volume_import Kind.volume_import = inr refl
Kind-cases Kind.data_volume Kind.data_volume = inr refl
Kind-cases Kind.storage_class Kind.storage_class = inr refl
Kind-cases _ _ = inl refl

abbrev pub at_key : {k : Kind} → ObjectKey → Object k → Bool
at_key key o = same_key (key_of o.meta) key

unfoldable pub without : {k : Kind} → ObjectKey → List (Object k) → List (Object k)
without key [] = []
without key (o ∷ xs) = let rest = without key xs in if at_key key o then rest else o ∷ rest

pub record Cluster : Type 0 where
  pub next : ℕ
  pub cells : Cells

abbrev pub empty : Cluster
empty = record { next = 0; cells = no_cells }

abbrev pub uid_text : ℕ → String
uid_text zero = "u"
uid_text (suc n) = "u" <> uid_text n

abbrev pub stored_in : Cluster → (k : Kind) → ObjectKey → Option (Object k)
stored_in s k key = find (at_key key) (objects k s.cells)

-- The metadata that the apiserver fills in.
abbrev pub filled : ℕ → ObjectMeta → ObjectMeta
filled n m = record m { uid = uid_text n; resource_version = "1"; created = some 1 }

abbrev pub missing_error : Error
missing_error = foreign "NotFound"

abbrev pub exists_error : Error
exists_error = foreign "AlreadyExists"

abbrev pub write : (k : Kind) → List (Object k) → Cluster → Cluster
write k xs s = record s { cells = with_objects k xs s.cells }

unfoldable pub create_in : (k : Kind) → Object k → Call Cluster (Object k)
create_in k o s =
    let made = record o { meta = filled s.next o.meta } in
    elim (stored_in s k (key_of o.meta)) [
      | some old ↦ (refuse exists_error, s)
      | none ↦ (answer made, record (write k (made ∷ objects k s.cells) s) { next = s.next + 1 })
    ]

unfoldable pub get_in : (k : Kind) → ObjectKey → Call Cluster (Object k)
get_in k key s = elim (stored_in s k key) [
  | none ↦ (refuse missing_error, s)
  | some o ↦ (answer o, s)
]

abbrev pub cache_namespace : String
cache_namespace = "kube-nfv"

-- A read through the cache, which holds what its filter lets through.
unfoldable pub cached_get : (k : Kind) → ObjectKey → Call Cluster (Object k)
cached_get k key s = elim (stored_in s k key) [
  | none ↦ (refuse missing_error, s)
  | some o ↦ if is_cached cache_namespace k o.meta then (answer o, s) else (refuse missing_error, s)
]

abbrev pub cached_list : (k : Kind) → ListOptions → Call Cluster (List (Object k))
cached_list k opts s = (
  answer (
      filter (in_scope opts)
        (filter (λ o. is_cached cache_namespace k o.meta) (objects k s.cells))),
  s,
)

unfoldable pub replace_in : (k : Kind) → Object k → Call Cluster (Object k)
replace_in k o s = elim (stored_in s k (key_of o.meta)) [
  | none ↦ (refuse missing_error, s)
  | some old ↦ (answer o, write k (o ∷ without (key_of o.meta) (objects k s.cells)) s)
]

abbrev pub marked : {k : Kind} → Object k → Object k
marked o = record o { meta = record o.meta { deletion_timestamp = some 1 } }

-- The objects after a deletion: finalizers hold the object, which is marked.
abbrev pub left_by_delete :
    {k : Kind} → Bool → ObjectKey → Object k → List (Object k) → List (Object k)
left_by_delete true key old xs = marked old ∷ without key xs
left_by_delete false key old xs = without key xs

unfoldable pub delete_in : (k : Kind) → ObjectKey → Call Cluster (Unit {0})
delete_in k key s = elim (stored_in s k key) [
  | none ↦ (refuse missing_error, s)
  | some old ↦
      (answer tt, write k (left_by_delete (has_finalizers k) key old (objects k s.cells)) s)
]

-- Nothing of the key that is deleted with the others in scope stays.
abbrev pub survives : (k : Kind) → ListOptions → Cluster → ObjectKey → Bool
survives k opts s key = elim (stored_in s k key) [ none ↦ true | some o ↦ not (in_scope opts o) ]

unfoldable pub delete_all_in : (k : Kind) → ListOptions → Call Cluster (Unit {0})
delete_all_in k opts s =
    (answer tt, write k (filter (λ o. survives k opts s (key_of o.meta)) (objects k s.cells)) s)

abbrev pub memory : Client Cluster
memory = record {
  get = cached_get;
  list = cached_list;
  live_get = get_in;
  create = create_in;
  update = replace_in;
  patch_labels = replace_in;
  delete = delete_in;
  delete_all_of = delete_all_in;
}

abbrev is_foreign : String → Error → Bool
is_foreign text e = elim (root e) [ foreign t ↦ t == text | _ ↦ false ]

abbrev pub memory_errors : ForeignErrors
memory_errors = record {
  is_not_found = is_foreign "NotFound";
  is_already_exists = is_foreign "AlreadyExists";
  is_invalid = is_foreign "Invalid";
  is_bad_request = is_foreign "BadRequest";
  is_forbidden = is_foreign "Forbidden";
  is_unauthorized = is_foreign "Unauthorized";
  is_status = λ e. elim (root e) [ Error.status code inner ↦ true | _ ↦ false ];
}
