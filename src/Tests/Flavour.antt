-- ===== src/Tests/Flavour.antt =====
-- A flavour with one boot disk, in a cluster in memory.
use kube_vim.Common.{
  String, Bool, true, Option, none, some, List, [], ◌∷◌, ◌≡◌, refl, ap, arith, sym, ◌∙◌,
}
use kube_vim.Errors.{plain, wrap}
use kube_vim.Go.{ok, err, Reply, answer, refuse}
use kube_vim.K8s.Objects.{Kind, Object, is_object_instantiated}
use kube_vim.K8s.Client.{Client, key_of}
use kube_vim.K8s.Memory.{
  Cluster, memory, memory_errors, empty, stored_in, filled, no_cells, exists_error,
}
use kube_vim.K8s.Memory.Lawful.{memory_lawful, memory_lawful-stored}
use kube_vim.K8s.Memory.Lawful.Selective.{memory_selective}
use kube_vim.Flavour.Types.{VirtualStorageData, VirtualComputeFlavour, StorageJson}
use kube_vim.Flavour.Convert.{
  KubevirtNames, instancetype_of, instancetype_from_nfv_flavour, nfv_flavour_from_instancetype,
}
use kube_vim.Flavour.Convert.RoundTrip.{ReadsBack, StoredAs, ShowsFlavour}
use kube_vim.Flavour.Manager.{
  FlavourEnv, create_flavour, create_objects, delete_flavour, in_namespace,
}
use kube_vim.Flavour.Manager.Stored.{
  CreatedFlavour, IsQuiet, instancetype_key, preference_key, create_flavour-CreatedFlavour,
  create_flavour-shown, create_objects-left,
}
use kube_vim.Flavour.Manager.Deleted.{FlavourGone, delete_flavour-FlavourGone}

-- Only a list of one boot disk is encoded, as its size.
abbrev encode : Option String → Option Bool → List VirtualStorageData → Reply String
encode (some size) (some true) [] = answer size
encode _ _ _ = refuse (plain "unsupported value")

abbrev pub boot_disk : String → VirtualStorageData
boot_disk size = record { size_of_storage = some size; is_boot = some true }

abbrev marshal_storage : List VirtualStorageData → Reply String
marshal_storage [] = refuse (plain "unsupported value")
marshal_storage (disk ∷ disks) = encode disk.size_of_storage disk.is_boot disks

abbrev storage_json : StorageJson
storage_json = record {
  marshal = marshal_storage;
  unmarshal = λ text. answer (boot_disk text ∷ []);
}

encode-boot_disk :
    (size : Option String) (boot : Option Bool) (disks : List VirtualStorageData) (text : String)
    → encode size boot disks ≡ answer text
    → (boot_disk text ∷ []) ≡ (record { size_of_storage = size; is_boot = boot } ∷ disks)
encode-boot_disk none boot disks text h = cc
encode-boot_disk (some size) none disks text h = cc
encode-boot_disk (some size) (some true) [] text h =
    ap (λ t. boot_disk t ∷ []) {x = text} {y = size} (cc)
encode-boot_disk (some size) (some true) (_ ∷ _) text h = cc
encode-boot_disk (some size) (some Bool.false) disks text h = cc

reads_back :
    (storage : List VirtualStorageData) (text : String)
    → marshal_storage storage ≡ answer text
    → storage_json.unmarshal text ≡ answer storage
reads_back [] text h = cc
reads_back (disk ∷ disks) text h =
    ap answer (encode-boot_disk disk.size_of_storage disk.is_boot disks text h)

storage_json-ReadsBack : ReadsBack storage_json
storage_json-ReadsBack = record { at = reads_back }

abbrev names : KubevirtNames
names = record {
  instancetype_annotation = "kubevirt.io/instancetype-name";
  preference_annotation = "kubevirt.io/preference-name";
}

abbrev pub flavour_env : FlavourEnv Cluster
flavour_env = record {
  client = memory;
  json = storage_json;
  names = names;
  namespace = "kube-nfv";
  new_uuid = λ s. (answer "4f2a", s);
}

abbrev small : VirtualComputeFlavour
small = record {
  flavour_id = some "small";
  is_public = none;
  virtual_cpu = some (record { num_virtual_cpu = 2 });
  virtual_memory = some (record { virtual_mem_size = some "2Gi" });
  storage_attributes = boot_disk "10Gi" ∷ [];
  metadata = none;
}

abbrev built : Object Kind.instancetype × Object Kind.preference
built = instancetype_of "small" 2 "2Gi" (("flavour.kubevim.kubenfv.io/volumes", "10Gi") ∷ [])

built_run : instancetype_from_nfv_flavour storage_json "small" (some small) ≡ ok built
unfolding instancetype_from_nfv_flavour
built_run = refl

abbrev filled_in : {k : Kind} → Object k → Object k
filled_in o = record o {
  meta = record o.meta { uid = "u"; resource_version = "1"; created = some 1 };
}

filled_in-StoredAs : StoredAs built.0 (filled_in built.0)
unfolding is_object_instantiated
filled_in-StoredAs = record { instantiated = refl; labels = refl; annotations = refl; spec = refl }

filled_in_preference : StoredAs built.1 (filled_in built.1)
unfolding is_object_instantiated
filled_in_preference = record {
  instantiated = refl;
  labels = refl;
  annotations = refl;
  spec = refl;
}

abbrev with_small : Cluster
with_small = (create_flavour flavour_env (some small) empty).1

small_created : (create_flavour flavour_env (some small) empty).0 ≡ ok "small"
unfolding create_flavour instancetype_from_nfv_flavour kube_vim.K8s.Memory.create_in
    kube_vim.Common.find kube_vim.K8s.Memory.objects kube_vim.K8s.Memory.with_objects
small_created = refl

uuid-IsQuiet : IsQuiet flavour_env memory_lawful
uuid-IsQuiet = record { at = λ s j other. refl }

create_flavour-CreatedFlavour_example :
    CreatedFlavour flavour_env memory_lawful small "small" empty with_small
create_flavour-CreatedFlavour_example =
    create_flavour-CreatedFlavour flavour_env memory_lawful small empty "small" uuid-IsQuiet
      small_created

small_deleted : (delete_flavour flavour_env (some "small") with_small).0 ≡ ok tt
unfolding delete_flavour kube_vim.K8s.Memory.delete_all_in
small_deleted = refl

delete_flavour-FlavourGone_example :
    FlavourGone flavour_env memory_lawful memory_selective
      (some "small")
      with_small
      (delete_flavour flavour_env (some "small") with_small).1
delete_flavour-FlavourGone_example =
    delete_flavour-FlavourGone flavour_env memory_lawful memory_selective (some "small") with_small
      small_deleted

abbrev stored_small : Object Kind.instancetype
stored_small = record (in_namespace "kube-nfv" built.0) {
  meta = filled 0 (in_namespace "kube-nfv" built.0).meta;
}

abbrev stored_small_preference : Object Kind.preference
stored_small_preference = record (in_namespace "kube-nfv" built.1) {
  meta = filled 1 (in_namespace "kube-nfv" built.1).meta;
}

small_stored :
    stored_in with_small Kind.instancetype (instancetype_key flavour_env memory_lawful "small")
    ≡ some stored_small
unfolding kube_vim.Common.find kube_vim.K8s.Memory.objects create_flavour
    instancetype_from_nfv_flavour kube_vim.K8s.Memory.create_in kube_vim.K8s.Memory.with_objects
    kube_vim.K8s.Client.same_key key_of kube_vim.K8s.Objects.new_meta
small_stored = refl

small_preference_stored :
    stored_in with_small Kind.preference (preference_key flavour_env memory_lawful "small")
    ≡ some stored_small_preference
unfolding kube_vim.Common.find kube_vim.K8s.Memory.objects create_flavour
    instancetype_from_nfv_flavour kube_vim.K8s.Memory.create_in kube_vim.K8s.Memory.with_objects
    kube_vim.K8s.Client.same_key key_of kube_vim.K8s.Objects.new_meta
small_preference_stored = refl

small_filled : is_object_instantiated stored_small.meta ≡ true
unfolding is_object_instantiated
small_filled = refl

small_preference_filled : is_object_instantiated stored_small_preference.meta ≡ true
unfolding is_object_instantiated
small_preference_filled = refl

create_flavour-shown_example :
    (shown : VirtualComputeFlavour) × (nfv_flavour_from_instancetype names storage_json "small"
        (some stored_small)
        (some stored_small_preference)
      ≡ ok shown)
    × ShowsFlavour "small" small shown
create_flavour-shown_example =
    create_flavour-shown flavour_env memory_lawful small empty "small" stored_small
      stored_small_preference uuid-IsQuiet storage_json-ReadsBack tt small_created
      (memory_lawful-stored with_small Kind.instancetype _ ∙ small_stored)
      (memory_lawful-stored with_small Kind.preference _ ∙ small_preference_stored) small_filled
      small_preference_filled

-- A cluster where the name of the preference is taken.
abbrev taken : Cluster
taken = record { next = 1; cells = record no_cells { preferences = stored_small_preference ∷ [] } }

small_answered :
    (memory.create Kind.instancetype (in_namespace "kube-nfv" built.0) taken).0
    ≡ answer (record (in_namespace "kube-nfv" built.0) {
      meta = filled 1 (in_namespace "kube-nfv" built.0).meta;
    })
unfolding kube_vim.K8s.Memory.create_in kube_vim.Common.find kube_vim.K8s.Memory.objects
small_answered = refl

preference_refused :
    (memory.create Kind.preference
      (in_namespace "kube-nfv" built.1)
      (memory.create Kind.instancetype (in_namespace "kube-nfv" built.0) taken).1).0
    ≡ refuse exists_error
unfolding kube_vim.K8s.Memory.create_in kube_vim.Common.find kube_vim.K8s.Memory.objects
    kube_vim.K8s.Memory.with_objects kube_vim.K8s.Client.same_key key_of
    kube_vim.K8s.Objects.new_meta
preference_refused = refl

create_objects-left_example :
    ((create_objects flavour_env "small" built taken).0
      ≡ err (wrap "create VirtualMachinePreference '%s' for flavour '%s'" exists_error))
    × (memory_lawful.stored
          (create_objects flavour_env "small" built taken).1
          Kind.instancetype
          (key_of (in_namespace "kube-nfv" built.0).meta)
        ≡ some (record (in_namespace "kube-nfv" built.0) {
          meta = filled 1 (in_namespace "kube-nfv" built.0).meta;
        }))
create_objects-left_example =
    create_objects-left flavour_env memory_lawful "small" built.0 built.1 taken _ exists_error
      small_answered preference_refused
