-- ===== src/Flavour/Convert/RoundTrip.antt =====
-- A flavour that is asked for, kept as an instance type, and shown again: the conversions of
-- internal/kubevim/flavour/kubevirt/utils.go, one after the other.
use mathlib.Core.Path.{subst}
use kube_vim.Common.{
  String, ℕ, true, Option, none, some, List, [], ◌∷◌, Map, ◌≡◌, refl, sym, ap, ◌∙◌, arith,
}
use kube_vim.Common.Maps.{NodupKeys, lookup, lookup-insert_all}
use kube_vim.Go.{ok, Reply, answer, refuse}
use kube_vim.K8s.Objects.{
  Kind, Object, is_object_instantiated, is_object_managed_by_kube_nfv, is_managed_label, new_meta,
  k8s_managed_by_label,
}
use kube_vim.Network.Types.{Identifier}
use kube_vim.Flavour.Types.{
  VirtualStorageData, VirtualCpuData, VirtualMemoryData, VirtualComputeFlavour, StorageJson,
  k8s_volumes_annotation,
}
use kube_vim.Flavour.Convert.{
  KubevirtNames, flavour_labels, with_metadata, with_resources, with_memory, with_volumes,
  instancetype_of, instancetype_from_nfv_flavour, nfv_flavour_from_instancetype, shown_flavour,
  flavour_name_from_id, flavour_preference_name_from_id,
}

-- `json.Unmarshal` reads back what `json.Marshal` wrote.
pub record ReadsBack (json : StorageJson) : Type 0 where
  pub at :
      (storage : List VirtualStorageData) (text : String)
      → json.marshal storage ≡ answer text
      → json.unmarshal text ≡ answer storage

-- The metadata of the request has no annotation of the name that the volumes are kept under.
abbrev pub KeepsVolumes : Option (Map String) → Type 0
KeepsVolumes none = Unit
KeepsVolumes (some fields) = NodupKeys fields × (lookup k8s_volumes_annotation fields ≡ none)

-- The instance type that a flavour is turned into, and its preference.
pub record BuiltFrom (json : StorageJson) (id : Identifier) (f : VirtualComputeFlavour)
    (inst_type : Object Kind.instancetype) (pref : Object Kind.preference) : Type 0 where
  pub text : String
  pub marshalled : json.marshal f.storage_attributes ≡ answer text
  pub cpu : f.virtual_cpu ≡ some (record { num_virtual_cpu = inst_type.spec.cpu_guest })
  pub memory :
      f.virtual_memory ≡ some (record { virtual_mem_size = some inst_type.spec.memory_guest })
  pub labels : inst_type.meta.labels ≡ flavour_labels id
  pub annotations :
      inst_type.meta.annotations ≡ with_metadata f.metadata ((k8s_volumes_annotation, text) ∷ [])
  pub name : inst_type.meta.name ≡ flavour_name_from_id id
  pub preference_labels : pref.meta.labels ≡ flavour_labels id
  pub preference_name : pref.meta.name ≡ flavour_preference_name_from_id id

built_of :
    (json : StorageJson) (id : Identifier) (f : VirtualComputeFlavour) (n : ℕ) (size text : String)
    → f.virtual_cpu ≡ some (record { num_virtual_cpu = n })
    → f.virtual_memory ≡ some (record { virtual_mem_size = some size })
    → json.marshal f.storage_attributes ≡ answer text
    → (built : Object Kind.instancetype × Object Kind.preference)
    → instancetype_of id n size (with_metadata f.metadata ((k8s_volumes_annotation, text) ∷ []))
      ≡ built
    → BuiltFrom json id f built.0 built.1
unfolding new_meta
built_of json id f n size text cpu memory marshalled built h =
    subst (λ (b : Object Kind.instancetype × Object Kind.preference). BuiltFrom json id f b.0 b.1) h
      (record {
        text = text;
        marshalled = marshalled;
        cpu = cpu;
        memory = memory;
        labels = refl;
        annotations = refl;
        name = refl;
        preference_labels = refl;
        preference_name = refl;
      })

volumes-BuiltFrom :
    (json : StorageJson) (id : Identifier) (f : VirtualComputeFlavour) (n : ℕ) (size : String)
    (reply : Reply String) (built : Object Kind.instancetype × Object Kind.preference)
    → f.virtual_cpu ≡ some (record { num_virtual_cpu = n })
    → f.virtual_memory ≡ some (record { virtual_mem_size = some size })
    → json.marshal f.storage_attributes ≡ reply
    → with_volumes id n size f.metadata reply ≡ ok built
    → BuiltFrom json id f built.0 built.1
volumes-BuiltFrom json id f n size (refuse e) built cpu memory marshalled h = absurd (cc)
volumes-BuiltFrom json id f n size (answer text) built cpu memory marshalled h =
    built_of json id f n size text cpu memory marshalled built (cc)

memory-BuiltFrom :
    (json : StorageJson) (id : Identifier) (f : VirtualComputeFlavour) (n : ℕ)
    (size : Option String) (built : Object Kind.instancetype × Object Kind.preference)
    → f.virtual_cpu ≡ some (record { num_virtual_cpu = n })
    → f.virtual_memory ≡ some (record { virtual_mem_size = size })
    → with_memory json id n f size ≡ ok built
    → BuiltFrom json id f built.0 built.1
memory-BuiltFrom json id f n none built cpu memory h = absurd (cc)
memory-BuiltFrom json id f n (some size) built cpu memory h =
    volumes-BuiltFrom json id f n size (json.marshal f.storage_attributes) built cpu memory refl h

resources-BuiltFrom :
    (json : StorageJson) (id : Identifier) (f : VirtualComputeFlavour) (cpu : Option VirtualCpuData)
    (memory : Option VirtualMemoryData) (built : Object Kind.instancetype × Object Kind.preference)
    → f.virtual_cpu ≡ cpu
    → f.virtual_memory ≡ memory
    → with_resources json id f cpu memory ≡ ok built
    → BuiltFrom json id f built.0 built.1
resources-BuiltFrom json id f none memory built p q h = absurd (cc)
resources-BuiltFrom json id f (some cpu) none built p q h = absurd (cc)
resources-BuiltFrom json id f (some cpu) (some memory) built p q h =
    memory-BuiltFrom json id f cpu.num_virtual_cpu memory.virtual_mem_size built p q (ground arith)

pub instancetype-BuiltFrom :
    (json : StorageJson) (id : Identifier) (f : VirtualComputeFlavour)
    (inst_type : Object Kind.instancetype) (pref : Object Kind.preference)
    → instancetype_from_nfv_flavour json id (some f) ≡ ok (inst_type, pref)
    → BuiltFrom json id f inst_type pref
unfolding instancetype_from_nfv_flavour
instancetype-BuiltFrom json id f inst_type pref h =
    resources-BuiltFrom json id f f.virtual_cpu f.virtual_memory (inst_type, pref) refl refl h

-- The apiserver has filled in an object, which keeps its labels, annotations and spec.
pub record StoredAs {k : Kind} (built o : Object k) : Type 0 where
  pub instantiated : is_object_instantiated o.meta ≡ true
  pub labels : o.meta.labels ≡ built.meta.labels
  pub annotations : o.meta.annotations ≡ built.meta.annotations
  pub spec : o.spec ≡ built.spec

-- What the client asked for and what it is shown.
pub record ShowsFlavour (id : Identifier) (f shown : VirtualComputeFlavour) : Type 0 where
  pub flavour_id : shown.flavour_id ≡ some id
  pub virtual_cpu : shown.virtual_cpu ≡ f.virtual_cpu
  pub virtual_memory : shown.virtual_memory ≡ f.virtual_memory
  pub storage_attributes : shown.storage_attributes ≡ f.storage_attributes

volumes_kept :
    (metadata : Option (Map String)) (text : String)
    → KeepsVolumes metadata
    → lookup k8s_volumes_annotation (with_metadata metadata ((k8s_volumes_annotation, text) ∷ []))
      ≡ some text
unfolding lookup
volumes_kept none text keeps = refl
volumes_kept (some fields) text (unique, free) =
    lookup-insert_all k8s_volumes_annotation fields ((k8s_volumes_annotation, text) ∷ []) unique
    ∙ ap (λ o. elim o [ none ↦ some text | some v ↦ some v ]) free

labels_managed :
    (id : Identifier) (labels : Map String)
    → labels ≡ flavour_labels id
    → is_managed_label (lookup k8s_managed_by_label labels) ≡ true
unfolding is_managed_label lookup
labels_managed id labels h = ap (λ l. is_managed_label (lookup k8s_managed_by_label l)) h

-- A flavour is shown as it was asked for, if its objects keep what was built.
pub flavour-round_trip :
    (names : KubevirtNames) (json : StorageJson) (id : Identifier) (f : VirtualComputeFlavour)
    (inst_type o : Object Kind.instancetype) (pref p : Object Kind.preference)
    → ReadsBack json
    → KeepsVolumes f.metadata
    → instancetype_from_nfv_flavour json id (some f) ≡ ok (inst_type, pref)
    → StoredAs inst_type o
    → StoredAs pref p
    → (shown : VirtualComputeFlavour) × (nfv_flavour_from_instancetype names json id
          (some o)
          (some p)
        ≡ ok shown)
      × ShowsFlavour id f shown
unfolding nfv_flavour_from_instancetype is_object_managed_by_kube_nfv
flavour-round_trip names json id f inst_type o pref p reads keeps done so sp =
    let b = instancetype-BuiltFrom json id f inst_type pref done in
    let managed = labels_managed id o.meta.labels (so.labels ∙ b.labels) in
    let pref_managed = labels_managed id p.meta.labels (sp.labels ∙ b.preference_labels) in
    let volumes =
      ap (lookup k8s_volumes_annotation) (so.annotations ∙ b.annotations)
      ∙ volumes_kept f.metadata b.text keeps in
    (
      shown_flavour names id o (some p) f.storage_attributes,
      rw (
        so.instantiated,
        sp.instantiated,
        managed,
        pref_managed,
        volumes,
        reads.at f.storage_attributes b.text b.marshalled,
      ),
      record {
        flavour_id = refl;
        virtual_cpu =
            ap (λ spec. some (record { num_virtual_cpu = spec.cpu_guest })) so.spec ∙ sym b.cpu;
        virtual_memory =
            ap (λ spec. some (record { virtual_mem_size = some spec.memory_guest })) so.spec
            ∙ sym b.memory;
        storage_attributes = refl;
      },
    )
