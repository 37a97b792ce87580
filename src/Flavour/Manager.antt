-- ===== src/Flavour/Manager.antt =====
-- internal/kubevim/flavour/kubevirt/manager.go: flavours in the store.
pub mod Stored
pub mod Deleted
use kube_vim.Common.{
  String, ◌<>◌, Bool, true, false, Option, none, some, List, [], ◌∷◌, ◌++◌, Map, ◌==◌, not, find,
  if◌then◌else◌, text_or_empty,
}
use kube_vim.Common.Maps
use kube_vim.Errors.{Error, invalid_argument, not_found, object_not_managed, wrap}
use kube_vim.Go.{Exec, Call, pure, raise, call, context, lift, inspect, ◌>>=◌, ◌>>◌}
use kube_vim.K8s.Objects.{
  Kind, Object, is_object_managed_by_kube_nfv, k8s_managed_by_label, kube_nfv_name,
}
use kube_vim.K8s.Client.{Client, ListOptions}
use kube_vim.Network.Types.{Identifier}
use kube_vim.Flavour.Types.{
  VirtualComputeFlavour, StorageJson, FlavourManager, k8s_flavour_id_label,
}
use kube_vim.Flavour.Convert.{
  KubevirtNames, flavour_labels, instancetype_from_nfv_flavour, nfv_flavour_from_instancetype,
}

-- What a manager is built with, and `uuid.NewRandom`.
pub record FlavourEnv (S : Type 0) : Type 0 where
  pub client : Client S
  pub json : StorageJson
  pub names : KubevirtNames
  pub namespace : String
  pub new_uuid : Call S String

abbrev pub in_namespace : {k : Kind} → String → Object k → Object k
in_namespace namespace o = record o { meta = record o.meta { namespace = namespace } }

abbrev pub has_flavour_id : {k : Kind} → String → Object k → Bool
has_flavour_id id o = elim (Maps.lookup k8s_flavour_id_label o.meta.labels) [
  | none ↦ false
  | some label ↦ id == label
]

module _ {S : Type 0} (env : FlavourEnv S) where
  abbrev pub flavour_id_or_new : Option Identifier → Exec S Identifier
  flavour_id_or_new id =
      if not (text_or_empty id == "")
      then pure (text_or_empty id)
      else context "generate flavour UUID" (call env.new_uuid)

  -- The two writes.
  abbrev pub create_objects :
      Identifier → Object Kind.instancetype × Object Kind.preference → Exec S Identifier
  create_objects flavour_id (inst_type, pref) = do
    context "create VirtualMachineInstancetype '%s' for flavour '%s'"
        (call (env.client.create Kind.instancetype (in_namespace env.namespace inst_type)))
    context "create VirtualMachinePreference '%s' for flavour '%s'"
        (call (env.client.create Kind.preference (in_namespace env.namespace pref)))
    pure flavour_id

  abbrev pub create_flavour_as : VirtualComputeFlavour → Identifier → Exec S Identifier
  create_flavour_as nfv_flavour flavour_id =
      context "convert flavour to kubevirt resources"
        (lift (instancetype_from_nfv_flavour env.json flavour_id (some nfv_flavour)))
      >>= create_objects flavour_id

  unfoldable pub create_flavour : Option VirtualComputeFlavour → Exec S Identifier
  create_flavour none = raise (invalid_argument "flavour" "cannot be nil")
  create_flavour (some nfv_flavour) =
      flavour_id_or_new nfv_flavour.flavour_id >>= create_flavour_as nfv_flavour

  abbrev pub of_flavour : Identifier → ListOptions
  of_flavour id = record {
    in_namespace = some env.namespace;
    matching_labels = (k8s_flavour_id_label, id) ∷ [];
  }

  abbrev pub only_instancetype :
      Identifier → List (Object Kind.instancetype) → Exec S (Object Kind.instancetype)
  only_instancetype id [] = raise (not_found "flavour" id)
  only_instancetype id (inst_type ∷ []) =
      if is_object_managed_by_kube_nfv inst_type.meta
      then pure inst_type
      else raise
          (object_not_managed "VirtualMachineInstancetype" inst_type.meta.name inst_type.meta.uid)
  only_instancetype id (_ ∷ _ ∷ _) =
      raise (invalid_argument "flavour id" "multiple flavours found with id '%s'")

  -- Any other number of preferences than one counts as none.
  abbrev pub only_preference :
      List (Object Kind.preference) → Exec S (Option (Object Kind.preference))
  only_preference (pref ∷ []) =
      if is_object_managed_by_kube_nfv pref.meta
      then pure (some pref)
      else raise (object_not_managed "VirtualMachinePreference" pref.meta.name pref.meta.uid)
  only_preference _ = pure none

  abbrev pub get_flavour_with : Identifier → Exec S VirtualComputeFlavour
  get_flavour_with id = do
    inst_types ←
        context "list VirtualMachineInstancetypes for flavour %s"
          (call (env.client.list Kind.instancetype (of_flavour id)))
    inst_type ← only_instancetype id inst_types
    pref ←
        inspect (call (env.client.list Kind.preference (of_flavour id))) only_preference
          (λ e. pure none)
    context "convert kubevirt resources to flavour '%s' (instancetype: %s)"
        (lift (nfv_flavour_from_instancetype env.names env.json id (some inst_type) pref))

  unfoldable pub get_flavour : Option Identifier → Exec S VirtualComputeFlavour
  get_flavour id =
      if text_or_empty id == ""
      then raise (invalid_argument "flavour id" "required")
      else get_flavour_with (text_or_empty id)

  abbrev pub managed : ListOptions
  managed = record {
    in_namespace = some env.namespace;
    matching_labels = (k8s_managed_by_label, kube_nfv_name) ∷ [];
  }

  abbrev pub labelled_flavour :
      List (Object Kind.preference)
      → Object Kind.instancetype
      → Option String
      → Exec S VirtualComputeFlavour
  labelled_flavour prefs inst_type none =
      raise (invalid_argument "VirtualMachineInstancetype '%s'" "missing flavour id label")
  labelled_flavour prefs inst_type (some id) =
      context "convert kubevirt resources to flavour '%s' (instancetype: %s)" (
        lift (
          nfv_flavour_from_instancetype env.names env.json id (some inst_type)
            (find (has_flavour_id id) prefs)))

  -- The loop over the instance types, with the flavours so far.
  unfoldable pub convert_flavours :
      List (Object Kind.preference)
      → List (Object Kind.instancetype)
      → List VirtualComputeFlavour
      → Exec S (List VirtualComputeFlavour)
  convert_flavours prefs [] res = pure res
  convert_flavours prefs (inst_type ∷ rest) res =
      labelled_flavour prefs inst_type (Maps.lookup k8s_flavour_id_label inst_type.meta.labels)
      >>= λ nfv_flavour. convert_flavours prefs rest (res ++ (nfv_flavour ∷ []))

  unfoldable pub get_flavours : Exec S (List VirtualComputeFlavour)
  get_flavours = do
    inst_types ←
        context "list VirtualMachineInstancetypes"
          (call (env.client.list Kind.instancetype managed))
    prefs ←
        context "list VirtualMachinePreferences" (call (env.client.list Kind.preference managed))
    convert_flavours prefs inst_types []

  unfoldable pub delete_flavour : Option Identifier → Exec S (Unit {0})
  delete_flavour id = do
    context "delete VirtualMachineInstancetype for flavour '%s'" (
        call (
          env.client.delete_all_of Kind.instancetype (record {
            in_namespace = some env.namespace;
            matching_labels = flavour_labels (text_or_empty id);
          })))
    context "delete VirtualMachinePreference for flavour '%s'" (
        call (
          env.client.delete_all_of Kind.preference (record {
            in_namespace = some env.namespace;
            matching_labels = flavour_labels (text_or_empty id);
          })))

  unfoldable pub kubevirt_flavours : FlavourManager S
  kubevirt_flavours = record {
    create_flavour = create_flavour;
    get_flavour = get_flavour;
    get_flavours = get_flavours;
    delete_flavour = delete_flavour;
  }
