-- ===== src/Compute/Volumes.antt =====
-- The volumes of a machine, in internal/kubevim/compute/kubevirt/manager.go: the boot disk that is
-- cloned from the image, and the cloud-init disk with its secret.
pub mod Boot
pub mod Secret
use kube_vim.Common.{
  String, ◌<>◌, Bool, true, false, Option, none, some, List, [], ◌∷◌, Map, ◌==◌, not, map,
  if◌then◌else◌, text_or_empty,
}
use kube_vim.Errors.{Error, ForeignErrors, invalid_argument, unsupported, internal, wrap}
use kube_vim.Go.{
  Exec, Result, ok, err, panic, pure, raise, panics, call, context, inspect, guard, deref, ◌>>=◌,
  ◌>>◌,
}
use kube_vim.K8s.Objects.{Kind, Object, new_meta, k8s_managed_by_label, kube_nfv_name}
use kube_vim.K8s.Kubevirt.{
  Volume, VolumeSource, data_volume, cloud_init_config_drive, cloud_init_no_cloud, Disk,
  DataVolumeTemplate,
}
use kube_vim.K8s.Client.{Client}
use kube_vim.Network.Types.{Identifier}
use kube_vim.Flavour.Types.{VirtualStorageData}
use kube_vim.Image.Types.{SoftwareImage, k8s_image_id_label}
use kube_vim.Compute.Types.{
  UserData, UserDataMethod, config_drive_plaintext, config_drive_mime_multipart, no_cloud,
  metadata_service, KubevirtApi,
}

abbrev pub kubevirt_vm_cloud_init_secret_suffix : String
kubevirt_vm_cloud_init_secret_suffix = "-cloud-init"

abbrev pub is_true : Option Bool → Bool
is_true none = false
is_true (some b) = b

abbrev pub is_boot : VirtualStorageData → Bool
is_boot attr = is_true attr.is_boot

-- The loop over the storage attributes, with the bootable one that it has found.
unfoldable pub bootable_loop :
    List VirtualStorageData → Option VirtualStorageData → Result (Option VirtualStorageData)
bootable_loop [] found = ok found
bootable_loop (attr ∷ attrs) found =
    let without = bootable_loop attrs found in
    let with_this = bootable_loop attrs (some attr) in
    if is_boot attr
    then elim found [
      | none ↦ with_this
      | some other ↦ err (wrap "more than one bootable storageAttributes specified" unsupported)
    ]
    else without

abbrev pub boot_template :
    SoftwareImage → Identifier → String → String → String → DataVolumeTemplate
boot_template image id size vm_name namespace = record {
  name = vm_name <> "-boot-dv";
  labels = (k8s_managed_by_label, kube_nfv_name) ∷ (k8s_image_id_label, id) ∷ [];
  pvc_namespace = namespace;
  pvc_name = image.name;
  size = size;
  access_modes = "ReadWriteOnce" ∷ [];
}

abbrev pub not_ready : Option Identifier → Result DataVolumeTemplate
not_ready none = panic
not_ready (some id) = err (wrap "image %s (id: %s) not ready (actual state: %s)" internal)

-- The tests of the two sizes.
abbrev pub boot_of_size :
    KubevirtApi
    → SoftwareImage
    → Option String
    → Option String
    → String
    → String
    → Result DataVolumeTemplate
boot_of_size api image none boot_size vm_name namespace =
    err (invalid_argument "software image size" "cannot be zero")
boot_of_size api image (some size) boot_size vm_name namespace =
    if api.is_zero size
    then err (invalid_argument "software image size" "cannot be zero")
    else elim boot_size [
      | none ↦ err (invalid_argument "size of bootable disk" "cannot be zero")
      | some disk_size ↦
          if api.is_zero disk_size
          then err (invalid_argument "size of bootable disk" "cannot be zero")
          else if api.is_greater size disk_size
          then err (invalid_argument "size of bootable disk" "can't be less that image size")
          else ok (
              boot_template image (text_or_empty image.software_image_id) disk_size vm_name
                namespace)
    ]

unfoldable pub init_image_bootable_data_volume :
    KubevirtApi → SoftwareImage → VirtualStorageData → String → String → Result DataVolumeTemplate
init_image_bootable_data_volume api image attr vm_name namespace =
    if image.name == ""
    then err (invalid_argument "software image name" "cannot be empty")
    else if not (image.status == "ready")
    then not_ready image.software_image_id
    else boot_of_size api image image.size attr.size_of_storage vm_name namespace

abbrev pub only_volume : Result DataVolumeTemplate → Result (List DataVolumeTemplate)
only_volume (ok dv) = ok (dv ∷ [])
only_volume (err e) = err (wrap "initialize bootable CDI DataVolume for vm %s" e)
only_volume panic = panic

abbrev pub image_data_volumes :
    KubevirtApi
    → SoftwareImage
    → String
    → String
    → Result (Option VirtualStorageData)
    → Result (List DataVolumeTemplate)
image_data_volumes api image vm_name namespace (ok none) =
    err (wrap "storage attributes not found for bootable disk" unsupported)
image_data_volumes api image vm_name namespace (ok (some attr)) =
    only_volume (init_image_bootable_data_volume api image attr vm_name namespace)
image_data_volumes api image vm_name namespace (err e) = err e
image_data_volumes api image vm_name namespace panic = panic

unfoldable pub init_image_data_volumes :
    KubevirtApi
    → SoftwareImage
    → List VirtualStorageData
    → String
    → String
    → Result (List DataVolumeTemplate)
init_image_data_volumes api image attrs vm_name namespace =
    image_data_volumes api image vm_name namespace (bootable_loop attrs none)

abbrev pub virtio : String → Disk
virtio name = record { name = name; bus = "virtio" }

unfoldable pub init_volumes_disks_from_data_volumes :
    List DataVolumeTemplate → List Volume × List Disk
init_volumes_disks_from_data_volumes [] = ([], [])
init_volumes_disks_from_data_volumes (dv ∷ dvs) =
    let (volumes, disks) = init_volumes_disks_from_data_volumes dvs in
    (record { name = dv.name; source = data_volume dv.name } ∷ volumes, virtio dv.name ∷ disks)

abbrev pub cloud_init_volume : VolumeSource → Volume × Disk
cloud_init_volume source =
    (record { name = "cloudinitdisk"; source = source }, virtio "cloudinitdisk")

-- The switch on the method, after the secret was written.
abbrev pub volume_of_method : {S : Type 0} → UserDataMethod → String → Exec S (Volume × Disk)
volume_of_method config_drive_plaintext name =
    pure (cloud_init_volume (cloud_init_config_drive name))
volume_of_method config_drive_mime_multipart name =
    pure (cloud_init_volume (cloud_init_config_drive name))
volume_of_method no_cloud name = pure (cloud_init_volume (cloud_init_no_cloud name))
volume_of_method metadata_service name =
    raise (wrap "userData metadata service method not supported in KubeVirt natively" unsupported)
volume_of_method (UserDataMethod.unnamed n) name =
    raise (wrap "unsupported userData method '%v'" unsupported)

module _ {S : Type 0} (client : Client S) (errors : ForeignErrors) (api : KubevirtApi) where
  abbrev pub cloud_init_secret : String → String → String → Object Kind.secret
  cloud_init_secret namespace vm_name content = record {
    meta =
        new_meta namespace (vm_name <> kubevirt_vm_cloud_init_secret_suffix)
          ((k8s_managed_by_label, kube_nfv_name) ∷ (api.vm_label, vm_name) ∷ []) [];
    spec = record { content = ("userdata", content) ∷ [] };
  }

  -- Create, and Update where the secret is there already.
  unfoldable pub write_secret : Object Kind.secret → Exec S (Object Kind.secret)
  write_secret secret =
      inspect (call (client.create Kind.secret secret)) (λ made. pure made)
        (λ e.
          if errors.is_already_exists e
          then context "update cloud-init secret '%s'" (call (client.update Kind.secret secret))
          else raise (wrap "create cloud-init secret '%s'" e))

  abbrev pub create_with_method :
      String → String → String → Option UserDataMethod → Exec S (Volume × Disk)
  create_with_method namespace vm_name content none =
      raise (invalid_argument "userData method" "cannot be nil")
  create_with_method namespace vm_name content (some method) =
      write_secret (cloud_init_secret namespace vm_name content) >>= λ made.
      volume_of_method method (vm_name <> kubevirt_vm_cloud_init_secret_suffix)

  unfoldable pub create_user_data_volume_with_secret :
      String → String → UserData → Exec S (Volume × Disk)
  create_user_data_volume_with_secret namespace vm_name user_data =
      if user_data.content == ""
      then raise (invalid_argument "userData content" "cannot be empty")
      else create_with_method namespace vm_name user_data.content user_data.method
