-- ===== src/Compute/Volumes/Boot.antt =====
-- The boot disk that `initImageDataVolumes` of internal/kubevim/compute/kubevirt/manager.go selects
-- and sizes.
use kube_vim.Common.{
  String, ◌<>◌, false, Option, none, some, List, [], ◌∷◌, filter, ◌≡◌, refl, sym, ◌∙◌, arith, ◌==◌,
  eq_iff, inl, inr, Bool-cases,
}
use kube_vim.Errors.{wrap, unsupported}
use kube_vim.Go.{Result, ok, err, panic}
use kube_vim.K8s.Kubevirt.{DataVolumeTemplate}
use kube_vim.Network.Types.{Identifier}
use kube_vim.Flavour.Types.{VirtualStorageData}
use kube_vim.Image.Types.{SoftwareImage}
use kube_vim.Compute.Types.{KubevirtApi}
use kube_vim.Compute.Volumes.{
  is_boot, bootable_loop, boot_of_size, not_ready, init_image_bootable_data_volume,
  image_data_volumes, only_volume, init_image_data_volumes,
}

-- What the loop looks for: the one item of a list.
abbrev pub one_or_none : List VirtualStorageData → Result (Option VirtualStorageData)
one_or_none [] = ok none
one_or_none (attr ∷ []) = ok (some attr)
one_or_none (_ ∷ _ ∷ _) =
    err (wrap "more than one bootable storageAttributes specified" unsupported)

bootable_loop-found :
    (attrs : List VirtualStorageData) (found : VirtualStorageData)
    → bootable_loop attrs (some found) ≡ one_or_none (found ∷ filter is_boot attrs)
unfolding bootable_loop filter
bootable_loop-found [] found = refl
bootable_loop-found (attr ∷ attrs) found = ground (arith, bootable_loop-found attrs found)

-- The loop over the storage attributes finds the only one that is bootable, or none, and fails
-- where there are more.
pub bootable_loop-filter :
    (attrs : List VirtualStorageData)
    → bootable_loop attrs none ≡ one_or_none (filter is_boot attrs)
unfolding bootable_loop filter
bootable_loop-filter [] = refl
bootable_loop-filter (attr ∷ attrs) =
    ground (arith, bootable_loop-filter attrs, bootable_loop-found attrs attr)

one_or_none-some :
    (attrs : List VirtualStorageData) (attr : VirtualStorageData)
    → one_or_none attrs ≡ ok (some attr)
    → attrs ≡ attr ∷ []
one_or_none-some [] attr h = absurd (cc)
one_or_none-some (x ∷ []) attr h = cc
one_or_none-some (x ∷ y ∷ xs) attr h = absurd (cc)

-- A volume that clones the image and has room for it.
pub record HoldsImage (api : KubevirtApi) (image : SoftwareImage) (attr : VirtualStorageData)
    (vm_name namespace : String) (dv : DataVolumeTemplate) : Type 0 where
  pub image_size : String
  pub sized : image.size ≡ some image_size
  pub disk_size : attr.size_of_storage ≡ some dv.size
  pub image_not_empty : api.is_zero image_size ≡ false
  pub disk_not_empty : api.is_zero dv.size ≡ false
  pub fits : api.is_greater image_size dv.size ≡ false
  pub name : dv.name ≡ vm_name <> "-boot-dv"
  pub source : dv.pvc_name ≡ image.name
  pub source_namespace : dv.pvc_namespace ≡ namespace

not_ready-fails : (id : Option Identifier) (dv : DataVolumeTemplate) → not_ready id ≡ ok dv → ⊥
not_ready-fails none dv h = cc
not_ready-fails (some id) dv h = cc

module _ (api : KubevirtApi) (image : SoftwareImage) (vm_name namespace : String) where
  sized-HoldsImage :
      (attr : VirtualStorageData) (size boot_size : Option String) (dv : DataVolumeTemplate)
      → image.size ≡ size
      → attr.size_of_storage ≡ boot_size
      → boot_of_size api image size boot_size vm_name namespace ≡ ok dv
      → HoldsImage api image attr vm_name namespace dv
  sized-HoldsImage attr none boot_size dv p q h = absurd (cc)
  sized-HoldsImage attr (some size) none dv p q h = absurd (ground arith)
  sized-HoldsImage attr (some size) (some disk_size) dv p q h = record {
    image_size = size;
    sized = p;
    disk_size = q ∙ ground arith;
    image_not_empty = ground arith;
    disk_not_empty = ground arith;
    fits = ground arith;
    name = ground arith;
    source = ground arith;
    source_namespace = ground arith;
  }

  -- The image is one that is ready.
  abbrev pub IsReady : Type 0
  IsReady = image.status ≡ "ready"

  bootable-HoldsImage :
      (attr : VirtualStorageData) (dv : DataVolumeTemplate)
      → init_image_bootable_data_volume api image attr vm_name namespace ≡ ok dv
      → IsReady × HoldsImage api image attr vm_name namespace dv
  unfolding init_image_bootable_data_volume
  bootable-HoldsImage attr dv h = elim (Bool-cases (image.name == "")) [
    | inl empty ↦ absurd (ground (arith, empty))
    | inr named ↦ elim (Bool-cases (image.status == "ready")) [
      | inl ready ↦ (
        (eq_iff image.status "ready").0 ready,
        sized-HoldsImage attr image.size attr.size_of_storage dv refl refl
            (ground (arith, named, ready)),
      )
      | inr unready ↦
          absurd (not_ready-fails image.software_image_id dv (ground (arith, named, unready)))
    ]
  ]

  -- The volumes are one volume, of the one bootable storage attribute.
  pub record BootVolume (attrs : List VirtualStorageData) (dvs : List DataVolumeTemplate)
      : Type 0 where
    pub attr : VirtualStorageData
    pub dv : DataVolumeTemplate
    pub bootable : filter is_boot attrs ≡ attr ∷ []
    pub only : dvs ≡ dv ∷ []
    pub ready : IsReady
    pub holds : HoldsImage api image attr vm_name namespace dv

  only_volume-BootVolume :
      (attrs : List VirtualStorageData) (attr : VirtualStorageData) (dvs : List DataVolumeTemplate)
      (made : Result DataVolumeTemplate)
      → filter is_boot attrs ≡ attr ∷ []
      → init_image_bootable_data_volume api image attr vm_name namespace ≡ made
      → only_volume made ≡ ok dvs
      → BootVolume attrs dvs
  only_volume-BootVolume attrs attr dvs (ok dv) bootable run h =
      let (ready, holds) = bootable-HoldsImage attr dv run in
      record { attr = attr; dv = dv; bootable = bootable; only = cc; ready = ready; holds = holds }
  only_volume-BootVolume attrs attr dvs (err e) bootable run h = absurd (cc)
  only_volume-BootVolume attrs attr dvs panic bootable run h = absurd (cc)

  found-BootVolume :
      (attrs : List VirtualStorageData) (dvs : List DataVolumeTemplate)
      (found : Result (Option VirtualStorageData))
      → one_or_none (filter is_boot attrs) ≡ found
      → image_data_volumes api image vm_name namespace found ≡ ok dvs
      → BootVolume attrs dvs
  found-BootVolume attrs dvs (ok none) same h = absurd (cc)
  found-BootVolume attrs dvs (ok (some attr)) same h =
      only_volume-BootVolume attrs attr dvs _ (one_or_none-some (filter is_boot attrs) attr same)
        refl h
  found-BootVolume attrs dvs (err e) same h = absurd (cc)
  found-BootVolume attrs dvs panic same h = absurd (cc)

  -- Where the data volumes of a machine are initialized, the flavour has exactly one bootable
  -- disk, the image is ready, and the one volume clones the image at the size of that disk, which
  -- is neither zero nor less than the size of the image.
  pub init_image_data_volumes-BootVolume :
      (attrs : List VirtualStorageData) (dvs : List DataVolumeTemplate)
      → init_image_data_volumes api image attrs vm_name namespace ≡ ok dvs
      → BootVolume attrs dvs
  unfolding init_image_data_volumes
  init_image_data_volumes-BootVolume attrs dvs h =
      found-BootVolume attrs dvs (bootable_loop attrs none) (sym (bootable_loop-filter attrs)) h
