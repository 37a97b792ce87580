-- ===== src/Image/Cdi/Undone.antt =====
-- `DownloadImage` of internal/kubevim/image/cdi/manager.go, where a step after the first one fails.
use kube_vim.Common.{
  false, text_or_empty, some, String, true, Option, none, ◌≡◌, refl, ◌∙◌, inl, inr, Bool-cases,
}
use kube_vim.Errors.{Error, ForeignErrors, wrap}
use kube_vim.Go.{Exec, Call, Result, ok, err, answer, refuse, call, raise, ignore, ◌>>=◌, ◌>>◌}
use kube_vim.Go.Laws.{Reply-cases, Result-cases}
use kube_vim.K8s.Objects.{Kind, Object, set_label}
use kube_vim.K8s.Lawful.{IsLawful, has_finalizers}
use kube_vim.K8s.Kubevirt.{ImportSource}
use kube_vim.Network.Types.{Identifier}
use kube_vim.Image.Cdi.{
  CdiEnv, image_data_volume, DownloadOptions, DownloadRequest, get_storage_class,
  storage_class_name, download_image, volume_import_source, import_source_type_from_image_source,
  k8s_data_volume_id_label, image_key, cleanup_data_volume, or_cleanup, label_import_source,
  download_now, after_import_source, is_lazy,
}

module _ {S A : Type 0} (m : Call S A) {B : Type 0} (e : Error) (s : S) where
  -- Whatever a cleanup returns, the error is the one of the failed step.
  pub ignore-raise : (ignore (call m) >> raise {A = B} e) s ≡ (err e, (m s).1)
  ignore-raise = elim (Reply-cases (m s).0) [
    | inl (a, answered) ↦ rw (answered) refl
    | inr (d, refused) ↦ rw (refused) refl
  ]

module _ {S : Type 0} (env : CdiEnv S) {f : ForeignErrors} (l : IsLawful env.client f)
    (img_name : String) where
  -- The apiserver deletes what is there: it refuses a deletion only if nothing is.
  pub record DeletesAnswered : Type 0 where
    pub only_missing :
        (k : Kind) (s : S) (e : Error)
        → (env.client.delete k (image_key env img_name) s).0 ≡ refuse e
        → f.is_not_found e ≡ true

  -- No object of the image's name is stored.
  abbrev pub Absent : Kind → S → Type 0
  Absent k s = l.stored s k (image_key env img_name) ≡ none

  -- A failure leaves no import source.
  abbrev pub LeavesNone : Result Identifier × S → Type 0
  LeavesNone r = (e : Error) → r.0 ≡ err e → Absent Kind.volume_import r.1

  deleted-Absent :
      DeletesAnswered
      → (k : Kind) (s : S) → has_finalizers k ≡ false
      → Absent k (env.client.delete k (image_key env img_name) s).1
  deleted-Absent d k s free =
      elim (Reply-cases (env.client.delete k (image_key env img_name) s).0) [
        | inl (done, answered) ↦ l.delete_removes k (image_key env img_name) s done free answered
        | inr (e, refused) ↦
            l.delete_refused k (image_key env img_name) s e k (image_key env img_name) refused
            ∙ l.delete_missing k (image_key env img_name) s e refused (d.only_missing k s e refused)
      ]

  abbrev without_source : S → S
  without_source s = (env.client.delete Kind.volume_import (image_key env img_name) s).1

  or_cleanup-LeavesNone :
      DeletesAnswered
      → {A : Type 0} (text : String) (m : Exec S A) (g : A → Exec S Identifier) (s : S)
      → ((a : A) → LeavesNone (g a (m s).1))
      → LeavesNone ((or_cleanup env text img_name m >>= g) s)
  or_cleanup-LeavesNone d text m g s rest = elim (Result-cases (m s).0) [
    | inl (a, found) ↦ rw (found) (rest a)
    | inr (inl (e, raised)) ↦
        rw
          (
            raised,
            ignore-raise (env.client.delete Kind.volume_import (image_key env img_name))
                (wrap text e) (m s).1,
          )
          λ e' h. deleted-Absent d Kind.volume_import (m s).1 refl
    | inr (inr panicked) ↦ rw (panicked) λ e h. absurd cc
  ]

  abbrev labelled : Object Kind.volume_import → Object Kind.data_volume → Object Kind.volume_import
  labelled vis dv = set_label Kind.volume_import k8s_data_volume_id_label dv.meta.uid vis

  -- The data volume is deleted after the import source, which stays away.
  cleaned-Absent :
      DeletesAnswered
      → (s : S)
      → Absent Kind.volume_import
          (env.client.delete Kind.data_volume (image_key env img_name) (without_source s)).1
  cleaned-Absent d s =
      l.delete_other Kind.data_volume (image_key env img_name) (without_source s) Kind.volume_import
        (image_key env img_name) refl
      ∙ deleted-Absent d Kind.volume_import s refl

  cleanup-raise :
      (e : Error) (s : S)
      → (cleanup_data_volume env img_name >> raise {A = Identifier} e) s ≡ (
        err e,
        (env.client.delete Kind.data_volume (image_key env img_name) (without_source s)).1,
      )
  cleanup-raise e s =
      elim (Reply-cases (env.client.delete Kind.volume_import (image_key env img_name) s).0) [
        | inl (a, answered) ↦ rw (answered) (
            ignore-raise (env.client.delete Kind.data_volume (image_key env img_name)) e
              (without_source s))
        | inr (x, refused) ↦ rw (refused) (
            ignore-raise (env.client.delete Kind.data_volume (image_key env img_name)) e
              (without_source s))
      ]

  label-LeavesNone :
      DeletesAnswered
      → (vis : Object Kind.volume_import) (dv : Object Kind.data_volume) (s : S)
      → LeavesNone (label_import_source env img_name vis dv s)
  label-LeavesNone d vis dv s =
      elim (Reply-cases (env.client.patch_labels Kind.volume_import (labelled vis dv) s).0) [
        | inl (o, patched) ↦ rw (patched) λ e h. absurd cc
        | inr (e, refused) ↦
            rw
              (
                refused,
                cleanup-raise (wrap "update CDI VolumeImportSource label for image '%s'" e)
                    (env.client.patch_labels Kind.volume_import (labelled vis dv) s).1,
              )
              λ e' h.
                cleaned-Absent d (env.client.patch_labels Kind.volume_import (labelled vis dv) s).1
      ]

  abbrev found_class : Option DownloadOptions → Exec S (Object Kind.storage_class)
  found_class options = get_storage_class env (storage_class_name env options)

  abbrev new_volume :
      Option DownloadOptions
      → Object Kind.volume_import
      → Object Kind.storage_class
      → Exec S (Object Kind.data_volume)
  new_volume options vis class = call (
      env.client.create Kind.data_volume
        (image_data_volume env img_name vis.meta.uid options class))

  abbrev volume_of :
      Option DownloadOptions
      → Object Kind.volume_import
      → Object Kind.storage_class
      → Exec S Identifier
  volume_of options vis class =
      or_cleanup env "create CDI DataVolume for image '%s'" img_name (new_volume options vis class)
      >>= label_import_source env img_name vis

  download_now-LeavesNone :
      DeletesAnswered
      → (options : Option DownloadOptions) (vis : Object Kind.volume_import) (s : S)
      → LeavesNone (download_now env img_name options vis s)
  unfolding download_now
  download_now-LeavesNone d options vis s =
      or_cleanup-LeavesNone d "get storageClass" (found_class options) (volume_of options vis) s
        λ class.
          or_cleanup-LeavesNone d "create CDI DataVolume for image '%s'"
            (new_volume options vis class) (label_import_source env img_name vis)
            (found_class options s).1
            λ dv.
              label-LeavesNone d vis dv (new_volume options vis class (found_class options s).1).1

  after-LeavesNone :
      DeletesAnswered
      → (options : Option DownloadOptions) (vis : Object Kind.volume_import) (s : S)
      → LeavesNone (after_import_source env img_name options vis s)
  unfolding after_import_source
  after-LeavesNone d options vis s = elim (Bool-cases (is_lazy env options)) [
    | inl lazy ↦ rw (lazy) λ e h. absurd cc
    | inr now ↦ rw (now) (download_now-LeavesNone d options vis s)
  ]

module _ {S : Type 0} (env : CdiEnv S) {f : ForeignErrors} (l : IsLawful env.client f)
    (req : DownloadRequest) (s : S) where
  abbrev pub requested_name : String
  requested_name = text_or_empty req.metadata

  -- Over an API that meets the documented laws, and that refuses to delete an object of the image
  -- only as NotFound: a DownloadImage that fails after it created the import source of the image
  -- leaves no import source of that name.
  pub download_image-LeavesNone :
      DeletesAnswered env l requested_name
      → (source : ImportSource) (vis : Object Kind.volume_import)
      → import_source_type_from_image_source req.source ≡ ok source
      → (env.client.create Kind.volume_import (volume_import_source env requested_name source) s).0
        ≡ answer vis
      → LeavesNone env l requested_name (download_image env (some req) s)
  unfolding download_image
  download_image-LeavesNone d source vis sourced made =
      rw (sourced, made)
        (after-LeavesNone env l requested_name d req.options vis
          (env.client.create Kind.volume_import (volume_import_source env requested_name source)
            s).1)
