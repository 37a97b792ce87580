-- ===== src/Image/Cdi.antt =====
-- internal/kubevim/image/cdi: the sources of images in utils.go, the storage class, and DownloadImage
-- of manager.go, with what it undoes.
pub mod Undone
use kube_vim.Common.{
  String, ◌<>◌, Bool, true, false, Option, none, some, List, [], ◌∷◌, Map, ◌==◌, ◌||◌, not, find,
  if◌then◌else◌, text_or_empty,
}
use kube_vim.Common.Maps
use kube_vim.Errors.{invalid_argument, not_found, unsupported, wrap}
use kube_vim.Go.{
  Exec, Result, ok, err, Call, Reply, answer, refuse, pure, raise, call, context, lift, inspect,
  ignore, wrapped, ◌>>=◌, ◌>>◌,
}
use kube_vim.K8s.Objects.{Kind, Object, new_meta, set_label, k8s_managed_by_label, kube_nfv_name}
use kube_vim.K8s.Client.{Client, ObjectKey}
use kube_vim.K8s.Kubevirt.{HttpSource, ImportSource}
use kube_vim.Network.Types.{Identifier}
use kube_vim.Image.Types.{SourceType, http, https, k8s_image_id_label, k8s_is_upload_label}

abbrev pub cdi_volume_import_source_kind : String
cdi_volume_import_source_kind = "VolumeImportSource"

abbrev pub k8s_data_volume_id_label : String
k8s_data_volume_id_label = "cdi.image.kubevim.kubenfv.io/data-volume-id"

abbrev pub default_image_size : String
default_image_size = "10Gi"

-- admin.HttpSource, admin.ImageSource, admin.DownloadOptions and admin.DownloadImageRequest; the
-- metadata of a request is the name in it
pub record HttpImage : Type 0 where
  pub url : String
  pub headers : Map String

pub data ImageSourceType : Type 0 where
  from_http other_source : ImageSourceType

pub record ImageSource : Type 0 where
  pub type : ImageSourceType
  pub http : Option HttpImage

pub record DownloadOptions : Type 0 where
  pub lazy_download : Option Bool
  pub storage_class : Option String
  pub storage_size : Option String

pub record DownloadRequest : Type 0 where
  pub metadata : Option String
  pub source : Option ImageSource
  pub options : Option DownloadOptions

-- What the manager is built with; `list_storage_classes` is the uncached reader. `parse_quantity`
-- is `resource.ParseQuantity`, and `binary_si` sets the format of a quantity.
pub record CdiEnv (S : Type 0) : Type 0 where
  pub client : Client S
  pub list_storage_classes : Call S (List (Object Kind.storage_class))
  pub parse_quantity : String → Reply String
  pub binary_si : String → String
  pub wait_for_first_consumer : String
  pub read_write_once : String
  pub namespace : String
  pub storage_class : String

-- `range http.Headers`
abbrev pub extra_headers : Map String → List String
extra_headers [] = []
extra_headers ((hdr, val) ∷ headers) = (hdr <> ": " <> val) ∷ extra_headers headers

unfoldable pub convert_to_http_data_volume_source : Option HttpImage → Result HttpSource
convert_to_http_data_volume_source none = err (invalid_argument "httpSource" "can't be nil")
convert_to_http_data_volume_source (some image) = ok (record {
  url = image.url;
  extra_headers = extra_headers image.headers;
  cert_config_map = "";
  secret_ref = "";
})

abbrev pub import_source_of : Result HttpSource → Result ImportSource
import_source_of (ok source) = ok (record { http = some source })
import_source_of (err e) = err e
import_source_of Result.panic = Result.panic

abbrev pub import_source_of_type : ImageSourceType → Option HttpImage → Result ImportSource
import_source_of_type ImageSourceType.from_http image =
    import_source_of
      (wrapped "convert to http data volume source" (convert_to_http_data_volume_source image))
import_source_of_type ImageSourceType.other_source image =
    err (wrap "unknown imageSource type '%s'" unsupported)

unfoldable pub import_source_type_from_image_source : Option ImageSource → Result ImportSource
import_source_type_from_image_source none = err (invalid_argument "imageSource" "can't be nil")
import_source_type_from_image_source (some source) = import_source_of_type source.type source.http

unfoldable pub source_name_from_import_source_type : Option ImportSource → Result SourceType
source_name_from_import_source_type none = err (invalid_argument "source" "can't be nil")
source_name_from_import_source_type (some source) = elim source.http [
  | none ↦ err (wrap "unsupported source" unsupported)
  | some from ↦
      if not (from.cert_config_map == "") || not (from.secret_ref == "") then ok https else ok http
]

abbrev pub has_annotation : String → Object Kind.storage_class → Bool
has_annotation key class = text_or_empty (Maps.lookup key class.meta.annotations) == "true"

unfoldable pub is_default_class : Object Kind.storage_class → Bool
is_default_class class =
    has_annotation "storageclass.kubernetes.io/is-default-class" class
    || has_annotation "storageclass.beta.kubernetes.io/is-default-class" class

abbrev pub first_class : Option (Object Kind.storage_class) → Result (Object Kind.storage_class)
first_class none = err (not_found "storageClass" "default")
first_class (some class) = ok class

module _ {S : Type 0} (env : CdiEnv S) where
  unfoldable pub get_storage_class : String → Exec S (Object Kind.storage_class)
  get_storage_class name =
      if name == ""
      then raise (invalid_argument "name" "can't be empty")
      else if not (name == "default")
      then context "failed to get storage class %q"
          (call (env.client.live_get Kind.storage_class (record { namespace = ""; name = name })))
      else (context "failed to list storage classes" (call env.list_storage_classes) >>= λ classes.
          lift (first_class (find is_default_class classes)))

  -- The option of the request, if it is set and not empty, else the configuration.
  unfoldable pub storage_class_name : Option DownloadOptions → String
  storage_class_name none = env.storage_class
  storage_class_name (some options) =
      if text_or_empty options.storage_class == ""
      then env.storage_class
      else text_or_empty options.storage_class

  abbrev pub parsed_or_default : Reply String → String
  parsed_or_default (answer size) = size
  parsed_or_default (refuse e) = default_image_size

  abbrev pub requested_size : Option String → String
  requested_size none = default_image_size
  requested_size (some size) = parsed_or_default (env.parse_quantity size)

  unfoldable pub image_size : Option DownloadOptions → String
  image_size none = env.binary_si default_image_size
  image_size (some options) = env.binary_si (requested_size options.storage_size)

  abbrev pub is_lazy : Option DownloadOptions → Bool
  is_lazy none = false
  is_lazy (some options) = elim options.lazy_download [ none ↦ false | some lazy ↦ lazy ]

  unfoldable pub volume_import_source : String → ImportSource → Object Kind.volume_import
  volume_import_source img_name source = record {
    meta =
        new_meta env.namespace img_name
          ((k8s_managed_by_label, kube_nfv_name) ∷ (k8s_is_upload_label, "false") ∷ []) [];
    spec = record { source = some source };
  }

  abbrev pub waits_for_consumer : Option String → Bool
  waits_for_consumer none = false
  waits_for_consumer (some mode) = mode == env.wait_for_first_consumer

  unfoldable pub dv_annotations : Object Kind.storage_class → Map String
  dv_annotations class =
      if waits_for_consumer class.spec.volume_binding_mode
      then ("cdi.kubevirt.io/storage.bind.immediate.requested", "true") ∷ []
      else []

  -- The golden volume of an image.
  unfoldable pub image_data_volume :
      String
      → Identifier
      → Option DownloadOptions
      → Object Kind.storage_class
      → Object Kind.data_volume
  image_data_volume img_name image_id options class = record {
    meta =
        new_meta env.namespace img_name
          ((k8s_managed_by_label, kube_nfv_name) ∷ (k8s_image_id_label, image_id) ∷ [])
          (dv_annotations class);
    spec = record {
      data_source_kind = cdi_volume_import_source_kind;
      data_source_name = img_name;
      size = image_size options;
      access_modes = env.read_write_once ∷ [];
      storage_class = some (storage_class_name options);
      phase = "";
      conditions = [];
    };
  }

  abbrev pub image_key : String → ObjectKey
  image_key img_name = record { namespace = env.namespace; name = img_name }

  abbrev pub cleanup_volume_import_source : String → Exec S (Unit {0})
  cleanup_volume_import_source img_name =
      ignore (call (env.client.delete Kind.volume_import (image_key img_name)))

  abbrev pub cleanup_data_volume : String → Exec S (Unit {0})
  cleanup_data_volume img_name =
      cleanup_volume_import_source img_name
      >> ignore (call (env.client.delete Kind.data_volume (image_key img_name)))

  -- A step whose failure takes the import source down again.
  abbrev pub or_cleanup : {A : Type 0} → String → String → Exec S A → Exec S A
  or_cleanup text img_name m =
      inspect m pure λ e. cleanup_volume_import_source img_name >> raise (wrap text e)

  abbrev pub label_import_source :
      String → Object Kind.volume_import → Object Kind.data_volume → Exec S Identifier
  label_import_source img_name vis dv =
      inspect
        (call (
          env.client.patch_labels Kind.volume_import
            (set_label Kind.volume_import k8s_data_volume_id_label dv.meta.uid vis)))
        (λ _. pure vis.meta.uid)
        λ e.
          cleanup_data_volume img_name
          >> raise (wrap "update CDI VolumeImportSource label for image '%s'" e)

  -- From the created import source on, unless the download is lazy.
  unfoldable pub download_now :
      String → Option DownloadOptions → Object Kind.volume_import → Exec S Identifier
  download_now img_name options vis =
      or_cleanup "get storageClass" img_name (get_storage_class (storage_class_name options))
      >>= λ class.
          or_cleanup "create CDI DataVolume for image '%s'" img_name (
            call (
              env.client.create Kind.data_volume
                (image_data_volume img_name vis.meta.uid options class)))
          >>= label_import_source img_name vis

  unfoldable pub after_import_source :
      String → Option DownloadOptions → Object Kind.volume_import → Exec S Identifier
  after_import_source img_name options vis =
      if is_lazy options then pure vis.meta.uid else download_now img_name options vis

  unfoldable pub download_image : Option DownloadRequest → Exec S Identifier
  download_image none = raise (invalid_argument "request" "can't be nil")
  download_image (some req) =
      context "get CDI ImportSourceType from imageSource"
        (lift (import_source_type_from_image_source req.source))
      >>= λ source.
          context "create CDI VolumeImportSource" (
            call (
              env.client.create Kind.volume_import
                (volume_import_source (text_or_empty req.metadata) source)))
          >>= after_import_source (text_or_empty req.metadata) req.options
