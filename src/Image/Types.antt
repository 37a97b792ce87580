-- ===== src/Image/Types.antt =====
-- internal/kubevim/image/manager.go: labels, source types and the interface for queries.
use kube_vim.Common.{String, ℕ, Option, List, Map, ◌==◌, if◌then◌else◌}
use kube_vim.Errors.{wrap, unsupported}
use kube_vim.Go.{Exec, Result, ok, err}
use kube_vim.Network.Types.{Identifier}

abbrev pub k8s_image_id_label : String
k8s_image_id_label = "image.kubevim.kubenfv.io/id"

abbrev pub k8s_source_label : String
k8s_source_label = "image.kubevim.kubenfv.io/source"

abbrev pub k8s_is_upload_label : String
k8s_is_upload_label = "image.kubevim.kubenfv.io/uploaded"

abbrev pub k8s_is_image_bound_to_pvc : String
k8s_is_image_bound_to_pvc = "image.kubevim.kubenfv.io/is-pvc-bound"

-- vivnfm.SoftwareImageInformation; the times are `none` where they are the zero time
pub record SoftwareImage : Type 0 where
  pub software_image_id : Option Identifier
  pub name : String
  pub size : Option String
  pub status : String
  pub created_at : Option ℕ
  pub updated_at : Option ℕ
  pub metadata : Map String

pub record NfvImageManager (S : Type 0) : Type 0 where
  pub get_image : Option Identifier → Exec S SoftwareImage
  pub list_images : Exec S (List SoftwareImage)

pub data SourceType : Type 0 where
  http https : SourceType

abbrev pub source_name : SourceType → String
source_name SourceType.http = "http"
source_name SourceType.https = "https"

unfoldable pub source_type_from_string : String → Result SourceType
source_type_from_string text =
    if text == "https"
    then ok SourceType.https
    else if text == "http"
    then ok SourceType.http
    else err (wrap "unknown source type '%s'" unsupported)
