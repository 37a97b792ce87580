-- ===== src/Tests/Image.antt =====
-- Image downloads in a cluster in memory.
use kube_vim.Common.{
  String, true, false, Option, none, some, List, [], ◌∷◌, ◌≡◌, refl, arith, eq_iff,
}
use kube_vim.Errors.{Error, not_found, wrap}
use kube_vim.Go.{ok, err, answer, refuse}
use kube_vim.K8s.Objects.{Kind, Object, new_meta}
use kube_vim.K8s.Kubevirt.{ImportSource}
use kube_vim.K8s.Memory.{Cluster, memory, memory_errors, missing_error, delete_in, empty}
use kube_vim.K8s.Memory.Lawful.{memory_lawful}
use kube_vim.K8s.Client.{ObjectKey}
use kube_vim.Image.Cdi.{
  image_key, CdiEnv, DownloadRequest, ImageSourceType, volume_import_source, download_image,
  import_source_type_from_image_source,
}
use kube_vim.Image.Cdi.Undone.{DeletesAnswered, Absent, download_image-LeavesNone}

abbrev cdi_env : CdiEnv Cluster
cdi_env = record {
  client = memory;
  list_storage_classes = λ s. (answer [], s);
  parse_quantity = λ text. answer text;
  binary_si = λ size. size;
  wait_for_first_consumer = "WaitForFirstConsumer";
  read_write_once = "ReadWriteOnce";
  namespace = "kube-nfv";
  storage_class = "default";
}

abbrev jammy : DownloadRequest
jammy = record {
  metadata = some "jammy";
  source = some (record {
    type = ImageSourceType.from_http;
    http = some (record { url = "http://images/jammy.img"; headers = ("Accept", "*") ∷ [] });
  });
  options = none;
}

abbrev jammy_source : ImportSource
jammy_source = record {
  http = some (record {
    url = "http://images/jammy.img";
    extra_headers = "Accept: *" ∷ [];
    cert_config_map = "";
    secret_ref = "";
  });
}

delete_in-refuses :
    (k : Kind) (key : ObjectKey) (s : Cluster) (e : Error)
    → (delete_in k key s).0 ≡ refuse e
    → e ≡ missing_error
unfolding delete_in
delete_in-refuses k key s e h = ground (arith, h)

memory-DeletesAnswered : (img_name : String) → DeletesAnswered cdi_env memory_lawful img_name
unfolding kube_vim.Errors.root
memory-DeletesAnswered img_name = record {
  only_missing = λ k s e h. rw (delete_in-refuses k (image_key cdi_env img_name) s e h) refl;
}

-- The cluster has no default storage class.
abbrev no_class : Error
no_class = wrap "get storageClass" (not_found "storageClass" "default")

jammy_fails : (download_image cdi_env (some jammy) empty).0 ≡ err no_class
unfolding download_image import_source_type_from_image_source
    kube_vim.Image.Cdi.convert_to_http_data_volume_source kube_vim.K8s.Memory.create_in
    kube_vim.Common.find kube_vim.K8s.Memory.objects kube_vim.Image.Cdi.after_import_source
    kube_vim.Image.Cdi.download_now kube_vim.Image.Cdi.get_storage_class
    kube_vim.Image.Cdi.storage_class_name delete_in kube_vim.K8s.Memory.with_objects
    kube_vim.K8s.Client.same_key kube_vim.K8s.Client.key_of volume_import_source new_meta
jammy_fails = refl

abbrev jammy_import : Object Kind.volume_import
jammy_import = volume_import_source cdi_env "jammy" jammy_source

abbrev made_import : Object Kind.volume_import
made_import = record jammy_import {
  meta = record jammy_import.meta { uid = "u"; resource_version = "1"; created = some 1 };
}

import_made : (memory.create Kind.volume_import jammy_import empty).0 ≡ answer made_import
unfolding kube_vim.K8s.Memory.create_in kube_vim.Common.find kube_vim.K8s.Memory.objects
import_made = refl

jammy_sourced : import_source_type_from_image_source jammy.source ≡ ok jammy_source
unfolding import_source_type_from_image_source kube_vim.Image.Cdi.convert_to_http_data_volume_source
jammy_sourced = refl

-- With a default class, the volume is created and the image gets its id.
abbrev fast_env : CdiEnv Cluster
fast_env = record cdi_env {
  list_storage_classes = λ s. (
    answer (
        record {
          meta =
              new_meta "" "fast" [] (("storageclass.kubernetes.io/is-default-class", "true") ∷ []);
          spec = record { volume_binding_mode = none };
        }
        ∷ []),
    s,
  );
}

jammy_downloads : (download_image fast_env (some jammy) empty).0 ≡ ok "u"
unfolding download_image import_source_type_from_image_source
    kube_vim.Image.Cdi.convert_to_http_data_volume_source kube_vim.K8s.Memory.create_in
    kube_vim.Common.find kube_vim.K8s.Memory.objects kube_vim.Image.Cdi.after_import_source
    kube_vim.Image.Cdi.download_now kube_vim.Image.Cdi.get_storage_class
    kube_vim.Image.Cdi.storage_class_name kube_vim.Image.Cdi.is_default_class
    kube_vim.Common.Maps.lookup new_meta kube_vim.K8s.Memory.with_objects
    kube_vim.K8s.Memory.replace_in kube_vim.K8s.Client.same_key kube_vim.K8s.Client.key_of
    kube_vim.Common.Maps.insert kube_vim.Image.Cdi.dv_annotations
    kube_vim.Image.Cdi.image_data_volume kube_vim.Image.Cdi.image_size volume_import_source
    kube_vim.K8s.Memory.without
jammy_downloads = refl

download_image-LeavesNone_example :
    Absent cdi_env memory_lawful "jammy" Kind.volume_import
      (download_image cdi_env (some jammy) empty).1
download_image-LeavesNone_example =
    download_image-LeavesNone cdi_env memory_lawful jammy empty (memory-DeletesAnswered "jammy")
      jammy_source made_import jammy_sourced import_made no_class jammy_fails
