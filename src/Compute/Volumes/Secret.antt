-- ===== src/Compute/Volumes/Secret.antt =====
-- The cloud-init secret that `createUserDataVolumeWithSecret` of
-- internal/kubevim/compute/kubevirt/manager.go writes.
use kube_vim.Common.{String, false, some, ◌==◌, ◌≡◌, refl}
use kube_vim.Errors.{ForeignErrors, wrap, unsupported}
use kube_vim.Go.{err, answer}
use kube_vim.K8s.Objects.{Kind, Object}
use kube_vim.K8s.Client.{Client, key_of}
use kube_vim.K8s.Lawful.{IsLawful}
use kube_vim.Compute.Types.{metadata_service, KubevirtApi}
use kube_vim.Compute.Volumes.{cloud_init_secret, write_secret, create_user_data_volume_with_secret}

module _ {S : Type 0} {client : Client S} {errors : ForeignErrors} (l : IsLawful client errors)
    (api : KubevirtApi) (namespace vm_name content : String) (s : S) where
  abbrev secret : Object Kind.secret
  secret = cloud_init_secret client errors api namespace vm_name content

  -- Over an API that meets the documented laws, user data that is not empty, with the method of
  -- the metadata service, fails as unsupported after its secret was created, and the secret stays.
  pub metadata_service-left :
      (made : Object Kind.secret)
      → (content == "") ≡ false
      → (client.create Kind.secret secret s).0 ≡ answer made
      → ((create_user_data_volume_with_secret client errors api namespace vm_name
            (record { content = content; method = some metadata_service })
            s).0
          ≡ err (
              wrap "userData metadata service method not supported in KubeVirt natively"
                unsupported))
        × (l.stored
              (create_user_data_volume_with_secret client errors api namespace vm_name
                (record { content = content; method = some metadata_service })
                s).1
              Kind.secret
              (key_of secret.meta)
            ≡ some made)
  unfolding create_user_data_volume_with_secret write_secret
  metadata_service-left made given stored = (
    rw (given, stored) refl,
    rw (given, stored) (l.create_stores Kind.secret secret s made stored),
  )
