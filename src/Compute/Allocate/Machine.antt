-- ===== src/Compute/Allocate/Machine.antt =====
-- The machine that `AllocateComputeResource` of internal/kubevim/compute/kubevirt/manager.go sends to
-- the apiserver.
use kube_vim.Common.{String, ℕ, ◌+◌, some, List, [], ◌∷◌, ◌++◌, length, ◌≡◌}
use kube_vim.Go.{Exec, call, context}
use kube_vim.Go.Yields.{Yields}
use kube_vim.K8s.Objects.{Kind, Object}
use kube_vim.K8s.Kubevirt.{Volume, Disk, DataVolumeTemplate, VmSpec}
use kube_vim.K8s.Lawful.{IsLawful}
use kube_vim.Compute.Types.{AllocateComputeRequest}
use kube_vim.Compute.Ipam.{Interfaces, resolve_interfaces}
use kube_vim.Compute.Ipam.Paired.{Paired, network_names, interface_names}
use kube_vim.Compute.Volumes.{init_volumes_disks_from_data_volumes}
use kube_vim.Compute.Allocate.{AllocateEnv, Plan, virtual_machine, resolver}

abbrev pub volume_names : List Volume → List String
volume_names [] = []
volume_names (x ∷ xs) = x.name ∷ volume_names xs

abbrev pub disk_names : List Disk → List String
disk_names [] = []
disk_names (x ∷ xs) = x.name ∷ disk_names xs

-- A disk for each volume, and a volume for each template before all others.
pub record HasDisks (dvs : List DataVolumeTemplate) (volumes : List Volume) (disks : List Disk)
    : Type 0 where
  pub names : volume_names volumes ≡ disk_names disks
  pub others : List Volume
  pub backed : volumes ≡ (init_volumes_disks_from_data_volumes dvs).0 ++ others

-- The volume and its disk have one name.
abbrev IsNamed : Volume × Disk → Type 0
IsNamed added = added.0.name ≡ added.1.name

module _ {S : Type 0} (a : AllocateEnv S) where
  abbrev HasPairedDisks : List DataVolumeTemplate → List Volume × List Disk → Type 0
  HasPairedDisks dvs volumes = HasDisks dvs volumes.0 volumes.1

  -- A machine whose disks, volumes, networks and interfaces fit together.
  pub record WellFormed (dvs : List DataVolumeTemplate) (requested : ℕ) (spec : VmSpec)
      : Type 0 where
    pub templates : spec.data_volume_templates ≡ dvs
    pub disks : HasDisks dvs spec.template.volumes spec.template.disks
    pub networks : network_names spec.template.networks ≡ interface_names spec.template.interfaces
    pub count : length spec.template.networks ≡ 1 + requested

  -- The machine is stored under its name, well-formed.
  pub record CreatedVm (l : IsLawful a.env.client a.env.errors) (req : AllocateComputeRequest)
      (plan : Plan) (vm : Object Kind.vm) (t : S) : Type 0 where
    pub stored :
        l.stored t Kind.vm (record { namespace = a.env.namespace; name = plan.vm_name }) ≡ some vm
    pub well_formed : WellFormed plan.data_volumes (length req.interface_data) vm.spec

  module _ (l : IsLawful a.env.client a.env.errors) (req : AllocateComputeRequest) (plan : Plan)
      (volumes : List Volume × List Disk) where
    abbrev sent : Interfaces → Object Kind.vm
    sent interfaces = virtual_machine a plan volumes interfaces

    abbrev write_vm : Interfaces → Exec S (Object Kind.vm)
    write_vm interfaces =
        context "create kubevirt VirtualMachine '%s'"
          (call (a.env.client.create Kind.vm (sent interfaces)))

    abbrev resolve : Exec S Interfaces
    resolve =
        context "initialize kubevirt networks"
          (resolve_interfaces (resolver a) req.interface_data req.interface_ipam)
