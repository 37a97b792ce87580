-- ===== src/Lib.antt =====
-- Models of kube-vim's network management and of what stands under it, with their theorems.
--
-- kube-vim is an NFV virtual infrastructure manager on Kubernetes. A gRPC server hands requests to
-- managers of networks, computes, flavours and images; a manager turns a request into Kubernetes
-- objects (kube-ovn Vpc, Vlan and Subnet, multus NetworkAttachmentDefinition, KubeVirt machines and
-- instance types) and turns stored objects back into API messages. Modelled are the network, flavour
-- and compute managers, the download of an image, the handlers of the vi-vnfm server over them, the
-- normalization of the configuration, the helpers on labels and objects, and the way from an error to a
-- gRPC status.
--
-- Files, with the code that each one models:
--   Common.antt, Common/    strings, lists, tests and string maps (Go maps as lists of entries)
--   Go.antt, Go/            results with errors and panics, actions on the cluster, their laws, and
--                           predicates on what an action returns
--   Errors.antt             internal/errors/errors.go, and the chains that %w builds
--   Errors/Grpc.antt        internal/errors/{grpc,common,k8s}.go, image/errors.go and
--                           compute/kubevirt/errors.go of internal/kubevim: ToGRPCError
--   K8s.antt, K8s/          the objects, the client and the filter of its cache, which is set up in
--                           internal/k8s/cluster.go; Lawful.antt states the documented behaviour of
--                           the API and Selective.antt of DeleteAllOf, Memory.antt is a cluster in
--                           memory that meets both
--   Misc.antt, Misc/        internal/misc/k8s.go: MergeLabels, ToK8sTolerations
--   Network/Types.antt      internal/kubevim/network/{manager,utils}.go: options, messages, labels
--   Network/Manager.antt    the Manager interface of network/manager.go
--   Network/Kubeovn/        internal/kubevim/network/kubeovn: utils.go in Names.antt and Convert.antt,
--                           manager.go in Subnets.antt, Networks.antt, Create.antt and Backend.antt,
--                           mgmt.go in Mgmt.antt
--   Network/Sriov.antt      internal/kubevim/network/sriov
--   Network/Composite.antt  internal/kubevim/network/composite
--   Flavour.antt, Flavour/  internal/kubevim/flavour: manager.go in Types.antt, kubevirt/utils.go in
--                           Convert.antt, kubevirt/manager.go in Manager.antt
--   Image/Types.antt        internal/kubevim/image/manager.go: labels and the query interface
--   Image/Cdi.antt          internal/kubevim/image/cdi: the sources of utils.go, DownloadImage of manager.go
--   Compute/Types.antt      internal/kubevim/compute/manager.go: options, messages, the interface
--   Compute/Ipam.antt       internal/kubevim/compute/kubevirt/ipam.go
--   Compute/Machines.antt   internal/kubevim/compute/kubevirt/utils.go
--   Compute/                internal/kubevim/compute/kubevirt/manager.go: the volumes in Volumes.antt,
--                           the pod in Launcher.antt, get, list and delete in Manager.antt, and the
--                           allocation with its wait in Allocate.antt
--   Server.antt             internal/kubevim/server/grpc/vivnfm/server.go, and the interceptor of
--                           internal/kubevim/server/server.go
--   Config.antt             internal/config/kubevim/defaults.go: Normalize
--   Tests.antt, Tests/      the theorems at concrete inputs
--
-- State and effects. An operation is a function from the state of the cluster to a result and a
-- state; a result is a value, an error, or a panic at a nil pointer. The Kubernetes client is a
-- record of calls on a state that stays abstract. What the proofs ask of it is a record of laws: a
-- call may be refused at any time, a refused write stores nothing, and nobody else writes between
-- two calls of one handler. An answered deletion leaves nothing, or an object that is marked as
-- deleted; of kinds whose controllers set no finalizers (attachment definitions, instance types,
-- preferences, secrets, import sources) it leaves nothing. The cache holds what the selector and
-- the namespace of internal/k8s/cluster.go let through, and where a proof reads through it, it has
-- caught up. Package net, google/uuid, encoding/json and the error predicates of
-- k8s.io/apimachinery are parameters, as are the names of kubevirt.io/api, the comparison of two
-- quantities, the query filter and the clock. Contexts, logging and the texts that errors quote
-- are left out. Loops run over lists and need no fuel but for the decimal digits of an index,
-- which get one step for each unit of the number and one more, and but for the wait for a new
-- machine, which gets 61 polls: in 30 s there are 60 pauses of 500 ms, and one poll stands before
-- the first of them.
--
-- Not modelled: the lookups of the CDI image manager, the HTTP and Glance image managers, the HTTP
-- gateway and the telemetry; the generated configuration types and mocks; the set-up of processes and
-- clients. AdminServer of server/grpc/admin refuses every request, and the server registers the image
-- manager in its place. A function without a caller is left out.
pub mod Common
pub mod Errors
pub mod Go
pub mod K8s
pub mod Misc
pub mod Network
pub mod Compute
pub mod Flavour
pub mod Image
pub mod Config
pub mod Server
mod Tests
