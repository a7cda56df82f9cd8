-- ===== src/Lib.antt =====
-- The core of Singularity-CRI, which runs Kubernetes pods and containers through the OCI engine of
-- the `singularity` command.
--
-- The parts and their files; a path is one from the repository's root.
--   TruncIndex is pkg/truncindex/truncindex.go: items under string keys, found by any prefix that
--     no other key shares. `add`, `delete`, `get` and `iterate` are its methods. Patricia states
--     what the package github.com/tchap/go-patricia documents, as the record of operations `Trie`
--     with the laws `IsLawful`, and has one trie that meets them.
--   Index.Containers, Index.Pods and Index.Images are pkg/index/container.go, pod.go and image.go
--     on top of TruncIndex. An image is a number that points into `infos`, since the image that is
--     added and the one that is indexed may be two images with one ID.
--   Slice is pkg/slice/string.go. Go leaves the order of a range over a map open: it is the
--     argument `order`.
--   Image.Reference, Image.Info and Image.Pull are pkg/image/reference.go and pkg/image/image.go:
--     references to images and what they are normalized to, an image with its users, and the pull
--     of an image to the disk. Image.Reference.Json is the JSON text of a reference.
--   Runtime.State is the states of pkg/singularity/runtime/sync.go, Runtime.Observe its goroutine
--     that reads a sync socket, Runtime.Client the commands of client_oci.go and `run` of client.go,
--     and Runtime.BuildConfig the rest of client.go.
--   Kube is pkg/kube: Kube.Types (the structs), Kube.Members (the slice of a pod's containers, with
--     the array behind it), Kube.Container and Kube.Container.Life (container.go and
--     container_runtime.go), Kube.Pod, Kube.Pod.Stages and Kube.Pod.Life (pod.go, pod_runtime.go and
--     pod_files.go), Kube.Pod.Namespaces (pod.go and pkg/namespace/namespace.go), Kube.Files
--     (container_files.go and helper.go), Kube.Validate and Kube.Capabilities
--     (container_validate.go and pod_validate.go), Kube.Filter (the filters of both).
--     Kube.Container.Use is what is done to a container that runs (container_stat.go, and ExecSync,
--     Exec and ReopenLogFile of container.go), Kube.Container.Envs is NewContainer with the array that
--     the environments of an image's containers share. Kube.Oci and its children are the translations
--     of container_oci.go and pod_oci.go.
--   Network is pkg/network/network.go and pkg/kube/pod_network.go, Fs is pkg/fs/usage.go,
--     Fs.Watcher is pkg/fs/watcher.go with its goroutine, Io is pkg/io/reader.go, Rand is
--     pkg/rand/rand.go, and Config is cmd/server/config.go.
--   Server.Registry is the image service of pkg/server/image/image.go with its backup file, and
--     Server.Registry.Restored what is read back from it. Server.Runtime is the runtime service of
--     pkg/server/runtime: CreateContainer is Server.Runtime.Create, the other handlers of containers,
--     those of pods and the rest are Server.Runtime.Containers, Server.Runtime.Pods,
--     Server.Runtime.Service and, for what a container uses, Server.Runtime.Usage.
--     Server.Runtime.Streaming is streaming.go, with what Attach waits for in
--     Server.Runtime.Streaming.Copies and Answers, and Server.Runtime.Start is NewSingularityRuntime.
--     Server.Device is pkg/server/device: Server.Device.Register is register.go, and
--     Server.Device.Monitor the goroutine of nvml.go with its channel, ListAndWatch and Shutdown.
--   Command is cmd/server/main.go: Command.Service is startCRI, Command.Plugin startDevicePlugin,
--     Command.Log the log interceptor and the log level, and Command.Daemon is main: a step
--     relation on the daemon, the goroutines of its two servers and the file watcher, with what holds
--     at its ends in Command.Daemon.Exits and Command.Daemon.Ends.
--   Base has what the modules share: texts as lists of bytes, association lists, Go's errors and
--     panics as `Result`, and `Exec S A`, a method that changes an `S` and returns an `A`, an error
--     or a panic; what was written before an error stays written.
--
-- The parts interact as in the source. A method of a container reads and writes a `Scene`: the
-- container, its pod, its image and the host. Create borrows the image (Image.Info) and joins the
-- pod (Kube.Members); Remove gives both back. A method of a pod works on a `Yard`, in which the
-- containers and their images lie at addresses, and ranges over its slice of containers while the
-- containers' own Remove shifts that slice in place.
--
-- A handler reads and writes a `Node`: the indexes, the pods and containers that they point to, the
-- network manager and the host; it finds an ID and runs the method of the pod or the container.
--
-- Create of a container and Run of a pod take the translation of their configuration as an argument,
-- a step on the host; `specify_container` and `specify_pod` of Kube.Oci.Translate are those of the
-- code, and the theorems hold for each such step.
--
-- What the program calls outside the repository is the record Runtime.Host.Host: the commands, the
-- sync sockets, files, mounts, and the libraries that read and fetch images. It has no laws, so
-- that the theorems hold for every host; a step of another process is an answer of the host.
--
-- The loops are recursions over lists, over the number of rounds of a range or of the attempts of
-- RegisterInKubelet, and over the index of the loop over capabilities. The printing of a number alone
-- has fuel, 64 digits, which is enough for 64 bits in every base. Numbers are natural numbers; where
-- the source adds or converts, the bits are kept: an exit code is taken modulo 2 ^ 32, the sums of
-- fetchStat modulo 2 ^ 64, a user ID modulo 2 ^ 32.
--
-- The record Translator has the generator of OCI specifications, Cni the CNI libraries, Shell the
-- further commands on a container, Backup the registry's file with its JSON text, Gpus NVML, Notify
-- fsnotify, Sockets the sockets of the device plugin, Terminal the streams of streaming.go, and Json
-- encoding/json on a reference. Where a theorem needs a law of one of them, it is a hypothesis with a
-- name, such as KeepsPropagation.
--
-- What runs at the same time is a step relation, where a property depends on it: the goroutines of a
-- sync socket, of the watcher, of the GPU monitor, of Attach, and of main. A send over a channel without
-- a buffer and its receipt are one step.
--
-- Not modelled: what glog prints, the text of most error messages, and locks, since each method holds
-- its lock from its first read to its last write, so that calls of one index do not interleave within
-- a method. The bytes of a stream, the sizes of a terminal during Exec, the command line's flags, and
-- the handlers' registration in the gRPC servers are left out. The constants of
-- pkg/singularity/singularity.go stand in the definitions that use them.
pub mod Base
pub mod Slice
pub mod Patricia
pub mod TruncIndex
pub mod Runtime
pub mod Image
pub mod Kube
pub mod Index
pub mod Fs
pub mod Network
pub mod Rand
pub mod Io
pub mod Config
pub mod Command
pub mod Server
pub mod Tests
