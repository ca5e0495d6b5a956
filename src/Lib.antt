-- ===== src/Lib.antt =====
-- c-ray shows what the containers of a host do: their processes, mounts, cgroups, images and pods, as
-- a terminal program and on the command line. This library models the parts that compute: the readers
-- of /proc and of the cgroup file system, the sampler that turns two readings into rates, the paths and
-- command lines of the runtimes, what the views merge, group and select, the launcher and the
-- navigation.
--
-- The parts, with the files of the repository that they model:
--
--   Sysinfo (pkg/sysinfo). Stat, Status, CGroupFile, Fds, Listening and NetDev are the parsers of
--   procfs.go, one file of /proc/[pid] each, and Proc is the ProcReader that calls them (ReadProcess,
--   ReadCmdlineRaw, ListPIDs). Mounts is mount.go, CGroup is cgroup.go, Types is types.go. Sampler is
--   sampler.go: its state is the record Sampler, which CalculateProcessRates and CalculateNetworkRates
--   (calculate_process_rates, calculate_network_rates) take and return. The processes that ReadProcess
--   makes are those whose rates the sampler fills in. Host, Tree and Collector are process.go: the host
--   PIDs of a container's processes (resolveHostPIDs), the ProcessTree, and the collector that puts the
--   readers, the tree and the sampler together (CollectContainerProcesses, CollectProcessTop).
--   Runtime (pkg/runtime). CGroupPath is ResolveCGroupPath and NormalizeCGroupPath of cgroup.go
--   with InferCGroupDriver of convert.go; it falls back on the path that Sysinfo.CGroupFile reads.
--   Resources is ExtractSpecResources of cgroup.go, and Spec has what is read of an OCI spec.
--   Conmon is stdio.go: ParseConmonCmdline and ScanUserdataDir. Cri is pkg/runtime/cri/mounts.go
--   with mounts.go: Cri.Destination compares destinations, Cri.Rows builds the rows that are shown,
--   and Cri.Merge is MergeMountSources, whose used flags stand beside the mounts. The live mounts
--   that it takes are those that Sysinfo.Mounts reads. Convert is convert.go: the environment, the
--   platform, the root path, the status and the namespaces of an OCI spec. Docker is
--   pkg/runtime/docker: Docker.Mounts is mounts.go, which merges as Cri.Merge does and shares its state,
--   and Docker.Overlay finds the directories of the layers of a classic image, as image.go does.
--   Crio.Linking is linkManifestConfigs of pkg/runtime/crio/introspection.go.
--   Views (pkg/ui/views and pkg/ui/components). Merged is mergeLayerDir of image_detail.go, which
--   shows one directory of all layers of an image, with the layers that the backends report: its
--   state is MergeMaps, the maps visMap and delMap. Nodes is tree_helpers.go: ExpandAllNodes and
--   HandleTreeInput. ContainerTree is container_list.go: the record ContainerTree holds the children
--   of the root, collapsedPods and the entries, refresh is what Refresh does with them, and
--   Selection the node that is current afterwards. ImageList is image_list.go: renderFlat with the
--   maps between rows and entries, and the selection. MountGroups is splitMounts of mounts_view.go
--   with the fields that it shows; its mounts are the rows of Cri.Merge and Docker.Mounts.
--   AutoRefresh is the periodic refresh of top_view.go: the record Refresher has the fields with the
--   goroutines, and RefreshStep what they and the two methods can do, one at a time. Top is the rest
--   of top_view.go: the record TopView with the processes that Refresh stores and the field that
--   they are sorted by.
--   Detect (cmd/cray/runtime_detect.go). detectRuntimeWith, over probes that are parameters.
--   Launcher (cmd/cray-launcher/main.go). shellQuote, joinShellArgs and passEnv.
--   Navigation (pkg/ui/navigation.go). The Navigator, with the page and the focus that it sets.
--
-- What they stand on: Prelude has the library names and the lemmas on lists, Text the functions of the
-- packages strings, strconv and path/filepath that the program calls, Result the errors and panics of
-- Go, Files the file system, Float the floating-point numbers, Sorting the sorting with a less
-- function, and Map the Go maps as association lists.
--
-- How it is modelled. A string is the list of its code points, so texts are valid UTF-8. A reader
-- that returns (value, error) is an Option, or a Result where it can panic or the error matters. A
-- Go int is an integer that parse_int keeps within 64 bits, a uint64 a natural number, with `% 2 ^
-- 64` where the source multiplies or subtracts. Loops are structural recursion, so there is no fuel.
-- The order in which Go visits a map is a parameter; sort.Slice and sort.SliceStable are an
-- insertion sort, which is stable and gives the one result there is where no two keys are equal. The
-- file system is a parameter of each reader, read once per file; lines are shorter than the limit of
-- bufio.Scanner, so Scan reports no error. A time is a reading of the monotonic clock. Floats are a
-- record of operations, and what a theorem needs of them is a hypothesis of it.
--
-- Not modelled: the clients of containerd, CRI-O, docker and the CRI, which are network calls; the
-- probes of the sockets; the drawing of the views with tview and their status bars; the sizes that
-- DirDiskUsage counts; the running of docker by the launcher; the readers that only call
-- os.Readlink; the statistics that PopulateCGroupStatsFromReader copies and the copies of processes,
-- statistics and mounts of pkg/runtime/convert.go; the printing of cmd/cray.
pub mod Prelude
pub mod Text
pub mod Result
pub mod Files
pub mod Float
pub mod Map
pub mod Sorting
pub mod Sysinfo
pub mod Runtime
pub mod Launcher
pub mod Detect
pub mod Navigation
pub mod Views
mod Tests
