-- ===== src/Lib.antt =====
-- The provisioner of Kubernetes volumes on subvolumes and datasets of a host, as definitions that
-- can be run and theorems about them.
--
-- The controller (pkg/controller) runs on each node. It provisions pending claims of its storage
-- classes through a driver, builds a PersistentVolume for each, deletes released volumes, and keeps
-- the quota, owner, mode and properties of bound ones as their annotations ask. A driver
-- (pkg/driver) does the work on a backend. The annotations and parameters are parsed by
-- pkg/apis/config.
--
-- Which file models which part:
--   Config, Config/Names       pkg/apis/config/types.go and annotations.go: ParseOwnership,
--                              ParseFileMode, ParseKeyValueLines, and the names
--   Template                   pkg/controller/templater.go: ParseStatefulSetPVC,
--                              ExtractTemplateContext, EvaluatePathTemplate
--   Builder                    pkg/controller/pv_builder.go: BuildPersistentVolume
--   Controller                 pkg/controller/controller.go: NewController, RegisterDriver, emitEvent,
--                              the record Controller, and what the handlers share (`exclusive`)
--   Controller/Guard           inProgress: the two sections of a handler that hold the mutex, and in
--                              Guard/Workers any number of workers interleaved at them
--   Controller/Queue           onPVCAdd, onPVAdd, onStorageClassAdd, worker, processNextWorkItem
--   Controller/Run             Run: its start, its workers and its end
--   Controller/Lookup          getPVC, getPV, getStorageClass
--   Controller/Target          isNodeTargeted, isPVOnThisNode
--   Controller/Quota           resolveQuota
--   Controller/Secrets         loadSecretKey
--   Controller/Claim           reconcileClaim; Claim/Settings has what it reads of its arguments
--   Controller/Delete          reconcileVolumeDelete
--   Controller/State           reconcileVolumeState
--   Controller/Process         processPVC, processPV, reconcile, reconcileClaims, reconcileVolumes
--   Driver                     pkg/driver/driver.go: the options and the interfaces Driver, Reconciler
--   OwnerMode                  pkg/driver/owner_mode.go
--   Zfs, Zfs/Quota,            pkg/driver/zfs/zfs.go: runZfsSet and runZfsInherit; ReconcileQuota;
--   Zfs/Properties,            getProps and ReconcileProperties; Exists, Create, Delete and
--   Zfs/Volumes                ReconcileOwnerMode
--   Btrfs                      pkg/driver/btrfs/btrfs.go
--   Dir                        pkg/driver/dir/dir.go
--   Mock                       pkg/driver/mock/mock.go, which keeps its fields in the world
--   Main                       cmd/subvol-provisioner/main.go: the default flags, buildKubeConfig,
--                              getEnvOrDefault, and run up to the start of the workers; Main/Entry
--                              has main with its commands and its exit code
--   Kube, Host                 what the program calls of Kubernetes and of the operating system,
--                              with the osExecutor that both command drivers have
-- Base, Text, Strconv, Dict, Paths, Errors and Exec are the shared types: texts as lists of code
-- points, what the program uses of strconv and path, maps as association lists, and functions
-- that change a state and may return an error. Exec/Along shows what a function does to the state,
-- call by call; Exec/Agree that two functions return equal values. Dict/Order is about maps in another
-- order. Tests has the data and the runs.
-- The child modules of a component hold its proofs by their subject. Claim/Success, Claim/Existing,
-- Claim/Order and Claim/Warnings are about a claim that can be provisioned, one that has its
-- volume, one whose driver fails, and the events; State/Policy, State/Laws, State/Success and
-- State/Failures about when changes are applied, plans, and steps that succeed or fail;
-- State/Convergence takes the zfs driver as the reconciler. Process/Guards and Process/Keys are
-- about inProgress, Process/Isolation and Process/Ownership about agents on several nodes,
-- Process/Release about a volume that was built and is released. Zfs/Properties/Convergence and
-- Zfs/Quota/Convergence are about a reconcile that follows another.
--
-- The state. A handler of the controller is a function of `System W`: the world outside `W`, the
-- events that were recorded, and the table inProgress. `W` is a parameter, as are all calls of the
-- world: the records Client and Listers (the API server and the caches), Driver, Executor (commands)
-- and Host (the file system) hold functions that change a `W` and may fail. External holds the pure
-- functions of text/template and of quantities. An error keeps what was changed before it.
-- A handler is one step there: what other workers do meanwhile is a change of the world between
-- calls. Two step relations show the workers beside each other. In Controller/Guard/Workers a worker
-- enters and leaves inProgress, as the code does with the mutex held; Process/Interleaving shows
-- between which of its steps a reconcile of Controller/Process runs the body of a handler. In
-- Controller/Run a worker takes a key of the queue, is done with it, or ends; events and the
-- cancelled context come between.
-- The queue (WorkQueue) and the factory of informers (Informers) are records of calls, over an unknown
-- state of the queue; Queue/Retries and Queue/Shutdown state what their theorems ask of a queue.
--
-- Loops are structural recursion, but for `worker`, which has fuel: once the queue is shut down, one
-- round for each key that is left and one more are enough (Queue/Shutdown). A 64-bit integer is an
-- unbounded ℤ with `IsInt64` where the bound matters; the conversion to uint32 and the bound 2^32 of
-- a file mode are written out. A duration is a number of seconds. The order in which the runtime
-- ranges over a map is a parameter of the zfs driver.
-- The message of an event or an error is its format string with its arguments.
--
-- The text of zfs get is a function of the world in the modules on convergence; what they ask of
-- zfs is a record (Shows, HasQuota) or a named hypothesis (SetsAsWritten, RefusesInherit).
-- SetsAsWritten leaves out values that zfs prints in another form.
--
-- Not modelled: the parser of the command line, which cobra is, and signals; log lines, which are
-- output; the process that osExecutor starts.
pub mod Base
pub mod Text
pub mod Strconv
pub mod Dict
pub mod Paths
pub mod Errors
pub mod Exec
pub mod Config
pub mod Kube
pub mod Driver
pub mod Host
pub mod OwnerMode
pub mod Template
pub mod Builder
pub mod Controller
pub mod Zfs
pub mod Dir
pub mod Btrfs
pub mod Mock
pub mod Main
pub mod Tests
