-- ===== src/Lib.antt =====
-- The operator of StarknetRPC resources: a Kubernetes controller that gives each resource a storage
-- claim, restores an archive of the chain into it by a job over a scratch claim, then runs the node
-- in a pod and lets Prometheus monitor it. This library models the
-- reconciler of the operator, and the process that starts it.
--
-- The parts and how they interact. `Reconcile` fetches the resource and hands its copy, by pointer,
-- to four handlers in turn; each one answers with a result and an error, and an error ends the run:
-- `ErrNextLoop` with the result, any other one as the error of the run. The handlers call the API
-- server through one client, change the conditions of the resource through `SetPhases`, and share
-- `CreateOrReconcile`.
--
--   file                         code
--   V1alpha1                     api/v1alpha1/starknetrpc_types.go
--   Reconciler, Reconciler/Loop  internal/utils/reconciler/ensure.go, reconciler.go
--   Condition                    internal/utils/condition/condition.go
--   Condition/Initialize         internal/utils/condition/starknetrpc/conditions.go
--   Condition/Available          internal/utils/condition/starknetrpc/ready.go
--   Condition/Restore            internal/utils/condition/starknetrpc/restore.go
--   Proxy                        internal/utils/proxy/proxy.go
--   Controller/Reconcile         internal/controller/starknetrpc_controller.go
--   Controller/Pvc               internal/controller/starknetrpc_pvc.go
--   Controller/Restore           internal/controller/starknetrpc_archive_restore.go
--   Controller/Pod               internal/controller/starknetrpc_pod.go
--   Controller/PodMonitor        internal/controller/starknetrpc_podmonitor.go
--   Manager/Flags                cmd/main.go: the flags
--   Manager/Main                 cmd/main.go: the rest of main, down to the start of the manager
--   Manager/Scheme               cmd/main.go: init; api/v1alpha1/groupversion_info.go; SetupWithManager
--                                of internal/controller/starknetrpc_controller.go
--   DeepCopy/*                   api/v1alpha1/zz_generated.deepcopy.go
--   Controller/Manifest/*        the names and the wanted objects of the four files above
--
-- Functions keep their names, in lower case: `ReconcilePvc` is `reconcile_pvc`. A function with early
-- returns is cut where it waits for an answer: `after_create` is what follows the answer to `Create`.
-- `reconcile` is cut into `pvc_stage`, `restore_stage`, `gate_stage`, `pod_stage` and
-- `monitor_stage`; each one runs to the end of the run.
--
-- The other modules hold no code of the operator. Kubernetes has the fields of the API objects
-- that the program reads or writes, and the client. Prog is Go code that changes a state and may
-- panic. Pass is the state of a run. Policy, Total and Phases state what a run does: the calls
-- that are permitted, that a run returns, and how the phases of a resource follow one another.
-- History states what several runs do, one after the other, with other writers in between; Life,
-- Opening, Judging, Waiting and Arrives follow a resource through seven phases, from nothing to
-- its pod, and Course lets runs and others take turns in any order. Of Manager, Host is what the
-- process uses of its libraries, Slices are Go's slices, Process is code that may end the process
-- by an exit or by a panic, and FlagSet is Go's package flag. Of DeepCopy, Heap is Go's memory,
-- Layout says how values lie in it, and Deep and Separate prove what the copies are. Tests has a
-- small server, a small host, and the theorems at work on them.
--
-- How it is modelled.
--   - The client library, the API server and the two functions of apimachinery on conditions are a
--     parameter, `Kube`: every answer is the choice of the server, so that a theorem for every `Kube`
--     holds with conflicts, failures and other writers between any two calls. Two hypotheses name
--     what the code relies on: `HasConditions`, that `SetStatusCondition` sets the condition of its
--     type and no other, and `KeepsStatus`, that a status update that is accepted comes back with
--     the conditions and the specification that were sent. A theorem that says "the conditions and
--     the status behave as documented" has both as hypotheses.
--   - controller-runtime, client-go and the Go runtime are a second parameter, `Host`, for the process:
--     its scheme, its manager, the certificate watchers, the flags that libraries register, and the
--     capacity of a slice that grows. The steps of the process are kept in a list. The TLS options of
--     the webhook server and of the metrics server start from one slice, so slices are modelled with
--     the array that they share.
--   - A run is a function from a state to an outcome and a state: the server's state, the program's
--     copy of the resource, and all calls so far, each with the copy as it stood at the call. A panic
--     (a nil pointer, an index out of range) is an outcome; an `error` is a value.
--   - A nil pointer is `none`. A nil slice of conditions and an empty one are one list. Quantities
--     are texts, which the program only copies. The counters of the server (restarts, succeeded,
--     failed) are int32 there and natural numbers here: the server never makes them negative. A port
--     number is a natural number for the same reason, and so are the user and group ids that the
--     program sets and the count of remaining items of a list, which are int64 there. The seconds of
--     a toleration, which may be negative, are an integer.
--   - Of an endpoint of a PodMonitor the program uses the port name and the path; `others` stands for
--     the fields that it neither sets nor reads.
--   - A Go map is an association list with each key once; `maps.Copy` writes an entry in its place.
--   - Every loop is structural recursion. Only the digits of a port number recurse on fuel: a number
--     n has fewer than n + 1 digits, which is the fuel.
--   - Logging is not modelled; it changes nothing that the program reads.
--   - The resource is a value everywhere but in DeepCopy: there it lies in a memory, which is the list of
--     its cells. A pointer is the address of a cell, a slice is a header over the cell of an array (its
--     capacity is not read), a map is a cell. `Shows` says which value a struct stands for, and which
--     addresses it may reach. A cell is made with its final content, where Go makes it empty and
--     fills it. The structs of the libraries, and their deep copies, are a third parameter, `Library`;
--     that those copies are deep is the hypothesis `IsDeepLibrary`.
--
-- Not modelled: the set-up of the logger, the shell script of the restore image, which is not Go, the
-- charts and the tests.
pub mod Prelude
pub mod Prog
pub mod Kubernetes
pub mod V1alpha1
pub mod DeepCopy
pub mod Pass
pub mod Condition
pub mod Reconciler
pub mod Proxy
pub mod Controller
pub mod Policy
pub mod Total
pub mod Phases
pub mod History
pub mod Manager
pub mod Tests
