-- ===== src/Controller/Reconcile.antt =====
-- internal/controller/starknetrpc_controller.go: one run of the reconciler for a request.
pub mod Keeps
pub mod Holds
use starknet_operators.Prelude.{Option, none, some, if◌then◌else◌}
use starknet_operators.Prog.{Outcome, ret, panic, pure, lift, ◌>>=◌, ◌>>◌}
use starknet_operators.Kubernetes.Meta.{NamespacedName}
use starknet_operators.Kubernetes.Client.{Kube, Answer, ok, err}
use starknet_operators.V1alpha1.{StarknetRpc}
use starknet_operators.Pass.{
  M, Error, next_loop, api, Result, no_result, after_seconds, Reply, current, modify, get_rpc,
}
use starknet_operators.Condition.Initialize.{initialize}
use starknet_operators.Controller.Pvc.{reconcile_pvc}
use starknet_operators.Controller.Restore.{restore_done, reconcile_archive_restore}
use starknet_operators.Controller.Pod.{reconcile_pod}
use starknet_operators.Controller.PodMonitor.{reconcile_pod_monitor}

-- The `(ctrl.Result, error)` that the reconciler returns.
pub record Verdict (F : Type 0) : Type 0 where
  pub result : Result
  pub error : Option (Error F)

module _ {F : Type 0} where
  abbrev pub finished : Result → Verdict F
  finished r = record { result = r; error = none }

  abbrev pub broken : Error F → Verdict F
  broken e = record { result = no_result; error = some e }

  -- `return *result, nil`, which panics on a nil result.
  abbrev deref : Option Result → Outcome (Verdict F)
  deref none = panic
  deref (some r) = ret (finished r)

  -- `if err == errs.ErrNextLoop { return *result, nil }; return ctrl.Result{}, err`
  abbrev stop : Option Result → Error F → Outcome (Verdict F)
  stop r next_loop = deref r
  stop r e = ret (broken e)

  -- The same for the PodMonitor, whose other errors are only logged.
  abbrev stop_monitor : Reply F → Outcome (Verdict F)
  stop_monitor reply = elim reply.error [
    | some next_loop ↦ deref reply.result
    | _ ↦ ret (finished no_result)
  ]

module _ {k : Kube} where
  -- The rest of the run, if the handler returned no error.
  abbrev pub proceed : M k (Verdict k.Fault) → Reply k.Fault → M k (Verdict k.Fault)
  proceed rest reply = elim reply.error [ none ↦ rest | some e ↦ lift (stop reply.result e) ]

  unfoldable pub monitor_stage : M k (Verdict k.Fault)
  unfolding reconcile_pod_monitor
  monitor_stage = do reply ← reconcile_pod_monitor; lift (stop_monitor reply)

  unfoldable pub pod_stage : M k (Verdict k.Fault)
  unfolding reconcile_pod monitor_stage
  pod_stage = do reply ← reconcile_pod; proceed monitor_stage reply

  -- Wait if the restore is not made yet.
  unfoldable pub gate_stage : M k (Verdict k.Fault)
  unfolding pod_stage
  gate_stage = do
    cluster ← current
    if restore_done k cluster then pod_stage else pure (finished (after_seconds 30))

  unfoldable pub restore_stage : M k (Verdict k.Fault)
  unfolding reconcile_archive_restore gate_stage
  restore_stage = do reply ← reconcile_archive_restore; proceed gate_stage reply

  unfoldable pub pvc_stage : M k (Verdict k.Fault)
  unfolding reconcile_pvc restore_stage
  pvc_stage = do reply ← reconcile_pvc; proceed restore_stage reply

  abbrev pub after_initialize : Option (Error k.Fault) → M k (Verdict k.Fault)
  after_initialize (some e) = pure (broken e)
  after_initialize none = pvc_stage

  unfoldable pub after_fetch : Answer k.Fault StarknetRpc → M k (Verdict k.Fault)
  unfolding initialize pvc_stage
  after_fetch (err f) =
      if k.is_not_found f then pure (finished no_result) else pure (broken (api f))
  after_fetch (ok rpc) = do modify (λ _. rpc); error ← initialize; after_initialize error

  unfoldable pub reconcile : NamespacedName → M k (Verdict k.Fault)
  unfolding after_fetch get_rpc
  reconcile req = do answer ← get_rpc req; after_fetch answer
