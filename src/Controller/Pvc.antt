-- ===== src/Controller/Pvc.antt =====
-- internal/controller/starknetrpc_pvc.go: the claim of the node's storage.
use starknet_operators.Prelude.{Bool, [], ◌∷◌, ◌==◌, if◌then◌else◌}
use starknet_operators.Prog.{pure, ◌>>=◌}
use starknet_operators.Kubernetes.Core.{Pvc}
use starknet_operators.Kubernetes.Client.{Kube, Answer, ok, err}
use starknet_operators.Pass.{
  M, api, Reply, done, failed_with, again, or_fail, after_seconds, current, create, get, pvc_stored,
}
use starknet_operators.Condition.{set_phases}
use starknet_operators.Condition.Restore
use starknet_operators.Controller.Manifest.Names.{get_storage_pvc_name}
use starknet_operators.Controller.Manifest.Storage.{get_wanted_pvc}

unfoldable pub is_ready : Pvc → Bool
is_ready pvc = pvc.phase == "Bound"

after_get : {F : Type 0} → Answer F Pvc → Reply F
unfolding is_ready
after_get (err f) = failed_with (api f)
after_get (ok pvc) = if is_ready pvc then done else again (after_seconds 1)

module _ {k : Kube} where
  after_create : Answer k.Fault Pvc → M k (Reply k.Fault)
  unfolding set_phases
  after_create (ok _) = do
    error ← set_phases (Restore.apply k Restore.pending ∷ [])
    pure (or_fail error done)
  after_create (err f) = if k.is_already_exists f then pure done else pure (failed_with (api f))

  unfoldable pub reconcile_pvc : M k (Reply k.Fault)
  unfolding after_create create
  reconcile_pvc = do
    cluster ← current
    answer ← create k.pvcs (get_wanted_pvc cluster)
    after_create answer

  unfoldable pub ensure_pvc_ready : M k (Reply k.Fault)
  unfolding after_get get
  ensure_pvc_ready = do
    cluster ← current
    answer ← get k.pvcs (get_storage_pvc_name cluster)
    pure (after_get answer)
