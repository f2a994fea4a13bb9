-- ===== src/Total/Handlers.antt =====
-- When the handlers of the claim and of the restore return.
use starknet_operators.Prelude.{arith}
use starknet_operators.Prog.{Returns}
use starknet_operators.Kubernetes.Client.{Kube}
use starknet_operators.Pass.{Pass}
use starknet_operators.Controller.Pvc.{reconcile_pvc}
use starknet_operators.Controller.Restore.{reconcile_archive_restore}
use starknet_operators.Total.{IsSound}

module _ {k : Kube} (p : Pass k) where
  pub reconcile_pvc-Returns : Returns IsSound (reconcile_pvc {k = k} p).0
  unfolding reconcile_pvc
  reconcile_pvc-Returns = ground arith

  -- The handler of the restore returns for every server, and its reply has a result if its error
  -- is `ErrNextLoop`.
  pub reconcile_archive_restore-Returns : Returns IsSound (reconcile_archive_restore {k = k} p).0
  unfolding reconcile_archive_restore
  reconcile_archive_restore-Returns = ground arith
