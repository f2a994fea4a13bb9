-- ===== src/Policy/Restore.antt =====
-- The calls of the restore's handler.
use starknet_operators.Prelude.{arith, ◌≡◌, true}
use starknet_operators.Kubernetes.Client.{Kube}
use starknet_operators.Pass.{Pass}
use starknet_operators.Controller.Restore.{
  restore_done, clean_up, skip, start, reconcile_archive_restore,
}
use starknet_operators.Policy.{Obeys, IsRestoring}

module _ {k : Kube} where
  clean_up-Obeys : (p : Pass k) → Obeys p → restore_done k p.rpc ≡ true → Obeys (clean_up p.rpc p).1
  unfolding clean_up
  clean_up-Obeys p h d = ground arith

  skip-Obeys : (p : Pass k) → Obeys p → Obeys (skip p).1
  unfolding skip
  skip-Obeys p h = ground arith

  start-Obeys : (p : Pass k) → Obeys p → IsRestoring k p.rpc → Obeys (start p.rpc p).1
  unfolding start
  start-Obeys p h r = ground arith

  pub reconcile_archive_restore-Obeys :
      (p : Pass k) → Obeys p → Obeys (reconcile_archive_restore p).1
  unfolding reconcile_archive_restore
  reconcile_archive_restore-Obeys p h = ground arith
