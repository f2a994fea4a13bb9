-- ===== src/History/Arrives.antt =====
-- A run in each phase of a resource's life, up to its pod.
use starknet_operators.Prelude.{
  inl, inr, arith, [], ◌∷◌, ◌≡◌, refl, sym, Bool-cases, ap, ◌∙◌, true, false, some, List,
}
use mathlib.Core.Path.{subst}
use starknet_operators.Prog.{Outcome, ret, panic, continue, Returns, ◌>>=◌}
use starknet_operators.Kubernetes.Meta.{NamespacedName, Condition}
use starknet_operators.Kubernetes.Client.{Kube, Answer, ok, err, HasConditions, KeepsStatus}
use starknet_operators.V1alpha1.{StarknetRpc}
use starknet_operators.Pass.{Pass, M, Reply, next_loop, create, pvc_stored, begin, get_rpc}
use starknet_operators.Condition.Initialize.{initialize_if, initialize}
use starknet_operators.Controller.Pvc.{reconcile_pvc}
use starknet_operators.Controller.Restore.{
  restore_done, is_disabled, start, reconcile_archive_restore,
}
use starknet_operators.Controller.Reconcile.{
  Verdict, proceed, gate_stage, after_initialize, after_fetch, restore_stage, pvc_stage, reconcile,
}
use starknet_operators.Controller.Manifest.Storage.{get_wanted_pvc}
use starknet_operators.Phases.Gate.{creates_pod}
use starknet_operators.Phases.Progress.{done-creates_pod}
use starknet_operators.History.Settles.{has_conditions}
use starknet_operators.History.Replay.{replay, reconcile-replays}
use starknet_operators.History.Remains.{resets, pvc_stage-IsDone}
use starknet_operators.History.Kept.{restarts-sends_undone}
use starknet_operators.Kubernetes.Core.{Pvc}
use starknet_operators.History.Settles.{IsExisting}
use starknet_operators.Pass.{Entry}
use starknet_operators.History.Life.{
  Phase, restored, is_fresh, is_restored, is_restored_lem, IsNew, advance, Follows, IsSent, At,
  with_storage,
}
use starknet_operators.History.Opening.{
  with_storage-begun, initialize_if-Leads, reconcile_pvc-Leads,
}
use starknet_operators.History.Waiting.{start-Retries}

module _ {k : Kube} (name : NamespacedName) (phase : k.World → Phase)
    (server : Follows k name phase) (conditions : HasConditions k) (status : KeepsStatus k) where
  -- After a handler that asks for another run nothing more is done.
  stops :
      (rest : M k (Verdict k.Fault)) (o : Outcome (Reply k.Fault)) (p : Pass k)
      → Returns (λ reply. reply.error ≡ some next_loop) o
      → (continue o (proceed {k = k} rest) p).1 ≡ p
  stops rest panic p returned = absurd returned
  stops rest (ret reply) p asked = rw asked

  handler-starts :
      (p : Pass k)
      → restore_done k p.rpc ≡ false
      → is_disabled p.rpc.spec.restore_archive.enable ≡ false
      → reconcile_archive_restore {k = k} p ≡ start {k = k} p.rpc p
  unfolding reconcile_archive_restore
  handler-starts p undone enabled = rw (undone, enabled)

  restore_stage-advances :
      (φ : Phase) (p : Pass k)
      → At phase φ p
      → is_fresh φ ≡ false
      → is_restored φ ≡ false
      → phase (restore_stage {k = k} p).1.world ≡ advance φ
  unfolding restore_stage
  restore_stage-advances φ p (at, undone, enabled) begun wanted =
      let (asks, moved) = start-Retries name phase server conditions status φ p at begun wanted in
      let started = start {k = k} p.rpc p in
      ap (λ o. phase (continue o.0 (proceed gate_stage) o.1).1.world)
        (handler-starts p undone enabled)
      ∙ ap (λ (q : Pass k). phase q.world) (stops gate_stage started.0 started.1 asks)
      ∙ moved

  pvc_stage-advances :
      (φ : Phase) (p : Pass k)
      → At phase φ p
      → is_restored φ ≡ false
      → phase (pvc_stage {k = k} p).1.world ≡ advance φ
  unfolding pvc_stage
  pvc_stage-advances φ p at wanted =
      let (returned, at') = reconcile_pvc-Leads name phase server conditions status φ p wanted at in
      let (begun, wanted', same) = with_storage-begun φ wanted in
      rw returned (
        restore_stage-advances (with_storage φ) (reconcile_pvc {k = k} p).1 at' begun wanted'
        ∙ same)

  after_initialize-advances :
      (cs : List Condition) (φ : Phase) (p : Pass k)
      → At phase φ p
      → is_restored φ ≡ false
      → phase ((initialize_if {k = k} cs >>= after_initialize) p).1.world ≡ advance φ
  after_initialize-advances cs φ p at wanted =
      let (returned, at') =
        initialize_if-Leads name phase server conditions status cs φ p wanted at in
      rw returned (pvc_stage-advances φ (initialize_if {k = k} cs p).1 at' wanted)

  run-advances :
      (w : k.World) (a : Answer k.Fault StarknetRpc)
      → (k.get_rpc name w).0 ≡ a
      → IsSent k (phase w) a
      → is_restored (phase w) ≡ false
      → phase (reconcile {k = k} name (begin w)).1.world ≡ advance (phase w)
  unfolding reconcile after_fetch get_rpc initialize
  run-advances w (err f) sent ok_sent wanted = absurd ok_sent
  run-advances w (ok r) sent (same, enabled, known) wanted =
      let p = record (get_rpc {k = k} name (begin w)).1 { rpc = r } in
      ap (λ a. phase (after_fetch {k = k} a (get_rpc {k = k} name (begin w)).1).1.world) sent
      ∙ after_initialize-advances r.status.conditions (phase w) p
          (server.fetches w, same ∙ wanted, enabled) wanted

  -- The claim exists, so the run goes on with the restore.
  existing-pvc_stage :
      (p : Pass k)
      → phase p.world ≡ restored
      → pvc_stage {k = k} p
        ≡ restore_stage {k = k} (create {k = k} k.pvcs (get_wanted_pvc p.rpc) p).1
  unfolding pvc_stage reconcile_pvc create
  existing-pvc_stage p at = ground (arith, server.storage p.rpc p.world)

  restored_initialize :
      (cs : List Condition) (p : Pass k)
      → has_conditions cs ≡ true
      → (initialize_if {k = k} cs >>= after_initialize) p ≡ pvc_stage {k = k} p
  restored_initialize [] p known = absurd (cc)
  restored_initialize (c ∷ cs) p known = refl

  pub restored_run :
      (w : k.World) (a : Answer k.Fault StarknetRpc)
      → (k.get_rpc name w).0 ≡ a
      → IsSent k restored a
      → phase w ≡ restored
      → creates_pod (reconcile {k = k} name (begin w)).1.calls ≡ true
  unfolding reconcile after_fetch get_rpc initialize create
  restored_run w (err f) sent ok_sent at = absurd ok_sent
  restored_run w (ok r) sent (ended, enabled, known) at =
      let p = record (get_rpc {k = k} name (begin w)).1 { rpc = r } in
      ap (λ a. creates_pod (after_fetch {k = k} a (get_rpc {k = k} name (begin w)).1).1.calls) sent
      ∙ ap (λ t. creates_pod t.1.calls)
          (restored_initialize r.status.conditions p known
            ∙ existing-pvc_stage p (server.fetches w ∙ at))
      ∙ done-creates_pod conditions status (create {k = k} k.pvcs (get_wanted_pvc r) p).1 ended
          server.job_gone server.pvc_gone

  replay-restored :
      (w : k.World) (l : List Entry)
      → phase w ≡ restored
      → resets k l ≡ false
      → phase (replay k w l) ≡ restored
  unfolding replay resets
  replay-restored w [] at well = at
  replay-restored w (e ∷ l) at well = ground (
    arith,
    replay-restored w l at,
    restarts-sends_undone k e.call,
    server.stays e.call (replay k w l),
  )

  existing_claim : (a : Answer k.Fault Pvc) → IsExisting k a → (f : k.Fault) × (a ≡ err f)
  existing_claim (ok x) there = absurd there
  existing_claim (err f) there = (f, refl)

  restored_claim :
      (r : StarknetRpc) (w : k.World)
      → phase w ≡ restored
      → (f : k.Fault) × ((k.pvcs.create (get_wanted_pvc r) w).0 ≡ err f)
  restored_claim r w at =
      let there : IsNew k (is_fresh restored) (k.pvcs.create (get_wanted_pvc r) w).0 =
        subst (λ φ. IsNew k (is_fresh φ) (k.pvcs.create (get_wanted_pvc r) w).0) at
          (server.storage r w).0 in
      existing_claim (k.pvcs.create (get_wanted_pvc r) w).0 there

  restored_run-resets :
      (w : k.World) (a : Answer k.Fault StarknetRpc)
      → (k.get_rpc name w).0 ≡ a
      → IsSent k restored a
      → phase w ≡ restored
      → resets k (reconcile {k = k} name (begin w)).1.calls ≡ false
  unfolding reconcile after_fetch get_rpc initialize resets
  restored_run-resets w (err f) sent ok_sent at = absurd ok_sent
  restored_run-resets w (ok r) sent (ended, enabled, known) at =
      let p = record (get_rpc {k = k} name (begin w)).1 { rpc = r } in
      let (f, refused) = restored_claim r p.world (server.fetches w ∙ at) in
      ap (λ a. resets k (after_fetch {k = k} a (get_rpc {k = k} name (begin w)).1).1.calls) sent
      ∙ ap (λ t. resets k t.1.calls) (restored_initialize r.status.conditions p known)
      ∙ (pvc_stage-IsDone conditions status p f refused (ended, refl)).1

  restored_run-stays :
      (w : k.World)
      → phase w ≡ restored
      → phase (reconcile {k = k} name (begin w)).1.world ≡ restored
  restored_run-stays w at =
      sym (ap phase (reconcile-replays k w name))
      ∙ replay-restored w (reconcile {k = k} name (begin w)).1.calls at
          (restored_run-resets w (k.get_rpc name w).0 refl (rw at at (server.sends w)) at)

  -- A run, in every phase.
  pub reconcile-advances :
      (w : k.World) → phase (reconcile {k = k} name (begin w)).1.world ≡ advance (phase w)
  reconcile-advances w = elim (Bool-cases (is_restored (phase w))) [
    | inl e ↦ let at = is_restored_lem (phase w) e in restored_run-stays w at ∙ sym (ap advance at)
    | inr e ↦ run-advances w (k.get_rpc name w).0 refl (server.sends w) e
  ]
