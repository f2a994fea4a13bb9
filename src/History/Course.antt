-- ===== src/History/Course.antt =====
-- A resource over runs, help by others and pauses, in any order.
use mathlib.Core.List.{Sublistᴰ}
use mathlib.Core.Path.{subst}
use starknet_operators.Prelude.{ℕ, ◌≤◌, arith, ◌≡◌, refl, ap, ◌∙◌, true, List, [], ◌∷◌}
use starknet_operators.Kubernetes.Meta.{NamespacedName}
use starknet_operators.Kubernetes.Client.{Kube, HasConditions, KeepsStatus}
use starknet_operators.Pass.{begin}
use starknet_operators.Controller.Reconcile.{reconcile}
use starknet_operators.Phases.Gate.{creates_pod}
use starknet_operators.History.Life.{
  Phase, fresh, stored, claimed, bound, running, finished, restored, advance, Follows, IsSent,
}
use starknet_operators.History.Arrives.{reconcile-advances, restored_run}

-- A run for the resource; the others do what the resource waits for; they leave its phase.
pub data Event : Type 0 where
  run help pause : Event

-- The others bind the claims, and let the job finish.
abbrev pub ripen : Phase → Phase
ripen claimed = bound
ripen running = finished
ripen φ = φ

abbrev pub turn : Event → Phase → Phase
turn run φ = advance φ
turn help φ = ripen φ
turn pause φ = φ

abbrev pub turns : List Event → Phase → Phase
turns [] φ = φ
turns (e ∷ es) φ = turns es (turn e φ)

abbrev rank : Phase → ℕ
rank fresh = 0
rank stored = 1
rank claimed = 2
rank bound = 3
rank running = 4
rank finished = 5
rank restored = 6

turn-grows : (e : Event) (φ : Phase) → rank φ ≤ rank (turn e φ)
turn-grows e φ = ground arith

turn_mono : (e : Event) (φ ψ : Phase) → rank φ ≤ rank ψ → rank (turn e φ) ≤ rank (turn e ψ)
turn_mono e φ ψ le = ground arith

rank_top : (φ : Phase) → 6 ≤ rank φ → φ ≡ restored
rank_top φ le = ground arith

-- More events take a later phase further.
turns_mono :
    (few many : List Event) (φ ψ : Phase)
    → Sublistᴰ few many
    → rank φ ≤ rank ψ
    → rank (turns few φ) ≤ rank (turns many ψ)
turns_mono [] [] φ ψ Sublistᴰ.slnil le = le
turns_mono few (e ∷ many) φ ψ (Sublistᴰ.cons part) le =
    turns_mono few many φ (turn e ψ) part (omega (arith, le, turn-grows e ψ))
turns_mono (d ∷ few) (e ∷ many) φ ψ (Sublistᴰ.cons-cons same part) le =
    turns_mono few many (turn d φ) (turn e ψ) part (rw same (turn_mono e φ ψ le))
turns_mono (d ∷ few) [] φ ψ part le = elim part [ ]

-- A run, help, a run, help and a run.
abbrev pub needed : List Event
needed = run ∷ help ∷ run ∷ help ∷ run ∷ []

turns-needed : (es : List Event) (φ : Phase) → Sublistᴰ needed es → turns es φ ≡ restored
turns-needed es φ part = rank_top (turns es φ) (turns_mono needed es fresh φ part (omega arith))

module _ (k : Kube) (name : NamespacedName) (phase : k.World → Phase) where
  -- From one world to another by these events, the first of which comes first.
  pub data Course : k.World → List Event → k.World → Type 0 where
    over : (w : k.World) → Course w [] w
    ran :
        (u w : k.World) (es : List Event)
        → Course (reconcile {k = k} name (begin u)).1.world es w
        → Course u (run ∷ es) w
    helped :
        (u v w : k.World) (es : List Event)
        → phase v ≡ ripen (phase u)
        → Course v es w
        → Course u (help ∷ es) w
    paused :
        (u v w : k.World) (es : List Event)
        → phase v ≡ phase u
        → Course v es w
        → Course u (pause ∷ es) w

module _ {k : Kube} (name : NamespacedName) (phase : k.World → Phase)
    (server : Follows k name phase) (conditions : HasConditions k) (status : KeepsStatus k) where
  -- Take conditions and status that behave as documented, and a server that follows the life of a
  -- resource: it sends the resource with its restore not disabled, done exactly in the last
  -- phase, and then with conditions; it accepts every status, and answers deletions with success
  -- or "not found"; it makes a claim or the job exactly if the phase lacks it, and else answers
  -- "already exists"; it shows claims as not bound, or none, before they are bound, a running job
  -- with neither a succeeded nor a failed pod, and a finished one with a succeeded pod; only
  -- these creations and a status whose restore is done move the phase, and a restore that is done
  -- stays so until a status says that it is not done. Then after any course of runs, of help by
  -- others, who bind the claims or let the job finish where the phase waits for it, and of
  -- pauses, in any order, the phase is the one that `turns` computes from the events alone: a run
  -- makes both claims, then the job once they are bound, then the restore done once the job has a
  -- succeeded pod, and else leaves the phase.
  pub Course-turns :
      (u w : k.World) (es : List Event) → Course k name phase u es w → phase w ≡ turns es (phase u)
  Course-turns u w es (over _) = refl
  Course-turns u w (run ∷ es) (ran _ _ _ rest) =
      Course-turns (reconcile {k = k} name (begin u)).1.world w es rest
      ∙ ap (turns es) (reconcile-advances name phase server conditions status u)
  Course-turns u w (help ∷ es) (helped _ v _ _ ripe rest) =
      Course-turns v w es rest ∙ ap (turns es) ripe
  Course-turns u w (pause ∷ es) (paused _ v _ _ same rest) =
      Course-turns v w es rest ∙ ap (turns es) same

  -- Take conditions and status that behave as documented, and a server that follows the life of a
  -- resource: it sends the resource with its restore not disabled, done exactly in the last
  -- phase, and then with conditions; it accepts every status, and answers deletions with success
  -- or "not found"; it makes a claim or the job exactly if the phase lacks it, and else answers
  -- "already exists"; it shows claims as not bound, or none, before they are bound, a running job
  -- with neither a succeeded nor a failed pod, and a finished one with a succeeded pod; only
  -- these creations and a status whose restore is done move the phase, and a restore that is done
  -- stays so until a status says that it is not done. Then after any course of runs, of help by
  -- others and of pauses in which a run, help, a run, help and a run come in this order, with any
  -- other events in between, the next run creates the pod, or tries to, whatever the phase at the
  -- start was.
  pub Course-creates_pod :
      (u w : k.World) (es : List Event)
      → Course k name phase u es w
      → Sublistᴰ needed es
      → creates_pod (reconcile {k = k} name (begin w)).1.calls ≡ true
  Course-creates_pod u w es course part =
      let at = Course-turns u w es course ∙ turns-needed es (phase u) part in
      restored_run name phase server conditions status w (k.get_rpc name w).0 refl
        (subst (λ φ. IsSent k φ (k.get_rpc name w).0) at (server.sends w)) at
