-- ===== src/History/Life.antt =====
-- The life of a resource up to its restored chain, as phases, and a server that goes through them.
use starknet_operators.Prog.{Outcome, ret, Returns}
use starknet_operators.Pass.{Call, Pass, Reply, next_loop}
use starknet_operators.Prelude.{◌≡◌, refl, Bool, true, false, none, some, ltb, if◌then◌else◌}
use starknet_operators.Kubernetes.Meta.{NamespacedName, background}
use starknet_operators.Kubernetes.Core.{Pvc, Job}
use starknet_operators.Kubernetes.Client.{Kube, Answer, ok, err}
use starknet_operators.V1alpha1.{StarknetRpc}
use starknet_operators.Controller.Manifest.Storage.{get_wanted_pvc, get_wanted_restore_pvc}
use starknet_operators.Controller.Pvc.{is_ready}
use starknet_operators.Controller.Restore.{restore_done, is_disabled}
use starknet_operators.Phases.Progress.{IsGone, IsAccepted}
use starknet_operators.History.Replay.{perform}
use starknet_operators.History.Remains.{sends_undone}
use starknet_operators.History.Settles.{IsExisting, IsBound, IsFinished, has_conditions}

-- Nothing is there; the storage claim is; both claims are; they are bound; the job is there; it has a
-- succeeded pod; the restore is done.
pub data Phase : Type 0 where
  fresh stored claimed bound running finished restored : Phase

abbrev pub is_fresh : Phase → Bool
is_fresh fresh = true
is_fresh _ = false

abbrev pub is_stored : Phase → Bool
is_stored stored = true
is_stored _ = false

abbrev pub is_claimed : Phase → Bool
is_claimed claimed = true
is_claimed _ = false

abbrev pub is_bound : Phase → Bool
is_bound bound = true
is_bound _ = false

abbrev pub is_running : Phase → Bool
is_running running = true
is_running _ = false

abbrev pub is_restored : Phase → Bool
is_restored restored = true
is_restored _ = false

pub is_restored_lem : (φ : Phase) → is_restored φ ≡ true → φ ≡ restored
is_restored_lem fresh e = absurd (cc)
is_restored_lem stored e = absurd (cc)
is_restored_lem claimed e = absurd (cc)
is_restored_lem bound e = absurd (cc)
is_restored_lem running e = absurd (cc)
is_restored_lem finished e = absurd (cc)
is_restored_lem restored e = refl

-- The claims are bound, and the restore is not done.
abbrev pub has_bound : Phase → Bool
has_bound bound = true
has_bound running = true
has_bound finished = true
has_bound _ = false

-- What a run makes of a phase: it creates the claims, then the job once the claims are bound, and it
-- marks the restore as done once the job has finished.
abbrev pub advance : Phase → Phase
advance fresh = claimed
advance stored = claimed
advance claimed = claimed
advance bound = running
advance running = running
advance finished = restored
advance restored = restored

abbrev pub IsSent : (k : Kube) → Phase → Answer k.Fault StarknetRpc → Type 0
IsSent k φ (ok r) =
    (restore_done k r ≡ is_restored φ)
    × (is_disabled r.spec.restore_archive.enable ≡ false)
    × ((if is_restored φ then has_conditions r.status.conditions else true) ≡ true)
IsSent k φ (err _) = ⊥

-- The object is new, or it was there.
abbrev pub IsNew : {A : Type 0} (k : Kube) → Bool → Answer k.Fault A → Type 0
IsNew k true (ok _) = Unit
IsNew k true (err _) = ⊥
IsNew k false a = IsExisting k a

-- The claim is not bound, or not seen yet.
abbrev pub IsUnbound : (k : Kube) → Answer k.Fault Pvc → Type 0
IsUnbound k (ok x) = is_ready x ≡ false
IsUnbound k (err f) = k.is_not_found f ≡ true

abbrev pub IsUnfinished : {F : Type 0} → Answer F Job → Type 0
IsUnfinished (ok job) = (ltb 0 job.succeeded ≡ false) × (ltb 0 job.failed ≡ false)
IsUnfinished (err _) = ⊥

-- A server that refuses nothing, and answers as the phase says. Only the creation of a claim or of
-- a job, and a status, move the phase; a
-- restore that is done stays so until a status says that it is not done.
pub record Follows (k : Kube) (name : NamespacedName) (phase : k.World → Phase) : Type 0 where
  pub sends : (w : k.World) → IsSent k (phase w) (k.get_rpc name w).0
  pub fetches : (w : k.World) → phase (k.get_rpc name w).1 ≡ phase w
  pub accepts : (r : StarknetRpc) (w : k.World) → IsAccepted (k.update_status r w).0
  pub writes :
      (r : StarknetRpc) (w : k.World)
      → is_restored (phase w) ≡ false
      → phase (k.update_status r w).1 ≡ (if restore_done k r then restored else phase w)
  pub stays :
      (c : Call) (w : k.World)
      → phase w ≡ restored
      → sends_undone k c ≡ false
      → phase (perform k c w) ≡ restored
  pub storage :
      (r : StarknetRpc) (w : k.World)
      → IsNew k (is_fresh (phase w)) (k.pvcs.create (get_wanted_pvc r) w).0
        × (phase (k.pvcs.create (get_wanted_pvc r) w).1
            ≡ (if is_fresh (phase w) then stored else phase w))
  pub scratch :
      (r : StarknetRpc) (w : k.World)
      → is_fresh (phase w) ≡ false
      → IsNew k (is_stored (phase w)) (k.pvcs.create (get_wanted_restore_pvc r) w).0
        × (phase (k.pvcs.create (get_wanted_restore_pvc r) w).1
            ≡ (if is_stored (phase w) then claimed else phase w))
  pub reads_pvc : (n : NamespacedName) (w : k.World) → phase (k.pvcs.get n w).1 ≡ phase w
  pub unbound :
      (n : NamespacedName) (w : k.World) → phase w ≡ claimed → IsUnbound k (k.pvcs.get n w).0
  pub binds :
      (n : NamespacedName) (w : k.World) → has_bound (phase w) ≡ true → IsBound (k.pvcs.get n w).0
  pub job :
      (x : Job) (w : k.World)
      → has_bound (phase w) ≡ true
      → IsNew k (is_bound (phase w)) (k.jobs.create x w).0
        × (phase (k.jobs.create x w).1 ≡ (if is_bound (phase w) then running else phase w))
  pub reads_job : (n : NamespacedName) (w : k.World) → phase (k.jobs.get n w).1 ≡ phase w
  pub runs :
      (n : NamespacedName) (w : k.World) → phase w ≡ running → IsUnfinished (k.jobs.get n w).0
  pub finishes :
      (n : NamespacedName) (w : k.World) → phase w ≡ finished → IsFinished (k.jobs.get n w).0
  pub job_gone : (x : Job) (w : k.World) → IsGone k (k.jobs.delete x (some background) w).0
  pub pvc_gone : (x : Pvc) (w : k.World) → IsGone k (k.pvcs.delete x none w).0

-- The phase once the storage claim is there.
abbrev pub with_storage : Phase → Phase
with_storage φ = if is_fresh φ then stored else φ

module _ {k : Kube} (phase : k.World → Phase) where
  -- The phase of the server; the copy of the run has its restore not done and not disabled.
  abbrev pub At : Phase → Pass k → Type 0
  At φ p =
      (phase p.world ≡ φ)
      × (restore_done k p.rpc ≡ false)
      × (is_disabled p.rpc.spec.restore_archive.enable ≡ false)

  -- The code returns this, and leaves the run so.
  abbrev pub Leads : {A : Type 0} → A → (Pass k → Type 0) → Outcome A × Pass k → Type 0
  Leads a P r = (r.0 ≡ ret a) × P r.1

  -- The handler asks for another run, and leaves the server in this phase.
  abbrev pub Retries : Phase → Outcome (Reply k.Fault) × Pass k → Type 0
  Retries φ r = Returns (λ reply. reply.error ≡ some next_loop) r.0 × (phase r.1.world ≡ φ)

-- What the job is found to be, in the phases in which it is there.
abbrev pub IsJudged : {F : Type 0} → Phase → Answer F Job → Type 0
IsJudged running a = IsUnfinished a
IsJudged finished a = IsFinished a
IsJudged _ a = ⊥
