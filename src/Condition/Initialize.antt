-- ===== src/Condition/Initialize.antt =====
-- internal/utils/condition/starknetrpc/conditions.go: a resource without conditions gets the
-- pending ones.
use starknet_operators.Prelude.{Option, none, List, [], ◌∷◌}
use starknet_operators.Prog.{pure, ◌>>=◌}
use starknet_operators.Kubernetes.Meta.{Condition}
use starknet_operators.Kubernetes.Client.{Kube}
use starknet_operators.Pass.{M, Error, current}
use starknet_operators.Condition.{StateTransition, set_phases}
use starknet_operators.Condition.Available
use starknet_operators.Condition.Restore

abbrev pub initial_phases : (k : Kube) → List StateTransition
initial_phases k = Restore.apply k Restore.pending ∷ Available.apply k Available.pending ∷ []

abbrev pub initialize_if : {k : Kube} → List Condition → M k (Option (Error k.Fault))
initialize_if {k} [] = set_phases (initial_phases k)
initialize_if (_ ∷ _) = pure none

unfoldable pub initialize : {k : Kube} → M k (Option (Error k.Fault))
initialize = do rpc ← current; initialize_if rpc.status.conditions
