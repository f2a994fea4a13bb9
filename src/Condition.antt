-- ===== src/Condition.antt =====
-- internal/utils/condition: a change of phase applies transitions to the program's copy of the
-- resource and sends the status to the server.
pub mod Available
pub mod Restore
pub mod Initialize
pub mod Statuses
use starknet_operators.Prelude.{Option, none, some, List, [], ◌∷◌}
use starknet_operators.Prog.{pure, ◌>>=◌, ◌>>◌}
use starknet_operators.Kubernetes.Client.{Kube, Answer, ok, err}
use starknet_operators.V1alpha1.{StarknetRpc}
use starknet_operators.Pass.{M, Error, api, modify, update_status}

abbrev pub StateTransition : Type 0
StateTransition = StarknetRpc → StarknetRpc

unfoldable pub apply_all : List StateTransition → StarknetRpc → StarknetRpc
apply_all [] node = node
apply_all (transition ∷ transitions) node = apply_all transitions (transition node)

abbrev pub as_error : {F A : Type 0} → Answer F A → Option (Error F)
as_error (ok _) = none
as_error (err f) = some (api f)

unfoldable pub set_phases : {k : Kube} → List StateTransition → M k (Option (Error k.Fault))
unfolding apply_all update_status
set_phases transitions = do
  modify (apply_all transitions)
  answer ← update_status
  pure (as_error answer)
