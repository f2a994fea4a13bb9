-- ===== src/Condition/Available.antt =====
-- internal/utils/condition/starknetrpc/ready.go: the statuses of the "Available" condition. The Go
-- type is a string, so any other text is possible too.
use starknet_operators.Prelude.{String, ◌<>◌, ◌==◌, if◌then◌else◌}
use starknet_operators.Kubernetes.Meta.{
  Condition, ConditionStatus, condition_true, condition_false, condition_unknown,
}
use starknet_operators.Kubernetes.Client.{Kube}
use starknet_operators.V1alpha1.{with_conditions}
use starknet_operators.Condition.{StateTransition}

abbrev pub StarknetRpcAvailableStatus : Type 0
StarknetRpcAvailableStatus = String

abbrev pub pending : StarknetRpcAvailableStatus
pending = "Pending"

abbrev pub creating : StarknetRpcAvailableStatus
creating = "Creating"

abbrev pub catching_up : StarknetRpcAvailableStatus
catching_up = "CatchingUp"

abbrev pub ready : StarknetRpcAvailableStatus
ready = "Ready"

abbrev pub failed : StarknetRpcAvailableStatus
failed = "Failed"

abbrev pub unknown : StarknetRpcAvailableStatus
unknown = "Unknown"

unfoldable pub string : StarknetRpcAvailableStatus → String
string s =
    if s == pending
    then "Pending"
    else if s == creating
    then "Creating"
    else if s == catching_up
    then "CatchingUp"
    else if s == ready
    then "Ready"
    else if s == failed
    then "Failed"
    else if s == unknown
    then "Unknown"
    else "Unknown(" <> (s <> ")")

unfoldable pub message : StarknetRpcAvailableStatus → String
message s =
    if s == pending
    then "The RPC is waiting for the initial state to be ready"
    else if s == creating
    then "RPC Pod is being scheduled"
    else if s == catching_up
    then "The node is catching up with the latest block"
    else if s == ready
    then "The node is ready and is fully synced"
    else if s == failed
    then "The node failed to start, or another error occurred"
    else if s == unknown
    then "Impossible to determine the status of the node"
    else "Unknown(" <> (s <> ")")

unfoldable pub status : StarknetRpcAvailableStatus → ConditionStatus
status s =
    if s == pending
    then condition_unknown
    else if s == creating
    then condition_unknown
    else if s == catching_up
    then condition_unknown
    else if s == ready
    then condition_true
    else if s == failed
    then condition_false
    else if s == unknown
    then condition_unknown
    else condition_unknown

unfoldable pub as_condition : StarknetRpcAvailableStatus → Condition
unfolding status message
as_condition s = record { type = "Available"; status = status s; reason = s; message = message s }

unfoldable pub apply : (k : Kube) → StarknetRpcAvailableStatus → StateTransition
unfolding as_condition
apply k s rpc = with_conditions (k.set_status_condition rpc.status.conditions (as_condition s)) rpc
