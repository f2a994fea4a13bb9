-- ===== src/Condition/Restore.antt =====
-- internal/utils/condition/starknetrpc/restore.go: the statuses of the "Restore" condition. The Go
-- type is a string, so any other text is possible too.
use starknet_operators.Prelude.{String, ◌==◌, if◌then◌else◌}
use starknet_operators.Kubernetes.Meta.{
  Condition, ConditionStatus, condition_true, condition_false, condition_unknown,
}
use starknet_operators.Kubernetes.Client.{Kube}
use starknet_operators.V1alpha1.{with_conditions}
use starknet_operators.Condition.{StateTransition}

abbrev pub StarknetRpcRestoreStatus : Type 0
StarknetRpcRestoreStatus = String

abbrev pub pending : StarknetRpcRestoreStatus
pending = "Pending"

abbrev pub restoring : StarknetRpcRestoreStatus
restoring = "Restoring"

abbrev pub success : StarknetRpcRestoreStatus
success = "Success"

abbrev pub failed : StarknetRpcRestoreStatus
failed = "Failed"

abbrev pub skipped : StarknetRpcRestoreStatus
skipped = "Skipped"

unfoldable pub message : StarknetRpcRestoreStatus → String
message s =
    if s == pending
    then "Restore operation is being setup"
    else if s == restoring
    then "Restore operation is in progress"
    else if s == success
    then "Restore operation has completed successfully"
    else if s == failed
    then "Restore operation has failed"
    else if s == skipped
    then "Restore operation was skipped by the configuration"
    else "Unknown status"

unfoldable pub status : StarknetRpcRestoreStatus → ConditionStatus
status s =
    if s == pending
    then condition_false
    else if s == restoring
    then condition_false
    else if s == failed
    then condition_false
    else if s == success
    then condition_true
    else if s == skipped
    then condition_true
    else condition_unknown

unfoldable pub as_condition : StarknetRpcRestoreStatus → Condition
unfolding status message
as_condition s = record { type = "Restore"; reason = s; status = status s; message = message s }

unfoldable pub apply : (k : Kube) → StarknetRpcRestoreStatus → StateTransition
unfolding as_condition
apply k s rpc = with_conditions (k.set_status_condition rpc.status.conditions (as_condition s)) rpc
