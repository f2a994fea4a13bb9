-- ===== src/Condition/Statuses.antt =====
-- What the statuses say of their conditions, and what applying them does to the resource.
use starknet_operators.Prelude.{
  arith, ◌≡◌, ◌↔◌, ◌⊎◌, inl, inr, ◌∙◌, refl, sym, true, String, eq_iff,
}
use starknet_operators.Kubernetes.Meta.{ConditionStatus, condition_true, condition_false}
use starknet_operators.Kubernetes.Client.{Kube, HasConditions, is_true}
use starknet_operators.V1alpha1.{StarknetRpc}
use starknet_operators.Condition.Available
use starknet_operators.Condition.Restore

-- The "Available" condition of a status text is true exactly for the text "Ready", and false
-- exactly for the text "Failed".
pub available-status_iff :
    (s : String)
    → ((Available.status s ≡ condition_true) ↔ (s ≡ "Ready"))
      × ((Available.status s ≡ condition_false) ↔ (s ≡ "Failed"))
unfolding Available.status
available-status_iff s = (
  (λ h. ground (arith, eq_iff s "Ready"), λ e. rw e refl),
  (λ h. ground (arith, eq_iff s "Failed"), λ e. rw e refl),
)

-- The "Restore" condition of a status text is true exactly for the texts "Success" and "Skipped".
pub restore-status_iff :
    (s : String) → (Restore.status s ≡ condition_true) ↔ ((s ≡ "Success") ⊎ (s ≡ "Skipped"))
unfolding Restore.status
restore-status_iff s = (
  λ h. ground (arith, eq_iff s "Success", eq_iff s "Skipped"),
  λ h. elim h [ inl e ↦ rw e refl | inr e ↦ rw e refl ],
)

is_true_iff : (s : ConditionStatus) → (is_true s ≡ true) ↔ (s ≡ condition_true)
is_true_iff s = (λ e. ground arith, λ e. rw e refl)

-- If the conditions behave as documented, then after a status is applied to "Available" and
-- another to "Restore", "Restore" is true exactly if its status is "Success" or "Skipped", and
-- "Available" is true exactly if its status is "Ready".
pub apply-conditions :
    {k : Kube}
    → HasConditions k
    → (s t : String) (rpc : StarknetRpc)
    → let after = Restore.apply k s (Available.apply k t rpc) in
      ((k.is_status_condition_true after.status.conditions "Restore" ≡ true)
        ↔ ((s ≡ "Success") ⊎ (s ≡ "Skipped")))
      × ((k.is_status_condition_true after.status.conditions "Available" ≡ true) ↔ (t ≡ "Ready"))
unfolding Restore.apply Available.apply
apply-conditions {k} conditions s t rpc =
    let cs = rpc.status.conditions in
    let a = Available.as_condition t in
    let r = Restore.as_condition s in
    let restore = conditions.is_true-set (k.set_status_condition cs a) r "Restore" in
    let available =
      conditions.is_true-set (k.set_status_condition cs a) r "Available"
      ∙ conditions.is_true-set cs a "Available" in
    let (restore_to, restore_from) = restore-status_iff s in
    let (available_to, available_from) = (available-status_iff t).0 in
    (
      (
        λ e. restore_to ((is_true_iff (Restore.status s)).0 (sym restore ∙ e)),
        λ e. restore ∙ (is_true_iff (Restore.status s)).1 (restore_from e),
      ),
      (
        λ e. available_to ((is_true_iff (Available.status t)).0 (sym available ∙ e)),
        λ e. available ∙ (is_true_iff (Available.status t)).1 (available_from e),
      ),
    )
