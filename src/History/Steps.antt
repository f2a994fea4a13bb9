-- ===== src/History/Steps.antt =====
-- Runs for a resource, one after the other, with changes by others in between.
use starknet_operators.Kubernetes.Meta.{NamespacedName}
use starknet_operators.Kubernetes.Client.{Kube}
use starknet_operators.Pass.{begin}
use starknet_operators.Controller.Reconcile.{reconcile}

module _ (k : Kube) (name : NamespacedName) (others : k.World → k.World → Type 0) where
  -- A run, or a change that others may make.
  pub data Step : k.World → k.World → Type 0 where
    run : (w : k.World) → Step w (reconcile {k = k} name (begin w)).1.world
    other : (w w' : k.World) → others w w' → Step w w'

  pub data Reach : k.World → k.World → Type 0 where
    here : (w : k.World) → Reach w w
    later : (u v w : k.World) → Reach u v → Step v w → Reach u w
