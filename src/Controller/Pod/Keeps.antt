-- ===== src/Controller/Pod/Keeps.antt =====
-- What the parts of the pod's handler keep is kept by the handler.
use starknet_operators.Prelude.{
  Bool, true, false, Option, none, some, [], ◌∷◌, Bool-cases, Option-cases, inl, inr,
}
use starknet_operators.Prog.{>>=-keeps}
use starknet_operators.Kubernetes.Core.{Pod}
use starknet_operators.Kubernetes.Client.{Kube}
use starknet_operators.Pass.{Pass, Error, pod_stored, delete}
use starknet_operators.Condition.{set_phases}
use starknet_operators.Condition.Available
use starknet_operators.Proxy.{is_ready}
use starknet_operators.Reconciler.{Created, create_or_reconcile}
use starknet_operators.Controller.Manifest.RpcPod.{get_wanted_pod}
use starknet_operators.Controller.Pod.{
  should_pod_get_recreated, after_probe, announce, after_announce, check_pod, after_create,
  reconcile_pod, image_reconciler,
}

module _ {k : Kube} (P : Pass k → Type 0)
    (available : (s : Available.StarknetRpcAvailableStatus) (p : Pass k)
      → P p
      → P (set_phases {k = k} (Available.apply k s ∷ []) p).1)
    (created : (p : Pass k)
      → P p
      → P
          (create_or_reconcile {k = k} k.pods
            (get_wanted_pod p.rpc)
            (image_reconciler p.rpc ∷ [])
            p).1)
    (probed : (pod : Pod) (p : Pass k) → P p → P (is_ready {k = k} pod p).1)
    (deleted : (pod : Pod) (p : Pass k) → P p → P (delete {k = k} k.pods pod none p).1) where
  after_probe-keeps :
      (ready : Bool) (e : Option (Error k.Fault)) (p : Pass k)
      → P p
      → P (after_probe {k = k} ready e p).1
  unfolding after_probe
  after_probe-keeps true none p h = available Available.catching_up p h
  after_probe-keeps true (some e) p h = h
  after_probe-keeps false e p h = h

  check_pod-keeps : (pod : Pod) (p : Pass k) → P p → P (check_pod {k = k} pod p).1
  unfolding check_pod
  check_pod-keeps pod p h = elim (Bool-cases (should_pod_get_recreated pod)) [
    | inl e ↦ rw e (deleted pod p h)
    | inr e ↦ rw e (
        >>=-keeps {P = P} (is_ready pod) _ p (probed pod p h)
          (λ r. after_probe-keeps r.ready r.error))
  ]

  announce-keeps : (created : Bool) (p : Pass k) → P p → P (announce {k = k} created p).1
  unfolding announce
  announce-keeps true p h = available Available.creating p h
  announce-keeps false p h = h

  after_announce-keeps :
      (pod : Pod) (e : Option (Error k.Fault)) (p : Pass k)
      → P p
      → P (after_announce {k = k} pod e p).1
  unfolding after_announce
  after_announce-keeps pod (some e) p h = h
  after_announce-keeps pod none p h = check_pod-keeps pod p h

  after_create-keeps : (c : Created k.Fault Pod) (p : Pass k) → P p → P (after_create {k = k} c p).1
  unfolding after_create
  after_create-keeps c p h = elim (Option-cases c.error) [
    | inr (x, e) ↦ rw e h
    | inl e ↦ rw e (
        >>=-keeps {P = P} (announce c.created) (after_announce c.object) p
          (announce-keeps c.created p h) (after_announce-keeps c.object))
  ]

  pub reconcile_pod-keeps : (p : Pass k) → P p → P (reconcile_pod {k = k} p).1
  unfolding reconcile_pod
  reconcile_pod-keeps p h =
      let wanted = get_wanted_pod p.rpc in
      let rs = image_reconciler p.rpc ∷ [] in
      >>=-keeps {P = P} (create_or_reconcile {k = k} k.pods wanted rs) after_create p (created p h)
        after_create-keeps
