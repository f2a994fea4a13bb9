-- ===== src/Controller/Manifest/Disjoint.antt =====
-- The names of a resource's objects, compared across kinds and resources
-- (internal/controller: GetStoragePvcName and its siblings).
use Prim.Native.String.{count}
use text.Mathlib.TextLemmas.{append_inj, length-append, append_assoc, append_cancel_right}
use starknet_operators.Prelude.{arith, String, ◌<>◌, ◌≡◌, ◌≢◌, ◌↔◌, refl, sym, ap, ◌∙◌, eq_iff}
use starknet_operators.Kubernetes.Meta.{NamespacedName, object_key}
use starknet_operators.V1alpha1.{StarknetRpc}
use starknet_operators.Controller.Manifest.Names.{
  named, get_storage_pvc_name, get_restore_pvc_name, get_restore_job_name, get_pod_name,
  get_pod_monitor_name,
}

-- Texts with different ends of one length differ.
different_ends : (a b s t : String) → count s ≡ count t → s ≢ t → a <> s ≢ b <> t
different_ends a b s t same differ e =
    differ (append_inj e (omega (arith, length-append a s, length-append b t, ap count e))).1

pub storage_not_restore : (a b : String) → a <> "-storage" ≢ b <> "-archive-restore"
storage_not_restore a b e =
    different_ends (a <> "-sto") (b <> "-archive-res") "rage" "tore" refl
      (λ q. ground (arith, eq_iff "rage" "tore"))
      (append_assoc a "-sto" "rage" ∙ e ∙ sym (append_assoc b "-archive-res" "tore"))

-- The scratch claim of a resource never has the name and namespace of the storage claim of a
-- resource, the same one or another.
pub restore_pvc-ne-storage_pvc :
    (a b : StarknetRpc) → get_restore_pvc_name a ≢ get_storage_pvc_name b
unfolding get_restore_pvc_name get_storage_pvc_name
restore_pvc-ne-storage_pvc a b e =
    storage_not_restore b.meta.name a.meta.name (sym (ap (λ (n : NamespacedName). n.name) e))

named_inj :
    (suffix : String) (a b : StarknetRpc)
    → (named suffix a ≡ named suffix b) ↔ (object_key a.meta ≡ object_key b.meta)
named_inj suffix a b = (
  λ e.
      rw
        (
          append_cancel_right a.meta.name b.meta.name suffix
              (ap (λ (n : NamespacedName). n.name) e),
          ap (λ (n : NamespacedName). n.namespace) e,
        )
        refl,
  λ e. rw (ap (λ (n : NamespacedName). n.name) e, ap (λ (n : NamespacedName). n.namespace) e) refl,
)

-- For each of the five kinds of objects, the objects of two resources have the same name and
-- namespace exactly if the two resources have.
pub names_inj :
    (a b : StarknetRpc)
    → ((get_storage_pvc_name a ≡ get_storage_pvc_name b) ↔ (object_key a.meta ≡ object_key b.meta))
      × ((get_restore_pvc_name a ≡ get_restore_pvc_name b)
          ↔ (object_key a.meta ≡ object_key b.meta))
      × ((get_restore_job_name a ≡ get_restore_job_name b)
          ↔ (object_key a.meta ≡ object_key b.meta))
      × ((get_pod_name a ≡ get_pod_name b) ↔ (object_key a.meta ≡ object_key b.meta))
      × ((get_pod_monitor_name a ≡ get_pod_monitor_name b)
          ↔ (object_key a.meta ≡ object_key b.meta))
unfolding get_storage_pvc_name get_restore_pvc_name get_restore_job_name get_pod_name
    get_pod_monitor_name
names_inj a b = (
  named_inj "-storage" a b,
  named_inj "-archive-restore" a b,
  named_inj "-archive-restore-job" a b,
  named_inj "-rpc" a b,
  named_inj "-podmonitor" a b,
)
