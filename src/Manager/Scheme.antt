-- ===== src/Manager/Scheme.antt =====
-- The scheme of the process (the init functions of cmd/main.go and api/v1alpha1), and the controller
-- that SetupWithManager of internal/controller/starknetrpc_controller.go builds over it.
use starknet_operators.Prelude.{String, Option, none, some, List, [], ◌∷◌, ◌++◌, if◌then◌else◌}
use starknet_operators.Prog.{Outcome, ret, panic}
use starknet_operators.Manager.Host.{Host, GroupVersion, GroupVersionKind, Builder}

abbrev pub group_version : GroupVersion
group_version = record { group = "pathfinder.runelabs.xyz"; version = "v1alpha1" }

-- SchemeBuilder.Register(&StarknetRPC{}, &StarknetRPCList{})
abbrev pub registered_types : List String
registered_types = "StarknetRPC" ∷ "StarknetRPCList" ∷ []

abbrev pub pod_monitor_kind : GroupVersionKind
pod_monitor_kind = record {
  group_version = record { group = "monitoring.coreos.com"; version = "v1" };
  kind = "PodMonitor";
}

module _ (h : Host) where
  -- utilruntime.Must
  abbrev pub must : Option h.Fault × h.Scheme → Outcome h.Scheme
  must (none, s) = ret s
  must (some _, s) = panic

  -- AddToScheme of api/v1alpha1
  abbrev pub add_to_scheme : h.Scheme → Option h.Fault × h.Scheme
  add_to_scheme = h.add_known_types group_version registered_types

  abbrev pub add_own : Outcome h.Scheme → Outcome h.Scheme
  add_own panic = panic
  add_own (ret s) = must (add_to_scheme s)

  -- An error of the monitoring types is only logged.
  abbrev pub add_monitoring : Outcome h.Scheme → Outcome h.Scheme
  add_monitoring panic = panic
  add_monitoring (ret s) = ret (h.add_monitoring s).1

  -- init() of package main
  unfoldable pub init_scheme : Outcome h.Scheme
  init_scheme = add_monitoring (add_own (must (h.add_client_go h.new_scheme)))

  -- The builder of SetupWithManager, before `Complete`.
  unfoldable pub build_controller : h.Scheme → Builder
  build_controller s =
      let owned = "Pod" ∷ "Job" ∷ "PersistentVolumeClaim" ∷ [] in
      record {
        for_object = "StarknetRPC";
        owns = if h.recognizes s pod_monitor_kind then owned ++ "PodMonitor" ∷ [] else owned;
        name = "starknetrpc";
      }
