-- ===== src/DeepCopy/Memory.antt =====
-- The API types as they lie in memory: a pointer is an address, a slice is a header over an array, and a
-- struct of a library is whatever the library makes of it.
use starknet_operators.Prelude.{ℕ, String, Bool, Option, none, some, List, refl}
use starknet_operators.Prelude.StringMap.{StringMap}
use starknet_operators.Kubernetes.Meta.{ObjectMeta, ListMeta, Condition}
use starknet_operators.Kubernetes.Core.{ResourceRequirements, Toleration, SecretKeySelector}
use starknet_operators.DeepCopy.Layout.{Slot, Header, Layout, IsDeep}

-- The structs of the libraries in memory, and the cells to which they point.
pub record Types : Type 1 where
  pub Cell : Type 0
  pub ObjectMeta : Type 0
  pub ListMeta : Type 0
  pub Resources : Type 0
  pub Toleration : Type 0
  pub Secret : Type 0
  pub Condition : Type 0
  pub Quantity : Type 0

pub record StoredMonitor : Type 0 where
  pub enabled : Bool
  pub labels : Option ℕ

pub record StoredStatus : Type 0 where
  pub conditions : Option Header

module _ (t : Types) where
  pub record StoredTemplate : Type 0 where
    pub size : t.Quantity
    pub class : String

  pub record StoredSnapshot : Type 0 where
    pub enable : Option ℕ
    pub file_name : String
    pub checksum : String
    pub rsync_config : Option ℕ
    pub restore_image : Option ℕ
    pub storage : StoredTemplate

  pub record StoredSpec : Type 0 where
    pub network : String
    pub restore_archive : StoredSnapshot
    pub resources : t.Resources
    pub image : Option ℕ
    pub storage : StoredTemplate
    pub tolerations : Option Header
    pub layer1_rpc_secret : t.Secret
    pub pod_monitor : Option ℕ

  pub record StoredRpc : Type 0 where
    pub api_version : String
    pub kind : String
    pub meta : t.ObjectMeta
    pub spec : StoredSpec
    pub status : StoredStatus

  pub record StoredRpcList : Type 0 where
    pub api_version : String
    pub kind : String
    pub meta : t.ListMeta
    pub items : Option Header

  pub data Cell : Type 0 where
    foreign_cell : t.Cell → Cell
    bool_cell : Bool → Cell
    string_cell : String → Cell
    map_cell : StringMap → Cell
    monitor_cell : StoredMonitor → Cell
    template_cell : StoredTemplate → Cell
    snapshot_cell : StoredSnapshot → Cell
    spec_cell : StoredSpec → Cell
    status_cell : StoredStatus → Cell
    rpc_cell : StoredRpc → Cell
    rpc_list_cell : StoredRpcList → Cell
    tolerations_cell : List t.Toleration → Cell
    conditions_cell : List t.Condition → Cell
    items_cell : List StoredRpc → Cell

module _ {t : Types} where
  abbrev as_bool : Cell t → Option Bool
  as_bool (bool_cell x) = some x
  as_bool _ = none

  abbrev pub bool_slot : Slot (Cell t) Bool
  bool_slot = record { pack = bool_cell; unpack = as_bool; unpack-pack = λ x. refl }

  abbrev as_string : Cell t → Option String
  as_string (string_cell x) = some x
  as_string _ = none

  abbrev pub string_slot : Slot (Cell t) String
  string_slot = record { pack = string_cell; unpack = as_string; unpack-pack = λ x. refl }

  abbrev as_map : Cell t → Option StringMap
  as_map (map_cell x) = some x
  as_map _ = none

  abbrev pub map_slot : Slot (Cell t) StringMap
  map_slot = record { pack = map_cell; unpack = as_map; unpack-pack = λ x. refl }

  abbrev as_monitor : Cell t → Option StoredMonitor
  as_monitor (monitor_cell x) = some x
  as_monitor _ = none

  abbrev pub monitor_slot : Slot (Cell t) StoredMonitor
  monitor_slot = record { pack = monitor_cell; unpack = as_monitor; unpack-pack = λ x. refl }

  abbrev as_template : Cell t → Option (StoredTemplate t)
  as_template (template_cell x) = some x
  as_template _ = none

  abbrev pub template_slot : Slot (Cell t) (StoredTemplate t)
  template_slot = record { pack = template_cell; unpack = as_template; unpack-pack = λ x. refl }

  abbrev as_snapshot : Cell t → Option (StoredSnapshot t)
  as_snapshot (snapshot_cell x) = some x
  as_snapshot _ = none

  abbrev pub snapshot_slot : Slot (Cell t) (StoredSnapshot t)
  snapshot_slot = record { pack = snapshot_cell; unpack = as_snapshot; unpack-pack = λ x. refl }

  abbrev as_spec : Cell t → Option (StoredSpec t)
  as_spec (spec_cell x) = some x
  as_spec _ = none

  abbrev pub spec_slot : Slot (Cell t) (StoredSpec t)
  spec_slot = record { pack = spec_cell; unpack = as_spec; unpack-pack = λ x. refl }

  abbrev as_status : Cell t → Option StoredStatus
  as_status (status_cell x) = some x
  as_status _ = none

  abbrev pub status_slot : Slot (Cell t) StoredStatus
  status_slot = record { pack = status_cell; unpack = as_status; unpack-pack = λ x. refl }

  abbrev as_rpc : Cell t → Option (StoredRpc t)
  as_rpc (rpc_cell x) = some x
  as_rpc _ = none

  abbrev pub rpc_slot : Slot (Cell t) (StoredRpc t)
  rpc_slot = record { pack = rpc_cell; unpack = as_rpc; unpack-pack = λ x. refl }

  abbrev as_rpc_list : Cell t → Option (StoredRpcList t)
  as_rpc_list (rpc_list_cell x) = some x
  as_rpc_list _ = none

  abbrev pub rpc_list_slot : Slot (Cell t) (StoredRpcList t)
  rpc_list_slot = record { pack = rpc_list_cell; unpack = as_rpc_list; unpack-pack = λ x. refl }

  abbrev as_tolerations : Cell t → Option (List t.Toleration)
  as_tolerations (tolerations_cell x) = some x
  as_tolerations _ = none

  abbrev pub tolerations_slot : Slot (Cell t) (List t.Toleration)
  tolerations_slot = record {
    pack = tolerations_cell;
    unpack = as_tolerations;
    unpack-pack = λ x. refl;
  }

  abbrev as_conditions : Cell t → Option (List t.Condition)
  as_conditions (conditions_cell x) = some x
  as_conditions _ = none

  abbrev pub conditions_slot : Slot (Cell t) (List t.Condition)
  conditions_slot = record {
    pack = conditions_cell;
    unpack = as_conditions;
    unpack-pack = λ x. refl;
  }

  abbrev as_items : Cell t → Option (List (StoredRpc t))
  as_items (items_cell x) = some x
  as_items _ = none

  abbrev pub items_slot : Slot (Cell t) (List (StoredRpc t))
  items_slot = record { pack = items_cell; unpack = as_items; unpack-pack = λ x. refl }

-- runtime.Object: a type and a pointer to such a struct. The nil interface is `none`.
pub data RuntimeObject : Type 0 where
  starknet_rpc : ℕ → RuntimeObject
  starknet_rpc_list : ℕ → RuntimeObject

-- The deep copies of the libraries, and what their structs stand for.
pub record Library (t : Types) : Type 1 where
  pub object_meta : Layout (Cell t) t.ObjectMeta ObjectMeta
  pub list_meta : Layout (Cell t) t.ListMeta ListMeta
  pub resources : Layout (Cell t) t.Resources ResourceRequirements
  pub toleration : Layout (Cell t) t.Toleration Toleration
  pub secret : Layout (Cell t) t.Secret SecretKeySelector
  pub condition : Layout (Cell t) t.Condition Condition
  pub quantity : Layout (Cell t) t.Quantity String

-- What the libraries document: their copies share nothing with what they copy.
pub record IsDeepLibrary {t : Types} (lib : Library t) : Type 0 where
  pub object_meta : IsDeep lib.object_meta
  pub list_meta : IsDeep lib.list_meta
  pub resources : IsDeep lib.resources
  pub toleration : IsDeep lib.toleration
  pub secret : IsDeep lib.secret
  pub condition : IsDeep lib.condition
  pub quantity : IsDeep lib.quantity
