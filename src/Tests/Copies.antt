-- ===== src/Tests/Copies.antt =====
-- A memory with a resource and a list of it, and their deep copies.
use starknet_operators.Prelude.{
  arith, ◌≡◌, refl, ℕ, ◌<◌, inl, String, true, Option, none, some, List, [], ◌∷◌, length, set,
}
use starknet_operators.Prelude.StringMap.{lookup}
use starknet_operators.Kubernetes.Meta.{ObjectMeta, ListMeta, Condition, condition_true}
use starknet_operators.Kubernetes.Core.{ResourceRequirements, Toleration, SecretKeySelector}
use starknet_operators.V1alpha1.{StarknetRpc, StarknetRpcList}
use starknet_operators.Prog.{Outcome, ret}
use starknet_operators.Tests.Data.{custom_labels, node}
use starknet_operators.DeepCopy.Heap.{Extends}
use starknet_operators.DeepCopy.Layout.{Slot, Layout, IsDeep, plain, pointer}
use starknet_operators.DeepCopy.Pointers.{plain-IsDeep, pointer-IsDeep}
use starknet_operators.DeepCopy.Memory.{
  Types, Cell, Library, IsDeepLibrary, RuntimeObject, starknet_rpc, starknet_rpc_list, StoredRpc,
  StoredRpcList, foreign_cell, bool_cell, string_cell, map_cell, monitor_cell, conditions_cell,
  rpc_cell, items_cell, rpc_list_cell, rpc_slot, rpc_list_slot,
}
use starknet_operators.DeepCopy.StarknetRpc
use starknet_operators.DeepCopy.StarknetRpcList
use starknet_operators.DeepCopy.Deep.StarknetRpc.{deep_copy_object-copies}
use starknet_operators.DeepCopy.Deep.StarknetRpcList.{deep_copy_object-copies_items}
use starknet_operators.DeepCopy.Separate.{nothing, write, deep_copy_object-separate}

-- A quantity is a pointer to its text; the other structs hold no pointers.
abbrev types : Types
types = record {
  Cell = String;
  ObjectMeta = ObjectMeta;
  ListMeta = ListMeta;
  Resources = ResourceRequirements;
  Toleration = Toleration;
  Secret = SecretKeySelector;
  Condition = Condition;
  Quantity = Option ℕ;
}

abbrev as_text : Cell types → Option String
as_text (foreign_cell x) = some x
as_text _ = none

abbrev text_slot : Slot (Cell types) String
text_slot = record { pack = foreign_cell; unpack = as_text; unpack-pack = λ x. refl }

abbrev text : Layout (Cell types) (Option ℕ) (Option String)
text = pointer text_slot plain

text-IsDeep : IsDeep text
text-IsDeep = pointer-IsDeep text_slot plain plain-IsDeep

abbrev library : Library types
library = record {
  object_meta = plain;
  list_meta = plain;
  resources = plain;
  toleration = plain;
  secret = plain;
  condition = plain;
  quantity = record { Shows = λ h lo hi m v. text.Shows h lo hi m (some v); copy = text.copy };
}

library-IsDeep : IsDeepLibrary library
library-IsDeep = record {
  object_meta = plain-IsDeep;
  list_meta = plain-IsDeep;
  resources = plain-IsDeep;
  toleration = plain-IsDeep;
  secret = plain-IsDeep;
  condition = plain-IsDeep;
  quantity = record {
    moves = λ h h' lo lo' hi hi' m v. text-IsDeep.moves h h' lo lo' hi hi' m (some v);
    copies = λ h lo hi m v. text-IsDeep.copies h lo hi m (some v);
  };
}

abbrev condition : String → Condition
condition type = record { type = type; status = condition_true; reason = "Test"; message = "" }

-- The resource: it has an image, custom labels, and one condition.
abbrev value : StarknetRpc
value =
    let n = node (condition "Restore" ∷ []) in
    record n {
      spec = record n.spec {
        image = some "pathfinder";
        restore_archive = record n.spec.restore_archive {
          enable = some true;
          storage = n.spec.storage;
        };
      };
    }

-- The slice of the conditions starts inside of its array.
abbrev stored : StoredRpc types
stored = record {
  api_version = value.api_version;
  kind = value.kind;
  meta = value.meta;
  spec = record {
    network = value.spec.network;
    restore_archive = record {
      enable = some 1;
      file_name = value.spec.restore_archive.file_name;
      checksum = value.spec.restore_archive.checksum;
      rsync_config = none;
      restore_image = none;
      storage = record { size = some 4; class = "fast" };
    };
    resources = value.spec.resources;
    image = some 0;
    storage = record { size = some 4; class = "fast" };
    tolerations = none;
    layer1_rpc_secret = value.spec.layer1_rpc_secret;
    pod_monitor = some 3;
  };
  status = record { conditions = some (record { array = 5; start = 1; len = 1 }) };
}

abbrev list_meta : ListMeta
list_meta = record { resource_version = "12"; continue = ""; remaining_item_count = none }

abbrev stored_list : StoredRpcList types
stored_list = record {
  api_version = "v1";
  kind = "StarknetRPCList";
  meta = list_meta;
  items = some (record { array = 7; start = 0; len = 1 });
}

abbrev memory : List (Cell types)
memory =
    string_cell "pathfinder"
    ∷ bool_cell true
    ∷ map_cell custom_labels
    ∷ monitor_cell (record { enabled = true; labels = some 2 })
    ∷ foreign_cell "100Gi"
    ∷ conditions_cell (condition "Available" ∷ condition "Restore" ∷ [])
    ∷ rpc_cell stored
    ∷ items_cell (stored ∷ [])
    ∷ rpc_list_cell stored_list
    ∷ []

abbrev list_value : StarknetRpcList
list_value = record {
  api_version = "v1";
  kind = "StarknetRPCList";
  meta = list_meta;
  items = value ∷ [];
}

unfoldable copied : Outcome (Option RuntimeObject) × List (Cell types)
unfolding StarknetRpc.deep_copy_object
copied = StarknetRpc.deep_copy_object library (some 6) memory

copied-address : copied.0 ≡ ret (some (starknet_rpc 16))
unfolding copied
copied-address = refl

stored-Shows : (hi : ℕ) → 5 < hi → StarknetRpc.Shows library memory 0 hi stored value
unfolding lookup
stored-Shows hi room = (
  refl,
  (
    (
      (omega arith, omega arith, true, refl, refl),
      tt,
      tt,
      ((omega arith, omega arith, "100Gi", refl, refl), refl),
      refl,
      refl,
    ),
    refl,
    (omega arith, omega arith, "pathfinder", refl, refl),
    ((omega arith, omega arith, "100Gi", refl, refl), refl),
    tt,
    refl,
    (
      omega arith,
      omega arith,
      record { enabled = true; labels = some 2 },
      refl,
      ((omega arith, omega arith, custom_labels, refl, ((refl, (refl, tt)), λ j. refl)), refl),
    ),
    refl,
  ),
  (
    refl,
    (omega arith, omega arith, condition "Available" ∷ condition "Restore" ∷ [], refl, (refl, tt)),
  ),
  refl,
  refl,
)

memory-Shows :
    (pointer rpc_slot (StarknetRpc.rpc library)).Shows memory 0
      (length memory)
      (some 6)
      (some value)
memory-Shows = (omega arith, omega arith, stored, refl, stored-Shows 9 (omega arith))

deep_copy_object-copies_example :
    (q : ℕ) × (h' : List (Cell types)) × (StarknetRpc.deep_copy_object library (some 6) memory
      ≡ (ret (some (starknet_rpc q)), h'))
    × Extends memory h'
    × (pointer rpc_slot (StarknetRpc.rpc library)).Shows h' 9 (length h') (some q) (some value)
deep_copy_object-copies_example =
    deep_copy_object-copies library library-IsDeep memory 6 value memory-Shows

list-Shows :
    (pointer rpc_list_slot (StarknetRpcList.rpc_list library)).Shows memory 0
      (length memory)
      (some 8)
      (some list_value)
list-Shows = (
  omega arith,
  omega arith,
  stored_list,
  refl,
  (
    refl,
    (refl, (omega arith, omega arith, stored ∷ [], refl, (stored-Shows 9 (omega arith), tt))),
    refl,
    refl,
  ),
)

deep_copy_object-copies_items_example :
    (q : ℕ) × (h' : List (Cell types)) × (StarknetRpcList.deep_copy_object library (some 8) memory
      ≡ (ret (some (starknet_rpc_list q)), h'))
    × Extends memory h'
    × (pointer rpc_list_slot (StarknetRpcList.rpc_list library)).Shows h' 9
        (length h')
        (some q)
        (some list_value)
deep_copy_object-copies_items_example =
    deep_copy_object-copies_items library library-IsDeep memory 8 list_value list-Shows

-- The first condition is written: in the array of the copy, and in that of the original.
abbrev spoiled : Cell types
spoiled = conditions_cell (condition "Degraded" ∷ [])

deep_copy_object-separate_example :
    (pointer rpc_slot (StarknetRpc.rpc library)).Shows
      (set copied.1 15 spoiled)
      0
      9
      (some 6)
      (some value)
    × (pointer rpc_slot (StarknetRpc.rpc library)).Shows
        (set copied.1 5 spoiled)
        9
        17
        (some 16)
        (some value)
unfolding copied
deep_copy_object-separate_example =
    deep_copy_object-separate library library-IsDeep memory copied.1 (set copied.1 15 spoiled)
      (set copied.1 5 spoiled) 6 16 value memory-Shows refl
      (write copied.1 15 spoiled nothing (omega arith))
      (write copied.1 5 spoiled nothing (inl (omega arith)))
