-- ===== src/DeepCopy/Deep/Fields.antt =====
-- Optional booleans and texts are copied deeply.
use starknet_operators.DeepCopy.Layout.{IsDeep, plain, pointer}
use starknet_operators.DeepCopy.Pointers.{plain-IsDeep, pointer-IsDeep}
use starknet_operators.DeepCopy.Memory.{Types, bool_slot, string_slot}

module _ {t : Types} where
  pub bool_pointer-IsDeep : IsDeep (pointer (bool_slot {t = t}) plain)
  bool_pointer-IsDeep = pointer-IsDeep bool_slot plain plain-IsDeep

  pub string_pointer-IsDeep : IsDeep (pointer (string_slot {t = t}) plain)
  string_pointer-IsDeep = pointer-IsDeep string_slot plain plain-IsDeep
