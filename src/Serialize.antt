-- ===== src/Serialize.antt =====
-- `jsonSafe` of apps/api/src/lib/serialize.ts, which the handlers apply to the rows that they answer
-- with. The numbers of JavaScript are a parameter, with what `Number` makes of a big integer.
pub mod Plain
use xoom_agent_control.Prelude.{
  ℕ, String, Bool, true, false, ◌||◌, ◌==◌, Option, none, some, ℤ, pos, leb_ℤ, if◌then◌else◌,
}

-- The values that a row holds. A `decimal` is an object of the client with a function `toNumber`; an
-- `object` is one of plain data, so a key of that name is no function.
mutual
  pub data Value (Num : Type 0) : Type 0 where
    null : Value Num
    undefined : Value Num
    bigint : ℤ → Value Num
    date : ℕ → Value Num
    decimal : Num → Value Num
    number : Num → Value Num
    text : String → Value Num
    boolean : Bool → Value Num
    array : Values Num → Value Num
    object : Entries Num → Value Num

  pub data Values (Num : Type 0) : Type 0 where
    nil : Values Num
    item : Value Num → Values Num → Values Num

  pub data Entries (Num : Type 0) : Type 0 where
    end : Entries Num
    entry : String → Value Num → Entries Num → Entries Num

-- `key in value`
unfoldable pub has_key : {Num : Type 0} → String → Entries Num → Bool
has_key key end = false
has_key key (entry k v rest) = k == key || has_key key rest

abbrev pub max_safe_integer : ℤ
max_safe_integer = pos 9007199254740991

module _ {Num : Type 0} (number_of : ℤ → Num) (show_bigint : ℤ → String) (to_iso : ℕ → String) where
  abbrev pub array_of : Option (Values Num) → Option (Value Num)
  array_of none = none
  array_of (some vs) = some (array vs)

  abbrev pub object_of : Option (Entries Num) → Option (Value Num)
  object_of none = none
  object_of (some es) = some (object es)

  abbrev pub item_of : Option (Value Num) → Option (Values Num) → Option (Values Num)
  item_of (some v) (some vs) = some (item v vs)
  item_of _ _ = none

  abbrev pub entry_of : String → Option (Value Num) → Option (Entries Num) → Option (Entries Num)
  entry_of k (some v) (some es) = some (entry k v es)
  entry_of k _ _ = none

  -- `jsonSafe`: nothing where it throws, as it calls a `toNumber` that is no function
  unfoldable mutual
    unfolding has_key

    pub json_safe : Value Num → Option (Value Num)
    json_safe null = some null
    json_safe undefined = some undefined
    json_safe (bigint n) =
        some (if leb_ℤ n max_safe_integer then number (number_of n) else text (show_bigint n))
    json_safe (date t) = some (text (to_iso t))
    json_safe (decimal n) = some (number n)
    json_safe (number n) = some (number n)
    json_safe (text s) = some (text s)
    json_safe (boolean b) = some (boolean b)
    json_safe (array vs) = array_of (items_safe vs)
    json_safe (object es) =
        let rest = object_of (entries_safe es) in if has_key "toNumber" es then none else rest

    pub items_safe : Values Num → Option (Values Num)
    items_safe nil = some nil
    items_safe (item v vs) = item_of (json_safe v) (items_safe vs)

    pub entries_safe : Entries Num → Option (Entries Num)
    entries_safe end = some end
    entries_safe (entry k v es) = entry_of k (json_safe v) (entries_safe es)
