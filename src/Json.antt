-- ===== src/Json.antt =====
-- JSON values, as `unknown` and `Record<string, unknown>` in the source: a property that is missing
-- is `none`. Numbers are natural.
use xoom_agent_control.Prelude.{
  ℕ, zero, suc, String, template, decimal, Bool, true, false, not, Option, none, some, List, [],
  ◌∷◌, ◌==◌, if◌then◌else◌,
}

mutual
  pub data Json : Type 0 where
    null : Json
    bool : Bool → Json
    num : ℕ → Json
    str : String → Json
    arr : Items → Json
    obj : Fields → Json

  pub data Items : Type 0 where
    nil : Items
    cons : Json → Items → Items

  pub data Fields : Type 0 where
    end : Fields
    field : String → Json → Fields → Fields

abbrev pub object : List (String × Json) → Fields
object [] = end
object ((k, v) ∷ rest) = field k v (object rest)

abbrev pub items : List Json → Items
items [] = nil
items (v ∷ vs) = cons v (items vs)

abbrev pub strings : List String → Items
strings [] = nil
strings (s ∷ rest) = cons (str s) (strings rest)

-- `record[key]`
unfoldable pub get : String → Fields → Option Json
get key end = none
get key (field k v rest) = if k == key then some v else get key rest

-- Whether a value passes `if (value)`.
abbrev pub truthy : Json → Bool
truthy null = false
truthy (bool b) = b
truthy (num zero) = false
truthy (num (suc n)) = true
truthy (str s) = not (s == "")
truthy (arr vs) = true
truthy (obj fs) = true

-- An item of an array that is printed: `null` is empty.
abbrev item_text : Json → String → String
item_text null text = ""
item_text v text = text

-- `String(value)`: an array is joined by commas.
mutual
  unfolding template decimal

  text_of : Json → String
  text_of null = "null"
  text_of (bool true) = "true"
  text_of (bool false) = "false"
  text_of (num n) = decimal n
  text_of (str s) = s
  text_of (arr vs) = text_of_items vs
  text_of (obj fs) = "[object Object]"

  text_of_items : Items → String
  text_of_items nil = ""
  text_of_items (cons v nil) = item_text v (text_of v)
  text_of_items (cons v (cons w vs)) =
      template (item_text v (text_of v) ∷ "," ∷ text_of_items (cons w vs) ∷ [])

unfoldable pub to_string : Json → String
unfolding text_of
to_string v = text_of v
