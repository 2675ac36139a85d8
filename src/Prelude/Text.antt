-- ===== src/Prelude/Text.antt =====
-- What the code does with strings: templates, `startsWith`, `slice`, `trim`, and `String(n)`.
use Prim.Native.Nat.{ℕ, zero, suc, ◌+◌, ◌/◌, ◌%◌}
use Prim.Native.Char.{code}
use Prim.Native.String.{String, slice, len}
use Prim.Native.String
use mathlib.Core.Bool.{Bool, ◌&&◌, ◌||◌}
use mathlib.Core.Option.{Option, none, some}
use mathlib.Core.List.{List, [], ◌∷◌}
use text.Mathlib.Text.{◌==◌, starts_with}
use xoom_agent_control.Prelude.Tests.{ltb, leb, if◌then◌else◌}

-- A template literal, by its parts.
unfoldable pub template : List String → String
template [] = ""
template (s ∷ rest) = String.◌++◌ s (template rest)

-- What `trim` takes for white space.
unfoldable pub is_space : ℕ → Bool
is_space c =
    leb 9 c && leb c 13
    || leb 32 c && leb c 32
    || leb 160 c && leb c 160
    || leb 0x1680 c && leb c 0x1680
    || leb 0x2000 c && leb c 0x200a
    || leb 0x2028 c && leb c 0x2029
    || leb 0x202f c && leb c 0x202f
    || leb 0x205f c && leb c 0x205f
    || leb 0x3000 c && leb c 0x3000
    || leb 0xfeff c && leb c 0xfeff

unfoldable pub trim_start : String → String
unfolding is_space
trim_start String.[] = ""
trim_start (String.◌∷◌ c s) =
    let rest = trim_start s in if is_space (code c) then rest else String.◌∷◌ c s

unfoldable pub trim_end : String → String
unfolding is_space
trim_end String.[] = ""
trim_end (String.◌∷◌ c s) =
    let rest = trim_end s in if is_space (code c) && rest == "" then "" else String.◌∷◌ c rest

unfoldable pub trim : String → String
unfolding trim_start trim_end
trim s = trim_end (trim_start s)

-- What follows a prefix, if the text has it.
unfoldable pub after_prefix : String → String → Option String
after_prefix p s = if starts_with s p then some (slice s (len p) (len s)) else none

digit : ℕ → String
digit n = slice "0123456789" n (n + 1)

decimal_from : ℕ → ℕ → String → String
unfolding digit
decimal_from zero n out = out
decimal_from (suc fuel) n out =
    let shown = String.◌++◌ (digit (n % 10)) out in
    let rest = decimal_from fuel (n / 10) shown in if ltb n 10 then shown else rest

-- `String(n)` of a natural number; a number has at most as many digits as its value plus one.
unfoldable pub decimal : ℕ → String
unfolding decimal_from
decimal n = decimal_from (suc n) n ""

-- A text that passes `if (text)`: neither absent nor empty.
unfoldable pub present : Option String → Option String
present none = none
present (some s) = if s == "" then none else some s

-- `s ?? d`
abbrev pub get_or {ℓ} : {A : Type ℓ} → Option A → A → A
get_or none d = d
get_or (some a) d = a
