-- ===== src/Console/Slug.antt =====
-- How the dialog of apps/web/src/app/(dashboard)/tenants/page.tsx suggests a slug, and the check
-- of packages/shared-types/src/admin.ts that the slug has to pass.
pub mod Accepted
use Prim.Native.Char.{code}
use xoom_agent_control.Prelude.{ℕ, String, Bool, false, not, ◌&&◌, ◌||◌, ◌==◌, leb, if◌then◌else◌}

-- `[a-z0-9]`
unfoldable pub is_alnum : ℕ → Bool
is_alnum c = leb 97 c && leb c 122 || leb 48 c && leb c 57

unfoldable pub is_dash : ℕ → Bool
is_dash c = leb 45 c && leb c 45

-- `replace(/[^a-z0-9]+/g, "-")`; the flag says whether the last character was replaced.
unfoldable pub dash_runs : Bool → String → String
unfolding is_alnum
dash_runs run String.[] = ""
dash_runs run (String.◌∷◌ c s) =
    let rest = dash_runs (not (is_alnum (code c))) s in
    if is_alnum (code c) then String.◌∷◌ c rest else if run then rest else String.◌∷◌ "-" rest

-- `replace(/^-|-$/g, "")`, first the one at the start, then the one at the end
unfoldable pub drop_dash : String → String
unfolding is_dash
drop_dash String.[] = ""
drop_dash (String.◌∷◌ c s) = if is_dash (code c) then s else String.◌∷◌ c s

unfoldable pub drop_last_dash : String → String
unfolding is_dash
drop_last_dash String.[] = ""
drop_last_dash (String.◌∷◌ c String.[]) = if is_dash (code c) then "" else String.◌∷◌ c ""
drop_last_dash (String.◌∷◌ c (String.◌∷◌ d s)) = String.◌∷◌ c (drop_last_dash (String.◌∷◌ d s))

-- What the dialog suggests for a name; `toLowerCase` is given.
unfoldable pub suggest : (String → String) → String → String
unfolding dash_runs drop_dash drop_last_dash
suggest to_lower_case name = drop_last_dash (drop_dash (dash_runs false (to_lower_case name)))

-- `[a-z0-9-]*[a-z0-9]$`
unfoldable pub ends_as_slug : String → Bool
unfolding is_alnum is_dash
ends_as_slug String.[] = false
ends_as_slug (String.◌∷◌ c String.[]) = is_alnum (code c)
ends_as_slug (String.◌∷◌ c (String.◌∷◌ d s)) =
    (is_alnum (code c) || is_dash (code c)) && ends_as_slug (String.◌∷◌ d s)

-- `/^[a-z0-9][a-z0-9-]*[a-z0-9]$/`, which asks for two characters, as `min(2)` does
unfoldable pub is_slug : String → Bool
unfolding is_alnum ends_as_slug
is_slug String.[] = false
is_slug (String.◌∷◌ c s) = is_alnum (code c) && ends_as_slug s
