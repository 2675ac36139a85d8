-- ===== src/Console/Dialog/Typing.antt =====
-- What the fields of the dialog hold after a run of events.
use text.Mathlib.TextPositions.{eq_refl}
use xoom_agent_control.Prelude.{
  ◌≡◌, refl, ap, ◌∙◌, String, true, false, not, ◌||◌, ◌==◌, List, [], ◌∷◌, ◌++◌, select,
  if◌then◌else◌, eq_iff, Bool-cases, inl, inr,
}
use xoom_agent_control.Console.Slug.{suggest}
use xoom_agent_control.Console.Dialog.{Dialog, type_name, type_names, is_selected, toggle}

-- The suggestion for the first text that has one.
unfoldable pub first_suggestion : (String → String) → List String → String
first_suggestion to_lower_case [] = ""
first_suggestion to_lower_case (value ∷ values) =
    let later = first_suggestion to_lower_case values in
    if suggest to_lower_case value == "" then later else suggest to_lower_case value

kept-slug :
    (to_lower_case : String → String) (values : List String) (f : Dialog)
    → (f.slug == "") ≡ false
    → (type_names to_lower_case values f).slug ≡ f.slug
unfolding type_names type_name
kept-slug to_lower_case [] f e = refl
kept-slug to_lower_case (value ∷ values) f e =
    let same : (type_name to_lower_case value f).slug ≡ f.slug = rw e refl in
    kept-slug to_lower_case values (type_name to_lower_case value f) (rw same e) ∙ same

-- While a name is typed in a dialog whose slug is empty, the slug is suggested for the first text
-- that has a suggestion, and stays so however the name goes on.
pub slug-type_names :
    (to_lower_case : String → String) (values : List String) (f : Dialog)
    → (f.slug == "") ≡ true
    → (type_names to_lower_case values f).slug ≡ first_suggestion to_lower_case values
unfolding type_names type_name first_suggestion
slug-type_names to_lower_case [] f e = (eq_iff f.slug "").0 e
slug-type_names to_lower_case (value ∷ values) f e =
    let typed : (type_name to_lower_case value f).slug ≡ suggest to_lower_case value = rw e refl in
    elim (Bool-cases (suggest to_lower_case value == "")) [
      | inl blank ↦
          rw blank (
            slug-type_names to_lower_case values (type_name to_lower_case value f) (rw typed blank))
      | inr given ↦ rw given (
          kept-slug to_lower_case values (type_name to_lower_case value f) (rw typed given) ∙ typed)
    ]

apart : (x y : String) → (x == y) ≡ false → (y == x) ≡ false
apart x y e = elim (Bool-cases (y == x)) [
  | inr k ↦ k
  | inl k ↦ let same : y ≡ x = (eq_iff y x).0 k in let no = rw (same, eq_refl x) at e in cc
]

is_selected-select :
    (name : String) (selected : List String)
    → is_selected name (select (λ y. not (y == name)) selected) ≡ false
unfolding is_selected select
is_selected-select name [] = refl
is_selected-select name (y ∷ ys) = elim (Bool-cases (y == name)) [
  | inl hit ↦ rw hit (is_selected-select name ys)
  | inr miss ↦ rw (miss, miss) (is_selected-select name ys)
]

is_selected-append :
    (name : String) (selected : List String) → is_selected name (selected ++ name ∷ []) ≡ true
unfolding is_selected
is_selected-append name [] = rw (eq_refl name) refl
is_selected-append name (y ∷ ys) =
    rw (is_selected-append name ys)
      (elim (Bool-cases (y == name)) [ inl e ↦ rw e refl | inr e ↦ rw e refl ])

module _ (x name : String) (other : (x == name) ≡ false) where
  is_selected-select_other :
      (selected : List String)
      → is_selected x (select (λ y. not (y == name)) selected) ≡ is_selected x selected
  unfolding is_selected select
  is_selected-select_other [] = refl
  is_selected-select_other (y ∷ ys) = elim (Bool-cases (y == name)) [
    | inl hit ↦
        let same : (y == x) ≡ false = rw ((eq_iff y name).0 hit) (apart x name other) in
        rw (hit, same) (is_selected-select_other ys)
    | inr miss ↦ rw miss (ap (λ b. y == x || b) (is_selected-select_other ys))
  ]

  is_selected-append_other :
      (selected : List String) → is_selected x (selected ++ name ∷ []) ≡ is_selected x selected
  unfolding is_selected
  is_selected-append_other [] = rw (apart x name other) refl
  is_selected-append_other (y ∷ ys) = ap (λ b. y == x || b) (is_selected-append_other ys)

-- A click on a tag changes whether its server is selected, and leaves the others as they were.
pub is_selected-toggle :
    (x name : String) (selected : List String)
    → is_selected x (toggle name selected)
      ≡ (if x == name then not (is_selected name selected) else is_selected x selected)
unfolding toggle
is_selected-toggle x name selected = elim (Bool-cases (x == name)) [
  | inl same ↦
      let e : x ≡ name = (eq_iff x name).0 same in
      rw (e, eq_refl name)
        (elim (Bool-cases (is_selected name selected)) [
          | inl on ↦ rw (on, is_selected-select name selected) refl
          | inr off ↦ rw (off, is_selected-append name selected) refl
        ])
  | inr other ↦ rw other (elim (Bool-cases (is_selected name selected)) [
    | inl on ↦ rw (on, is_selected-select_other x name other selected) refl
    | inr off ↦ rw (off, is_selected-append_other x name other selected) refl
  ])
]
