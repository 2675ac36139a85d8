-- ===== src/Serialize/Plain.antt =====
-- What `jsonSafe` leaves, and where it throws.
use xoom_agent_control.Prelude.{
  ◌≡◌, refl, ◌⊎◌, inl, inr, ℕ, String, Bool, true, false, not, ◌&&◌, ◌||◌, none, some, ℤ,
  Bool-cases, &&-true, not-true, leb_ℤ,
}
use xoom_agent_control.Serialize.{
  Value, null, undefined, bigint, date, decimal, number, text, boolean, array, object, Values, nil,
  item, Entries, end, entry, has_key, json_safe, items_safe, entries_safe, max_safe_integer,
}

-- What JSON has a form for, without objects that have a key `toNumber`.
unfoldable mutual
  unfolding has_key

  pub is_plain : {Num : Type 0} → Value Num → Bool
  is_plain null = true
  is_plain undefined = true
  is_plain (bigint n) = false
  is_plain (date t) = false
  is_plain (decimal n) = false
  is_plain (number n) = true
  is_plain (text s) = true
  is_plain (boolean b) = true
  is_plain (array vs) = items_plain vs
  is_plain (object es) = not (has_key "toNumber" es) && entries_plain es

  items_plain : {Num : Type 0} → Values Num → Bool
  items_plain nil = true
  items_plain (item v vs) = is_plain v && items_plain vs

  entries_plain : {Num : Type 0} → Entries Num → Bool
  entries_plain end = true
  entries_plain (entry k v es) = is_plain v && entries_plain es

-- Whether an object in a value has a key `toNumber`.
unfoldable mutual
  unfolding has_key

  pub is_trapped : {Num : Type 0} → Value Num → Bool
  is_trapped (array vs) = items_trapped vs
  is_trapped (object es) = has_key "toNumber" es || entries_trapped es
  is_trapped _ = false

  items_trapped : {Num : Type 0} → Values Num → Bool
  items_trapped nil = false
  items_trapped (item v vs) = is_trapped v || items_trapped vs

  entries_trapped : {Num : Type 0} → Entries Num → Bool
  entries_trapped end = false
  entries_trapped (entry k v es) = is_trapped v || entries_trapped es

module _ {Num : Type 0} (number_of : ℤ → Num) (show_bigint : ℤ → String) (to_iso : ℕ → String) where
  mutual
    unfolding is_plain json_safe

    json_safe-is_plain :
        (v : Value Num) → is_plain v ≡ true → json_safe number_of show_bigint to_iso v ≡ some v
    json_safe-is_plain null h = refl
    json_safe-is_plain undefined h = refl
    json_safe-is_plain (bigint n) h = cc
    json_safe-is_plain (date t) h = cc
    json_safe-is_plain (decimal n) h = cc
    json_safe-is_plain (number n) h = refl
    json_safe-is_plain (text s) h = refl
    json_safe-is_plain (boolean b) h = refl
    json_safe-is_plain (array vs) h = rw (items_safe-is_plain vs h) refl
    json_safe-is_plain (object es) h =
        let (keys, rest) = &&-true _ _ h in
        let free : has_key "toNumber" es ≡ false = not-true (has_key "toNumber" es) keys in
        rw (free, entries_safe-is_plain es rest) refl

    items_safe-is_plain :
        (vs : Values Num)
        → items_plain vs ≡ true
        → items_safe number_of show_bigint to_iso vs ≡ some vs
    items_safe-is_plain nil h = refl
    items_safe-is_plain (item v vs) h =
        let (a, b) = &&-true _ _ h in rw (json_safe-is_plain v a, items_safe-is_plain vs b) refl

    entries_safe-is_plain :
        (es : Entries Num)
        → entries_plain es ≡ true
        → entries_safe number_of show_bigint to_iso es ≡ some es
    entries_safe-is_plain end h = refl
    entries_safe-is_plain (entry k v es) h =
        let (a, b) = &&-true _ _ h in rw (json_safe-is_plain v a, entries_safe-is_plain es b) refl

  -- The two ends: an exception, or a plain value that stays as it is when it is made safe again.
  abbrev Ends : Value Num → Type 0
  Ends v =
      ((is_trapped v ≡ true) × (json_safe number_of show_bigint to_iso v ≡ none))
      ⊎ ((is_trapped v ≡ false)
          × (w : Value Num) × (json_safe number_of show_bigint to_iso v ≡ some w)
          × (is_plain w ≡ true))

  abbrev ItemsEnd : Values Num → Type 0
  ItemsEnd vs =
      ((items_trapped vs ≡ true) × (items_safe number_of show_bigint to_iso vs ≡ none))
      ⊎ ((items_trapped vs ≡ false)
          × (ws : Values Num) × (items_safe number_of show_bigint to_iso vs ≡ some ws)
          × (items_plain ws ≡ true))

  abbrev EntriesEnd : Entries Num → Type 0
  EntriesEnd es =
      ((entries_trapped es ≡ true) × (entries_safe number_of show_bigint to_iso es ≡ none))
      ⊎ ((entries_trapped es ≡ false)
          × (ds : Entries Num) × (entries_safe number_of show_bigint to_iso es ≡ some ds)
          × (entries_plain ds ≡ true)
          × (has_key "toNumber" ds ≡ has_key "toNumber" es))

  mutual
    unfolding is_trapped is_plain json_safe

    ends : (v : Value Num) → Ends v
    ends null = inr (refl, null, refl, refl)
    ends undefined = inr (refl, undefined, refl, refl)
    ends (bigint n) = elim (Bool-cases (leb_ℤ n max_safe_integer)) [
      | inl fits ↦ inr (refl, number (number_of n), rw fits refl, refl)
      | inr big ↦ inr (refl, text (show_bigint n), rw big refl, refl)
    ]
    ends (date t) = inr (refl, text (to_iso t), refl, refl)
    ends (decimal n) = inr (refl, number n, refl, refl)
    ends (number n) = inr (refl, number n, refl, refl)
    ends (text s) = inr (refl, text s, refl, refl)
    ends (boolean b) = inr (refl, boolean b, refl, refl)
    ends (array vs) = elim (items_end vs) [
      | inl (t, e) ↦ inl (t, rw e refl)
      | inr (t, ws, e, k) ↦ inr (t, array ws, rw e refl, k)
    ]
    ends (object es) = elim (Bool-cases (has_key "toNumber" es)) [
      | inl key ↦ inl (rw key refl, rw key refl)
      | inr free ↦ elim (entries_end es) [
        | inl (t, e) ↦ inl (rw (free, t) refl, rw (free, e) refl)
        | inr (t, ds, e, k, keys) ↦
            inr (rw (free, t) refl, object ds, rw (free, e) refl, rw (keys, free, k) refl)
      ]
    ]

    items_end : (vs : Values Num) → ItemsEnd vs
    items_end nil = inr (refl, nil, refl, refl)
    items_end (item v vs) = elim (ends v) [
      | inl (t, e) ↦ inl (rw t refl, rw e refl)
      | inr (t, w, e, k) ↦ elim (items_end vs) [
        | inl (t', e') ↦ inl (rw (t, t') refl, rw (e, e') refl)
        | inr (t', ws, e', k') ↦ inr (rw (t, t') refl, item w ws, rw (e, e') refl, rw (k, k') refl)
      ]
    ]

    entries_end : (es : Entries Num) → EntriesEnd es
    entries_end end = inr (refl, end, refl, refl, refl)
    entries_end (entry key v es) = elim (ends v) [
      | inl (t, e) ↦ inl (rw t refl, rw e refl)
      | inr (t, w, e, k) ↦ elim (entries_end es) [
        | inl (t', e') ↦ inl (rw (t, t') refl, rw (e, e') refl)
        | inr (t', ds, e', k', keys) ↦
            inr (rw (t, t') refl, entry key w ds, rw (e, e') refl, rw (k, k') refl, rw keys refl)
      ]
    ]

  -- A value is made safe unless an object in it has a key `toNumber`, which makes the conversion throw;
  -- the result has no big integer, date or decimal left, and is left as it is when it is made
  -- safe again.
  pub json_safe_lem :
      (v : Value Num)
      → ((is_trapped v ≡ true) × (json_safe number_of show_bigint to_iso v ≡ none))
        ⊎ ((is_trapped v ≡ false)
            × (w : Value Num) × (json_safe number_of show_bigint to_iso v ≡ some w)
            × (is_plain w ≡ true)
            × (json_safe number_of show_bigint to_iso w ≡ some w))
  json_safe_lem v = elim (ends v) [
    | inl trapped ↦ inl trapped
    | inr (t, w, e, k) ↦ inr (t, w, e, k, json_safe-is_plain w k)
  ]
