-- ===== src/Config/Values.antt =====
-- config.c: a line with a key and its value, arrays that grow, and the choice of a sub-object.
use libproc.Prelude.{
  ℕ, suc, ◌+◌, ◌-◌, Bool, true, false, ◌&&◌, ◌==◌, ltb, leb, Option, none, some, List, [], ◌∷◌,
  ◌++◌, length, set, take, replicate, if◌then◌else◌,
}

-- tolower, on a byte.
abbrev lower : ℕ → ℕ
lower c = if leb 65 c && leb c 90 then c + 32 else c

-- !strcasecmp
unfoldable pub same_text : List ℕ → List ℕ → Bool
same_text [] [] = true
same_text [] (d ∷ t) = false
same_text (c ∷ s) [] = false
same_text (c ∷ s) (d ∷ t) = let rest = same_text s t in lower c == lower d && rest

-- strchr with `=`: the key, and the value behind it if there is one.
unfoldable pub split_value : List ℕ → List ℕ × Option (List ℕ)
split_value [] = ([], none)
split_value (c ∷ s) =
    let (key, value) = split_value s in if c == 61 then ([], some s) else (c ∷ key, value)

-- A callback gets the key, the value, which may be NULL, and the data; it returns the data.
abbrev pub ParseCb : Type 0 → Type 0
ParseCb D = List ℕ → Option (List ℕ) → D → D

-- struct CFG_ParseValue, with whether it has a `lookup_cb`.
pub record ParseValue (D : Type 0) : Type 0 where
  pub name : List ℕ
  pub is_object : Bool
  pub cb : Option (ParseCb D)

module _ {D : Type 0} where
  unfoldable pub find_value : List (ParseValue D) → List ℕ → Option (ParseValue D)
  unfolding same_text
  find_value [] key = none
  find_value (v ∷ keys) key =
      let rest = find_value keys key in if same_text v.name key then some v else rest

  abbrev pub call_value : ParseValue D → List ℕ → Option (List ℕ) → D → D
  call_value v key value object =
      if v.is_object then object else elim v.cb [ none ↦ object | some cb ↦ cb key value object ]

  -- processKeyValueLine; warnings are left out.
  unfoldable pub process_key_value_line : List ℕ → List (ParseValue D) → D → D
  unfolding split_value find_value
  process_key_value_line buff keys object =
      let (key, value) = split_value buff in
      elim (find_value keys key) [ none ↦ object | some v ↦ call_value v key value object ]

-- struct CFG_Array; `slots` has the entries that were allocated. `len` and `capacity` are ints in the code;
-- no allocation that succeeds comes near their bound.
pub record CfgArray : Type 0 where
  pub len : ℕ
  pub capacity : ℕ
  pub slots : Option (List ℕ)

abbrev pub entries : Option (List ℕ) → List ℕ
entries none = []
entries (some d) = d

-- `dest->data[dest->len++] = value`; a write past the allocated entries is a fault.
abbrev pub put_last : CfgArray → ℕ → Option CfgArray
put_last a v =
    if ltb a.len (length (entries a.slots))
    then some (record a { len = suc a.len; slots = some (set (entries a.slots) a.len v) })
    else none

-- The result of CFG_PtrArrayAppendCB: the array, and whether NULL was returned.
pub data Appended : Type 0 where
  appended : CfgArray → Appended
  no_memory : CfgArray → Appended
  overrun : Appended

abbrev pub stored : Option CfgArray → Appended
stored none = overrun
stored (some a) = appended a

-- malloc of `capacity` entries and memcpy of the first `len`; what malloc leaves in the others is zero
-- here.
abbrev pub enlarged : CfgArray → CfgArray
enlarged a = record a {
  capacity = a.capacity + 5;
  slots = some (take a.len (entries a.slots) ++ replicate (a.capacity + 5 - a.len) 0);
}

-- CFG_PtrArrayAppendCB
unfoldable pub ptr_array_append : CfgArray → ℕ → Bool → Appended
ptr_array_append a v malloc_ok =
    if a.len == a.capacity
    then if malloc_ok
      then stored (put_last (enlarged a) v)
      else no_memory (record a { capacity = a.capacity + 5 })
    else stored (put_last a v)

-- CFG_freeArray, without the calls of freeCb.
unfoldable pub free_array : CfgArray → CfgArray
free_array a = elim a.slots [ none ↦ a | some d ↦ record { len = 0; capacity = 0; slots = none } ]
