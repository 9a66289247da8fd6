-- ===== src/Js/Object.antt =====
-- Plain objects of JavaScript, as lists of their own properties in the order of `Object.entries`:
-- the array indices first, ascending, then the other keys as they were added.
pub mod Laws
pub mod Order
use Prim.Native.Char.{code}
use linkflow_v.Prelude.{
  ℕ, ◌+◌, ◌-◌, ◌*◌, String, Bool, true, false, ◌&&◌, Option, none, some, List, [], ◌∷◌, map, ◌==◌,
  ltb, leb, eqb, if◌then◌else◌,
}
use linkflow_v.Js.Json.{Json, Fields, end, field, entries}

-- The value of a text of decimal digits that follow the value `n`.
abbrev pub digits_from : ℕ → String → Option ℕ
digits_from n String.[] = some n
digits_from n (String.◌∷◌ c s) =
    let rest = digits_from (n * 10 + (code c - b'0')) s in
    if leb b'0' (code c) && leb (code c) b'9' then rest else none

abbrev pub below_limit : Option ℕ → Option ℕ
below_limit none = none
below_limit (some n) = if ltb n 4294967295 then some n else none

-- The number of a key that is an array index: decimal digits with no leading zero, below 2³² - 1.
unfoldable pub array_index : String → Option ℕ
array_index String.[] = none
array_index (String.◌∷◌ c s) =
    if eqb (code c) b'0'
    then (if s == "" then some 0 else none)
    else below_limit (digits_from 0 (String.◌∷◌ c s))

abbrev pub index_before : Option ℕ → Option ℕ → Bool
index_before none b = false
index_before (some a) none = true
index_before (some a) (some b) = ltb a b

-- Whether a new key `k` is listed before a key `j` that is there.
unfoldable pub comes_before : String → String → Bool
unfolding array_index
comes_before k j = index_before (array_index k) (array_index j)

module _ {N : Type 0} where
  -- An own property.
  unfoldable pub get : String → Fields N → Option (Json N)
  get k end = none
  get k (field j v o) = let rest = get k o in if j == k then some v else rest

  -- Definition of an own property: an old key keeps its place.
  unfoldable pub put : String → Json N → Fields N → Fields N
  put k v end = field k v end
  put k v (field j w o) =
      let rest = put k v o in
      if j == k
      then field k v o
      else if comes_before k j
      then field k v (field j w o)
      else field j w rest

  -- `o[k] = v` on an object from `{}`: the accessor `__proto__` takes the value and adds no own
  -- property.
  unfoldable pub assign : String → Json N → Fields N → Fields N
  assign k v o = if k == "__proto__" then o else put k v o

  -- `{ ...o, ...p }`.
  unfoldable pub spread : Fields N → Fields N → Fields N
  spread o end = o
  spread o (field k v p) = spread (put k v o) p

  unfoldable pub keys : Fields N → List String
  keys o = map (λ e. e.0) (entries o)

  -- `Object.keys(o).length > 0`.
  abbrev pub has_keys : Fields N → Bool
  has_keys end = false
  has_keys (field k v o) = true
