-- ===== src/ThingsModel/RoundTrip/Spec.antt =====
-- The number fields of a draft: from the text to the number and back to a text.
use linkflow_v.Prelude.{
  String, true, false, Option, none, some, ◌==◌, ◌≡◌, refl, arith, ok, if◌then◌else◌, eq_iff,
}
use linkflow_v.Js.Json.{Json, Fields, end, field}
use linkflow_v.Js.Object.{get, has_keys}
use linkflow_v.Js.Object.Laws.{get-put}
use linkflow_v.Js.Number.{Numbers}
use linkflow_v.Js.Text.{trim}
use linkflow_v.ThingsModel.Build.{
  set_some, num_json, unit_json, spec_of, number_or_undefined, int_or_undefined,
}
use linkflow_v.ThingsModel.Read.{text_or_empty, string_from_unknown}

-- What ECMAScript says of `Number` and `String` at numbers that are not NaN or infinite: the text
-- of a number reads back as the number, is not empty and has no white space at its ends.
pub record AreNumbers {N : Type 0} (ops : Numbers N) : Type 0 where
  pub reads : (x : N) → ops.is_finite x ≡ true → ops.of_text (ops.to_text x) ≡ x
  pub trimmed : (x : N) → trim (ops.to_text x) ≡ ops.to_text x
  pub nonempty : (x : N) → (ops.to_text x == "") ≡ false
  pub finite : (x : N) → ops.is_integer x ≡ true → ops.is_finite x ≡ true

module _ {N : Type 0} (ops : Numbers N) (laws : AreNumbers ops) where
  number_of_finite :
      (x : N) → ops.is_finite x ≡ true → number_or_undefined ops (ops.to_text x) ≡ ok (some x)
  unfolding number_or_undefined
  number_of_finite x f = rw (laws.trimmed x, laws.nonempty x, laws.reads x f) (rw f refl)

  number_of_empty : number_or_undefined ops "" ≡ ok none
  unfolding number_or_undefined trim
  number_of_empty = refl

  number_or_undefined-finite :
      (value : String) (x : N)
      → number_or_undefined ops value ≡ ok (some x)
      → ops.is_finite x ≡ true
  unfolding number_or_undefined
  number_or_undefined-finite value x h = ground arith

  pub number_or_undefined-text :
      (value : String) (o : Option N)
      → number_or_undefined ops value ≡ ok o
      → number_or_undefined ops (text_or_empty ops (num_json o)) ≡ ok o
  unfolding text_or_empty
  number_or_undefined-text value none h = number_of_empty
  number_or_undefined-text value (some x) h =
      number_of_finite x (number_or_undefined-finite value x h)

  int_of_natural :
      (x : N)
      → ops.is_integer x ≡ true
      → ops.is_negative x ≡ false
      → int_or_undefined ops (ops.to_text x) ≡ ok (some x)
  unfolding int_or_undefined
  int_of_natural x i n =
      rw (laws.trimmed x, laws.nonempty x, laws.reads x (laws.finite x i)) (rw (i, n) refl)

  int_of_empty : int_or_undefined ops "" ≡ ok none
  unfolding int_or_undefined trim
  int_of_empty = refl

  int_or_undefined-natural :
      (value : String) (x : N)
      → int_or_undefined ops value ≡ ok (some x)
      → (ops.is_integer x ≡ true) × (ops.is_negative x ≡ false)
  unfolding int_or_undefined
  int_or_undefined-natural value x h = ground arith

  pub int_or_undefined-text :
      (value : String) (o : Option N)
      → int_or_undefined ops value ≡ ok o
      → int_or_undefined ops (text_or_empty ops (num_json o)) ≡ ok o
  unfolding text_or_empty
  int_or_undefined-text value none h = int_of_empty
  int_or_undefined-text value (some x) h =
      let (i, n) = int_or_undefined-natural value x h in int_of_natural x i n

string_from_unknown-unit_json :
    (N : Type 0) (unit : String) → string_from_unknown (unit_json {N = N} unit) ≡ unit
unfolding string_from_unknown
string_from_unknown-unit_json N unit = ground (arith, eq_iff unit "")

module _ {N : Type 0} where
  abbrev pub or_else : Option (Json N) → Option (Json N) → Option (Json N)
  or_else none d = d
  or_else (some v) d = some v

  get-set_some :
      (k j : String) (v : Option (Json N)) (o : Fields N)
      → get j (set_some k v o) ≡ (if k == j then or_else v (get j o) else get j o)
  get-set_some k j none o = ground arith
  get-set_some k j (some v) o = get-put k j v o

  or_else-none : (v : Option (Json N)) → or_else v none ≡ v
  or_else-none none = refl
  or_else-none (some v) = refl

  -- The properties of a specification.
  module _ (min max step : Option N) (unit : String) (precision : Option N) where
    pub get-min-spec_of : get "min" (spec_of min max step unit precision) ≡ num_json min
    unfolding spec_of get
    get-min-spec_of = simp (get-set_some, or_else-none)

    pub get-max-spec_of : get "max" (spec_of min max step unit precision) ≡ num_json max
    unfolding spec_of get
    get-max-spec_of = simp (get-set_some, or_else-none)

    pub get-step-spec_of : get "step" (spec_of min max step unit precision) ≡ num_json step
    unfolding spec_of get
    get-step-spec_of = simp (get-set_some, or_else-none)

    pub get-precision-spec_of :
        get "precision" (spec_of min max step unit precision) ≡ num_json precision
    unfolding spec_of get
    get-precision-spec_of = simp (get-set_some, or_else-none)

    pub get-unit-spec_of :
        string_from_unknown (get "unit" (spec_of min max step unit precision)) ≡ unit
    unfolding spec_of get
    get-unit-spec_of = simp (get-set_some, or_else-none, string_from_unknown-unit_json)

  pub has_keys-false : (o : Fields N) → has_keys o ≡ false → o ≡ end
  has_keys-false end h = refl
  has_keys-false (field k v o) h = cc
