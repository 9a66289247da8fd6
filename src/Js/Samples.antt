-- ===== src/Js/Samples.antt =====
-- A small type of numbers with the operations of `Js.Number`, for runs of the code on given input:
-- NaN, 0 and 1, where every text but `0` and `1` reads as NaN.
use linkflow_v.Prelude.{ℕ, String, Bool, true, false, ◌==◌, if◌then◌else◌, eqb}
use linkflow_v.Js.Number.{Numbers}

pub data Small : Type 0 where
  nan zero one : Small

abbrev pub small_of_text : String → Small
small_of_text s = if s == "0" then zero else if s == "1" then one else nan

abbrev pub small_to_text : Small → String
small_to_text nan = "NaN"
small_to_text zero = "0"
small_to_text one = "1"

abbrev pub small_of_nat : ℕ → Small
small_of_nat n = if eqb n 0 then zero else if eqb n 1 then one else nan

abbrev pub is_number : Small → Bool
is_number nan = false
is_number zero = true
is_number one = true

abbrev pub same_small : Small → Small → Bool
same_small zero zero = true
same_small one one = true
same_small _ _ = false

abbrev pub small : Numbers Small
small = record {
  of_text = small_of_text;
  to_text = small_to_text;
  of_nat = small_of_nat;
  same = same_small;
  is_finite = is_number;
  is_integer = is_number;
  is_negative = λ x. false;
}
