-- ===== src/Js/Number.antt =====
-- JavaScript numbers, which stay abstract: their type and the operations that the console uses.
-- The two zeros count as one number, since none of these operations tells them apart.
use linkflow_v.Prelude.{ℕ, String, Bool}

pub record Numbers (N : Type 0) : Type 0 where
  -- `Number(text)` and `String(number)`.
  pub of_text : String → N
  pub to_text : N → String
  pub of_nat : ℕ → N
  -- `===`.
  pub same : N → N → Bool
  -- `Number.isFinite`, `Number.isInteger` and `number < 0`.
  pub is_finite : N → Bool
  pub is_integer : N → Bool
  pub is_negative : N → Bool
