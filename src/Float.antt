-- ===== src/Float.antt =====
-- What the program uses of `f64`, as an interface: antt has no floats.
use netmon_polyglot.Prelude.{ℕ, Bool}

pub record Float : Type 1 where
  pub F64 : Type 0
  -- A decimal literal, `n / 10 ^ k`, and the conversions from the unsigned integers.
  pub decimal : ℕ → ℕ → F64
  pub of_ℕ : ℕ → F64
  pub add : F64 → F64 → F64
  pub mul : F64 → F64 → F64
  pub div : F64 → F64 → F64
  pub neg : F64 → F64
  pub log2 : F64 → F64
  pub is_finite : F64 → Bool
  -- `a > b`, `a >= b`
  pub gt : F64 → F64 → Bool
  pub ge : F64 → F64 → Bool
  -- `x as u64`
  pub to_u64 : F64 → ℕ
