-- ===== src/Float.antt =====
-- JavaScript numbers with a fraction (scores and weights). The checker has no floating point, so the
-- type and the operations that the program calls are a parameter; a law of IEEE arithmetic that a
-- theorem needs is a hypothesis of its own. Comparisons are Boolean functions, so that a NaN, of which every comparison is
-- false, is among the values.
use sentinel_act.Prelude.{ℕ, Bool}

pub record Float : Type 1 where
  pub Number : Type 0
  -- `a < b`, `a <= b`
  pub lt : Number → Number → Bool
  pub le : Number → Number → Bool
  pub add : Number → Number → Number
  pub sub : Number → Number → Number
  pub mul : Number → Number → Number
  pub div : Number → Number → Number
  -- Math.min, Math.max
  pub least : Number → Number → Number
  pub most : Number → Number → Number
  -- the literal n / 10 ^ k
  pub dec : ℕ → ℕ → Number

module _ (F : Float) where
  open F use {Number, lt, le}

  -- `a >= b`
  abbrev pub ge : Number → Number → Bool
  ge a b = le b a
