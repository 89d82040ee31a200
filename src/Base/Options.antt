-- ===== src/Base/Options.antt =====
-- Options as JavaScript reads a value that may be missing.
use mathlib.Core.Bool.{Bool, true, false}
use mathlib.Core.Option.{Option, none, some}
use Prim.Native.Nat.{ℕ}

abbrev pub is_none {ℓ} : {A : Type ℓ} → Option A → Bool
is_none none = true
is_none (some a) = false

-- `a ?? b`
abbrev pub or_this {ℓ} : {A : Type ℓ} → Option A → A → A
or_this none b = b
or_this (some a) b = a

-- `a ?? 0`
abbrev pub or_zero : Option ℕ → ℕ
or_zero none = 0
or_zero (some n) = n

-- A condition of a query that may be left out.
abbrev pub optional {ℓ} : {A : Type ℓ} → Option A → (A → Bool) → Bool
optional none test = true
optional (some a) test = test a
