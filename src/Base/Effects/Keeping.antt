-- ===== src/Base/Effects/Keeping.antt =====
-- Checks under an invariant: methods that return a value and write nothing, or throw in a state of the
-- invariant.
use mathlib.Core.Path.{◌≡◌, refl, sym, subst}
use mathlib.Core.Bool.{Bool, true, false}
use content_hub.Base.Effects.{M, ok, err, Exn, feed, ensure}
use content_hub.Base.Effects.Passing.{Decides}

pub data Guards {S A : Type 0} (I : S → Type 0) (m : M S A) (s : S) (P : A → Type 0) : Type 0 where
  passes : (a : A) → m s ≡ (ok a, s) → P a → Guards I m s P
  throws : (e : Exn) (t : S) → m s ≡ (err e, t) → I t → Guards I m s P

module _ {S A : Type 0} {I : S → Type 0} {m : M S A} {s : S} {P : A → Type 0} where
  pub decided : Guards I m s P → Decides m s P
  decided (passes a runs p) = Decides.passes a runs p
  decided (throws e t refused i) = Decides.throws e t refused

  -- A chain that starts with a check keeps the invariant if the rest of it does.
  pub guarded :
      {B : Type 0} (f : A → M S B)
      → Guards I m s P
      → ((a : A) → P a → I (f a s).1)
      → I (feed (m s) f).1
  guarded f (passes a runs p) rest = subst (λ r. I (feed r f).1) (sym runs) (rest a p)
  guarded f (throws e t refused i) rest = subst (λ r. I (feed r f).1) (sym refused) i

pub ensure_guards :
    {S : Type 0} (I : S → Type 0) (b : Bool) (e : Exn) {s : S}
    → I s
    → Guards I (ensure b e) s (λ _. b ≡ true)
ensure_guards I true e i = passes tt refl refl
ensure_guards I false e {s} i = throws e s refl i
