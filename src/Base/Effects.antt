-- ===== src/Base/Effects.antt =====
-- Service methods: state passing with exceptions. A throw keeps the state that it finds, since no
-- service of the program runs its statements in one transaction.
pub mod Passing
pub mod Keeping
use Prim.Native.Nat.{ℕ}
use mathlib.Core.Path.{◌≡◌, refl}
use mathlib.Core.Logic.{◌⊎◌, inl, inr}
use mathlib.Core.Bool.{Bool, true, false}

-- The exceptions of NestJS by their HTTP status. `database` is an error of the database driver or
-- of the runtime that the code does not translate, a 500.
pub data Exn : Type 0 where
  unauthorized bad_request not_found conflict unprocessable database : Exn

-- The status code of the response.
abbrev pub status_code : Exn → ℕ
status_code unauthorized = 401
status_code bad_request = 400
status_code not_found = 404
status_code conflict = 409
status_code unprocessable = 422
status_code database = 500

pub data Result {ℓ} (A : Type ℓ) : Type ℓ where
  ok : A → Result A
  err : Exn → Result A

abbrev pub M : Type 0 → Type 0 → Type 0
M S A = S → Result A × S

abbrev pub feed : {S A B : Type 0} → Result A × S → (A → M S B) → Result B × S
feed (ok a, s) f = f a s
feed (err e, s) f = (err e, s)

infixl 5 ◌>>=◌ ◌>>◌
abbrev pub ◌>>=◌ : {S A B : Type 0} → M S A → (A → M S B) → M S B
◌>>=◌ m f s = feed (m s) f

abbrev pub ◌>>◌ : {S A B : Type 0} → M S A → M S B → M S B
◌>>◌ m k s = feed (m s) (λ _. k)

abbrev pub return : {S A : Type 0} → A → M S A
return a s = (ok a, s)

abbrev pub get : {S : Type 0} → M S S
get s = (ok s, s)

abbrev pub modify : {S : Type 0} → (S → S) → M S (Unit {0})
modify f s = (ok tt, f s)

-- `if (!test) throw …`
abbrev pub ensure : {S : Type 0} → Bool → Exn → M S (Unit {0})
ensure true e s = (ok tt, s)
ensure false e s = (err e, s)
