-- ===== src/Content/Gate/Trim.antt =====
-- `String.prototype.trim` of JavaScript, over the code points of a text.
use Prim.Native.Char.{code}
use Prim.Native.String.{String}
use mathlib.Core.List.{reverse, reverse-cons}
use content_hub.Base.{
  ℕ, ◌≡◌, refl, Bool, not, ◌||◌, ◌&&◌, List, [], ◌∷◌, ◌++◌, ◌==◌, leb, ltb, length, length-append,
  any, arith, if◌then◌else◌,
}

-- The code points of a text.
abbrev pub codes : String → List ℕ
codes String.[] = []
codes (String.◌∷◌ c s) = code c ∷ codes s

-- WhiteSpace and LineTerminator of ECMAScript.
unfoldable pub is_space : ℕ → Bool
is_space c =
    (leb 9 c && leb c 13)
    || c == 32
    || c == 160
    || c == 5760
    || (leb 8192 c && leb c 8202)
    || c == 8232
    || c == 8233
    || c == 8239
    || c == 8287
    || c == 12288
    || c == 65279

unfoldable pub trim_start : List ℕ → List ℕ
trim_start [] = []
trim_start (c ∷ cs) = if is_space c then trim_start cs else c ∷ cs

unfoldable pub trim : List ℕ → List ℕ
trim cs = reverse (trim_start (reverse (trim_start cs)))

-- Some code point is no white space.
abbrev pub visible : List ℕ → Bool
visible = any (λ c. not (is_space c))

visible-append : (xs ys : List ℕ) → visible (xs ++ ys) ≡ (visible xs || visible ys)
visible-append [] ys = refl
visible-append (x ∷ xs) ys = ground (arith, visible-append xs ys)

visible-reverse : (xs : List ℕ) → visible (reverse xs) ≡ visible xs
visible-reverse [] = refl
visible-reverse (x ∷ xs) =
    rw (reverse-cons x xs, visible-append) (ground (arith, visible-reverse xs))

visible-trim_start : (xs : List ℕ) → visible (trim_start xs) ≡ visible xs
unfolding trim_start
visible-trim_start [] = refl
visible-trim_start (x ∷ xs) = ground (arith, visible-trim_start xs)

-- The first code point that is left is visible.
nonempty-trim_start : (xs : List ℕ) → ltb 0 (length (trim_start xs)) ≡ visible xs
unfolding trim_start
nonempty-trim_start [] = ground arith
nonempty-trim_start (x ∷ xs) = ground (arith, nonempty-trim_start xs)

nonempty-reverse : (xs : List ℕ) → ltb 0 (length (reverse xs)) ≡ ltb 0 (length xs)
nonempty-reverse [] = refl
nonempty-reverse (x ∷ xs) =
    rw (reverse-cons x xs) (ground (arith, length-append (reverse xs) (x ∷ [])))

-- A text is left with something exactly when it has a visible code point.
pub trim-visible : (xs : List ℕ) → ltb 0 (length (trim xs)) ≡ visible xs
unfolding trim
trim-visible xs =
    rw (nonempty-reverse, nonempty-trim_start, visible-reverse, visible-trim_start) refl
