-- ===== src/Content/Mp4/Boxes.antt =====
-- The scan of sibling boxes finds the first one of its type, and its fuel is enough.
use content_hub.Base.{
  ℕ, zero, suc, ◌+◌, ◌≤◌, ◌<◌, ◌≡◌, ◌↔◌, refl, inl, inr, true, false, List, some, ltb, ltb→lt,
  lt→ltb, arith, Bool-cases, Option-cases,
}
use mathlib.Core.Option.{some-injective}
use mathlib.Core.Path.{subst}
use content_hub.Content.Mp4.{
  Mp4Box, same_ascii, read_extended_size_box, read_box_at, find_box_loop, find_box,
}

-- The first box of the type among the siblings from the offset on, in the words of the file format: it
-- stands there, or a box of another type stands there and it is the first after that one.
pub data FirstBox (buffer : List ℕ) (limit : ℕ) (type : List ℕ) (box : Mp4Box) : ℕ → Type 0 where
  here :
      {offset : ℕ}
      → offset < limit
      → read_box_at buffer offset limit ≡ some box
      → same_ascii box.type type ≡ true
      → FirstBox buffer limit type box offset
  later :
      {offset : ℕ} (other : Mp4Box)
      → offset < limit
      → read_box_at buffer offset limit ≡ some other
      → same_ascii other.type type ≡ false
      → FirstBox buffer limit type box other.end
      → FirstBox buffer limit type box offset

-- A box ends after its offset and within the range.
pub read_box_at-within :
    (buffer : List ℕ) (offset limit : ℕ) {box : Mp4Box}
    → read_box_at buffer offset limit ≡ some box
    → (offset < box.end) × (box.end ≤ limit)
unfolding read_box_at read_extended_size_box
read_box_at-within buffer offset limit h = (ground arith, ground arith)

find_box_loop-FirstBox :
    (fuel : ℕ) (buffer : List ℕ) (offset limit : ℕ) (type : List ℕ) {box : Mp4Box}
    → find_box_loop fuel buffer offset limit type ≡ some box
    → FirstBox buffer limit type box offset
unfolding find_box_loop
find_box_loop-FirstBox zero buffer offset limit type h = cc
find_box_loop-FirstBox (suc fuel) buffer offset limit type {box} h =
    elim (Bool-cases (ltb offset limit)) [
      | inr outside ↦ absurd (ground arith)
      | inl inside ↦ elim (Option-cases (read_box_at buffer offset limit)) [
        | inl malformed ↦ absurd (ground arith)
        | inr (other, e) ↦ elim (Bool-cases (same_ascii other.type type)) [
          | inl same ↦
              subst (λ b. FirstBox buffer limit type b offset)
                (some-injective _ _ (rw (inside, e, same) at h)) (here (ltb→lt _ _ inside) e same)
          | inr differs ↦ later other (ltb→lt _ _ inside) e differs (
              find_box_loop-FirstBox fuel buffer other.end limit type
                (rw (inside, e, differs) at h))
        ]
      ]
    ]

FirstBox-find_box_loop :
    (fuel : ℕ) (buffer : List ℕ) (offset limit : ℕ) (type : List ℕ) {box : Mp4Box}
    → limit < offset + fuel
    → FirstBox buffer limit type box offset
    → find_box_loop fuel buffer offset limit type ≡ some box
unfolding find_box_loop
FirstBox-find_box_loop zero buffer offset limit type enough (here inside e same) =
    absurd (omega arith)
FirstBox-find_box_loop zero buffer offset limit type enough (later other inside e differs rest) =
    absurd (omega arith)
FirstBox-find_box_loop (suc fuel) buffer offset limit type enough (here inside e same) =
    rw (lt→ltb _ _ inside, e, same) refl
FirstBox-find_box_loop (suc fuel) buffer offset limit type enough
      (later other inside e differs rest) =
    let (closer, _) = read_box_at-within buffer offset limit e in
    rw (lt→ltb _ _ inside, e, differs)
      (FirstBox-find_box_loop fuel buffer other.end limit type (omega arith) rest)

-- findBox finds a box exactly if it is the first of its type: what it returns is, and it returns one
-- wherever there is one.
pub find_box-FirstBox :
    (buffer : List ℕ) (start limit : ℕ) (type : List ℕ) (box : Mp4Box)
    → (find_box buffer start limit type ≡ some box) ↔ FirstBox buffer limit type box start
unfolding find_box
find_box-FirstBox buffer start limit type box = (
  find_box_loop-FirstBox (suc limit) buffer start limit type,
  FirstBox-find_box_loop (suc limit) buffer start limit type (omega arith),
)
