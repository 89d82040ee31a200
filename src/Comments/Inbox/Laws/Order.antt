-- ===== src/Comments/Inbox/Laws/Order.antt =====
-- The order of the inbox.
use content_hub.Base.{
  ℕ, ◌+◌, ◌≡◌, refl, ◌∙◌, true, false, not, ◌&&◌, ◌||◌, inl, inr, List, [], ◌∷◌, Option, none, some,
  arith, Bool-cases, if◌then◌else◌, ltb, length,
}
use mathlib.Core.List.{Permᴰ}
use mathlib.Core.List.Permᴰ
use content_hub.Comments.Records.{Comment}
use content_hub.Comments.Inbox.{due_after, comes_after}

-- No row comes strictly after the one that follows it.
abbrev pub IsHead : Comment → List Comment → Type 0
IsHead c [] = Unit
IsHead c (d ∷ ds) = comes_after c d ≡ false

abbrev pub IsOrdered : List Comment → Type 0
IsOrdered [] = Unit
IsOrdered (c ∷ cs) = IsHead c cs × IsOrdered cs

-- An arrangement as `orderBy` promises it: all the rows, none strictly after the one that follows it.
pub record Sorts (arrange : List Comment → List Comment) : Type 0 where
  pub keeps : (cs : List Comment) → Permᴰ cs (arrange cs)
  pub orders : (cs : List Comment) → IsOrdered (arrange cs)

-- One such arrangement.
unfoldable pub insert_comment : Comment → List Comment → List Comment
unfolding comes_after
insert_comment c [] = c ∷ []
insert_comment c (d ∷ ds) = if comes_after c d then d ∷ insert_comment c ds else c ∷ d ∷ ds

unfoldable pub order_comments : List Comment → List Comment
order_comments [] = []
order_comments (c ∷ cs) = insert_comment c (order_comments cs)

asymmetric_keys :
    (a b : Option ℕ) (x y : ℕ)
    → (due_after a b || (not (due_after b a) && ltb x y)) ≡ true
    → (due_after b a || (not (due_after a b) && ltb y x)) ≡ false
asymmetric_keys none none x y h = ground (arith, h)
asymmetric_keys none (some b) x y h = ground (arith, h)
asymmetric_keys (some a) none x y h = ground (arith, h)
asymmetric_keys (some a) (some b) x y h = ground (arith, h)

pub asymmetric : (c d : Comment) → comes_after c d ≡ true → comes_after d c ≡ false
unfolding comes_after
asymmetric c d h = asymmetric_keys c.sla_due_at d.sla_due_at c.collected_at d.collected_at h

insert-IsHead :
    (d c : Comment) (cs : List Comment)
    → comes_after d c ≡ false
    → IsHead d cs
    → IsHead d (insert_comment c cs)
unfolding insert_comment
insert-IsHead d c [] h k = h
insert-IsHead d c (e ∷ cs) h k = elim (Bool-cases (comes_after c e)) [
  | inl later ↦ rw later k
  | inr first ↦ rw first h
]

insert-IsOrdered :
    (c : Comment) (cs : List Comment) → IsOrdered cs → IsOrdered (insert_comment c cs)
unfolding insert_comment
insert-IsOrdered c [] h = (tt, tt)
insert-IsOrdered c (d ∷ ds) (k, h) = elim (Bool-cases (comes_after c d)) [
  | inl later ↦ rw later (insert-IsHead d c ds (asymmetric c d later) k, insert-IsOrdered c ds h)
  | inr first ↦ rw first (first, (k, h))
]

pub ordered : (cs : List Comment) → IsOrdered (order_comments cs)
unfolding order_comments
ordered [] = tt
ordered (c ∷ cs) = insert-IsOrdered c (order_comments cs) (ordered cs)

insert-perm : (c : Comment) (cs : List Comment) → Permᴰ (c ∷ cs) (insert_comment c cs)
unfolding insert_comment
insert-perm c [] = Permᴰ.refl (c ∷ [])
insert-perm c (d ∷ ds) = elim (Bool-cases (comes_after c d)) [
  | inl later ↦
      rw later (Permᴰ.trans (Permᴰ.swap {l = ds} refl refl) (Permᴰ.cons refl (insert-perm c ds)))
  | inr first ↦ rw first (Permᴰ.refl (c ∷ d ∷ ds))
]

order-perm : (cs : List Comment) → Permᴰ cs (order_comments cs)
unfolding order_comments
order-perm [] = Permᴰ.nil
order-perm (c ∷ cs) =
    Permᴰ.trans (Permᴰ.cons refl (order-perm cs)) (insert-perm c (order_comments cs))

pub order_comments-Sorts : Sorts order_comments
order_comments-Sorts = record { keeps = order-perm; orders = ordered }

insert-length : (c : Comment) (cs : List Comment) → length (insert_comment c cs) ≡ 1 + length cs
unfolding insert_comment
insert-length c [] = refl
insert-length c (d ∷ ds) = ground (arith, insert-length c ds)

pub order-length : (cs : List Comment) → length (order_comments cs) ≡ length cs
unfolding order_comments
order-length [] = refl
order-length (c ∷ cs) = insert-length c (order_comments cs) ∙ omega (arith, order-length cs)
