-- ===== src/Comments/Inbox/Laws/Ties.antt =====
-- The order of the rows of the inbox, where no two of them tie.
use content_hub.Base.{
  ℕ, ◌≡◌, refl, sym, ◌∙◌, ap, true, not, ◌&&◌, ◌||◌, inl, inr, ◌⊎◌, List, [], ◌∷◌, Option, none,
  some, arith, Bool-cases, ltb, All,
}
use mathlib.Core.Path.{subst}
use mathlib.Core.List.{Permᴰ}
use content_hub.Comments.Records.{Comment}
use content_hub.Comments.Inbox.{due_after, comes_after}
use content_hub.Comments.Inbox.Laws.Order.{
  IsHead, IsOrdered, Sorts, insert_comment, order_comments, asymmetric,
}

-- One of the two comes strictly after the other.
abbrev pub Apart : Comment → Comment → Type 0
Apart c d = (comes_after c d ≡ true) ⊎ (comes_after d c ≡ true)

abbrev pub NoTies : List Comment → Type 0
NoTies [] = Unit
NoTies (c ∷ cs) = All (Apart c) cs × NoTies cs

Apart-sym : (c d : Comment) → Apart c d → Apart d c
Apart-sym c d (inl h) = inr h
Apart-sym c d (inr h) = inl h

transitive_keys :
    (a b c : Option ℕ) (x y z : ℕ)
    → (due_after a b || (not (due_after b a) && ltb x y)) ≡ true
    → (due_after b c || (not (due_after c b) && ltb y z)) ≡ true
    → (due_after a c || (not (due_after c a) && ltb x z)) ≡ true
transitive_keys none none none x y z h k = ground (arith, h, k)
transitive_keys none none (some c) x y z h k = refl
transitive_keys none (some b) none x y z h k = ground (arith, h, k)
transitive_keys none (some b) (some c) x y z h k = refl
transitive_keys (some a) none c x y z h k = absurd (ground (arith, h))
transitive_keys (some a) (some b) none x y z h k = absurd (ground (arith, k))
transitive_keys (some a) (some b) (some c) x y z h k = ground (arith, h, k)

transitive :
    (c d e : Comment) → comes_after c d ≡ true → comes_after d e ≡ true → comes_after c e ≡ true
unfolding comes_after
transitive c d e h k =
    transitive_keys c.sla_due_at d.sla_due_at e.sla_due_at c.collected_at d.collected_at
      e.collected_at h k

-- Two rows that do not tie are inserted in either order.
insert_swap :
    (c d : Comment) (cs : List Comment)
    → comes_after c d ≡ true
    → insert_comment c (insert_comment d cs) ≡ insert_comment d (insert_comment c cs)
unfolding insert_comment
insert_swap c d [] h = rw (h, asymmetric c d h) refl
insert_swap c d (x ∷ xs) h = elim (Bool-cases (comes_after d x)) [
  | inl dx ↦ let cx = transitive c d x h dx in ground (arith, dx, cx, insert_swap c d xs h)
  | inr dx ↦ elim (Bool-cases (comes_after c x)) [
    | inl cx ↦ ground (arith, h, dx, cx)
    | inr cx ↦ ground (arith, h, dx, cx, asymmetric c d h)
  ]
]

insert-Apart :
    (c d : Comment) (cs : List Comment)
    → Apart c d
    → insert_comment c (insert_comment d cs) ≡ insert_comment d (insert_comment c cs)
insert-Apart c d cs (inl h) = insert_swap c d cs h
insert-Apart c d cs (inr h) = sym (insert_swap d c cs h)

perm-All : (P : Comment → Type 0) {cs ds : List Comment} → Permᴰ cs ds → All P cs → All P ds
perm-All P Permᴰ.nil h = tt
perm-All P (Permᴰ.cons e p) (first, h) = (subst P e first, perm-All P p h)
perm-All P (Permᴰ.swap e f) (first, (second, h)) = (subst P f second, (subst P e first, h))
perm-All P (Permᴰ.trans p q) h = perm-All P q (perm-All P p h)

perm-NoTies : {cs ds : List Comment} → Permᴰ cs ds → NoTies cs → NoTies ds
perm-NoTies Permᴰ.nil h = tt
perm-NoTies (Permᴰ.cons {a = a} {l₂ = l} e p) (apart, h) =
    (subst (λ c. All (Apart c) l) e (perm-All (Apart a) p apart), perm-NoTies p h)
perm-NoTies (Permᴰ.swap {a = a} {b = b} {b' = b'} {l = l} e f) ((ab, al), (bl, h)) =
    subst (λ x. NoTies (x ∷ b' ∷ l)) f
      (subst (λ y. NoTies (b ∷ y ∷ l)) e ((Apart-sym a b ab, bl), (al, h)))
perm-NoTies (Permᴰ.trans p q) h = perm-NoTies q (perm-NoTies p h)

order_perm :
    {cs ds : List Comment} → Permᴰ cs ds → NoTies cs → order_comments cs ≡ order_comments ds
unfolding order_comments
order_perm Permᴰ.nil h = refl
order_perm (Permᴰ.cons {b = b} {l₁ = l} e p) (apart, h) =
    ap (λ c. insert_comment c (order_comments l)) e ∙ ap (insert_comment b) (order_perm p h)
order_perm (Permᴰ.swap {a = a} {b = b} {a' = a'} {l = l} e f) ((ab, _), _) =
    insert-Apart a b (order_comments l) ab
    ∙ ap (λ c. insert_comment c (insert_comment a (order_comments l))) f
    ∙ ap (λ c. insert_comment a' (insert_comment c (order_comments l))) e
order_perm (Permᴰ.trans p q) h = order_perm p h ∙ order_perm q (perm-NoTies p h)

insert-head : (c : Comment) (cs : List Comment) → IsHead c cs → insert_comment c cs ≡ c ∷ cs
unfolding insert_comment
insert-head c [] h = refl
insert-head c (d ∷ ds) h = rw h refl

-- What is in order is left as it is.
order_ordered : (cs : List Comment) → IsOrdered cs → order_comments cs ≡ cs
unfolding order_comments
order_ordered [] h = refl
order_ordered (c ∷ cs) (first, h) =
    ap (insert_comment c) (order_ordered cs h) ∙ insert-head c cs first

-- The rows in order are the one arrangement.
pub arranged :
    {arrange : List Comment → List Comment} (cs : List Comment)
    → Sorts arrange
    → NoTies cs
    → arrange cs ≡ order_comments cs
arranged {arrange} cs sorts apart =
    sym (order_ordered (arrange cs) (sorts.orders cs)) ∙ sym (order_perm (sorts.keeps cs) apart)
