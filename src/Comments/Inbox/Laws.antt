-- ===== src/Comments/Inbox/Laws.antt =====
-- The pages of the inbox against the selected comments in order, and the filter on a breach against the flag of a row.
pub mod Order
pub mod Ties
use content_hub.Base.{
  ℕ, zero, suc, ◌+◌, ◌-◌, ◌*◌, ◌≤◌, ◌≡◌, refl, sym, ◌∙◌, ap, Bool, true, false, not, ◌&&◌, ◌||◌,
  inl, inr, List, [], ◌∷◌, ◌++◌, Option, none, some, arith, keep, map, length, Bool-cases,
  if◌then◌else◌, is_none, or_this, optional, ltb, ◌==◌,
}
use mathlib.Core.List.{append-nil, append_assoc, Permᴰ}
use content_hub.Comments.Records.{Comment}
use content_hub.Comments.Inbox.{
  max_page_size, ListCommentsQuery, is_due, replied_where, due_where, build_where, comes_after,
  skip, take, CommentRow, from_entity, PaginatedComments, page_size_of, list_comments,
}
use content_hub.Comments.Inbox.Laws.Order.{
  IsOrdered, Sorts, order_comments, order_comments-Sorts, order-length,
}
use content_hub.Comments.Inbox.Laws.Ties.{NoTies, arranged}

sum_suc : (m n : ℕ) → suc m + n ≡ suc (m + n)
sum_suc m n = omega arith

page_before : (n : ℕ) → suc n - 1 ≡ n
page_before n = omega arith

no_pages : (n : ℕ) → 0 ≡ 0 * n
no_pages n = omega arith

one_more_page : (n k : ℕ) → n * k + k ≡ suc n * k
one_more_page n k = omega arith

take_none : {A : Type 0} (n : ℕ) → take {A = A} n [] ≡ []
take_none zero = refl
take_none (suc n) = refl

-- The first rows of two parts.
take-add : {A : Type 0} (m n : ℕ) (xs : List A) → take (m + n) xs ≡ take m xs ++ take n (skip m xs)
take-add {A} zero n xs = ap (λ k. take {A = A} k xs) {y = n} (omega arith)
take-add (suc m) n [] = take_none (suc m + n) ∙ sym (take_none n)
take-add {A} (suc m) n (x ∷ xs) =
    ap (λ k. take {A = A} k (x ∷ xs)) (sum_suc m n) ∙ ap (λ r. x ∷ r) (take-add m n xs)

take-all : {A : Type 0} (n : ℕ) (xs : List A) → length xs ≤ n → take n xs ≡ xs
take-all n [] h = take_none n
take-all zero (x ∷ xs) h = absurd (omega (arith, h))
take-all (suc n) (x ∷ xs) h = ap (λ r. x ∷ r) (take-all n xs (omega (arith, h)))

map-append : {A B : Type 0} (f : A → B) (xs ys : List A) → map f (xs ++ ys) ≡ map f xs ++ map f ys
map-append f [] ys = refl
map-append f (x ∷ xs) ys = ap (λ r. f x ∷ r) (map-append f xs ys)

-- The rows of the first `n` pages, one after the other. Each page is a query, which the database arranges anew.
abbrev pub pages :
    (ℕ → List Comment → List Comment) → ℕ → ListCommentsQuery → ℕ → List Comment → List CommentRow
pages arrange zero query now comments = []
pages arrange (suc n) query now comments =
    pages arrange n query now comments
    ++ (list_comments (arrange (suc n)) (record query { page = some (suc n) }) now comments).items

-- The selected comments in order.
abbrev selected : ListCommentsQuery → ℕ → List Comment → List Comment
selected query now comments = order_comments (keep (build_where query now) comments)

pages_first :
    (arrange : ℕ → List Comment → List Comment) (n : ℕ) (query : ListCommentsQuery) (now : ℕ)
    (comments : List Comment)
    → ((k : ℕ) → Sorts (arrange k))
    → NoTies (keep (build_where query now) comments)
    → pages arrange n query now comments
      ≡ map (from_entity now) (take (n * page_size_of query) (selected query now comments))
unfolding list_comments build_where replied_where due_where
pages_first arrange zero query now comments sorts apart =
    ap (λ k. map (from_entity now) (take k (selected query now comments)))
      (no_pages (page_size_of query))
pages_first arrange (suc n) query now comments sorts apart =
    let size = page_size_of query in
    let rows = selected query now comments in
    let before = pages arrange n query now comments in
    let found = keep (build_where query now) comments in
    ap (λ r. before ++ map (from_entity now) (take size (skip ((suc n - 1) * size) r)))
      {x = arrange (suc n) found} {y = rows} (arranged found (sorts (suc n)) apart)
    ∙ ap (λ k. before ++ map (from_entity now) (take size (skip (k * size) rows))) (page_before n)
    ∙ ap (λ r. r ++ map (from_entity now) (take size (skip (n * size) rows)))
        (pages_first arrange n query now comments sorts apart)
    ∙ sym (map-append (from_entity now) (take (n * size) rows) (take size (skip (n * size) rows)))
    ∙ ap (map (from_entity now))
        (sym (take-add (n * size) size rows) ∙ ap (λ k. take k rows) (one_more_page n size))

-- What reading page after page gives: the selected comments, each one once, in order.
pub record IsRead (query : ListCommentsQuery) (now : ℕ) (comments : List Comment)
    (rows : List CommentRow) : Type 0 where
  pub read : List Comment
  pub shown : rows ≡ map (from_entity now) read
  pub order : IsOrdered read
  pub every : Permᴰ (keep (build_where query now) comments) read

-- If the database answers the query of each page in the order that is asked for, be it another one for each page, and no two
-- selected comments are equal in the time when they are due and in the time when they were collected, then pages that
-- have room for the total show the selected comments: every one once, those that are due earlier first, those that are
-- never due last, and of those that are due at one time the latest first.
pub pages-IsRead :
    (arrange : ℕ → List Comment → List Comment) (n : ℕ) (query : ListCommentsQuery) (now : ℕ)
    (comments : List Comment)
    → ((k : ℕ) → Sorts (arrange k))
    → NoTies (keep (build_where query now) comments)
    → (list_comments (arrange 1) query now comments).total ≤ n * page_size_of query
    → IsRead query now comments (pages arrange n query now comments)
unfolding list_comments
pages-IsRead arrange n query now comments sorts apart h =
    let found = keep (build_where query now) comments in
    record {
      read = selected query now comments;
      shown =
          pages_first arrange n query now comments sorts apart
          ∙ ap (map (from_entity now)) (
              take-all (n * page_size_of query) (selected query now comments)
                (omega (arith, h, order-length found)));
      order = order_comments-Sorts.orders found;
      every = order_comments-Sorts.keeps found;
    }

-- The filter on a breach selects, of the comments that the rest of the query selects, exactly those whose row
-- shows a breach, if the query does not ask for the replied ones.
pub breach_iff :
    (query : ListCommentsQuery) (now : ℕ) (c : Comment)
    → query.replied ≡ none
    → build_where (record query { sla_breach = some true }) now c
      ≡ (build_where (record query { sla_breach = none }) now c && (from_entity now c).sla_breach)
unfolding build_where replied_where due_where from_entity
breach_iff query now c h = ground (arith, h)
