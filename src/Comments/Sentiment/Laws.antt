-- ===== src/Comments/Sentiment/Laws.antt =====
-- Terms in the parts of a text.
use content_hub.Base.{
  ℕ, ◌≡◌, refl, sym, ◌∙◌, ap, true, List, [], ◌∷◌, ◌++◌, String, arith, any, Bool-cases, inl, inr,
}
use mathlib.Core.List.{append_assoc}
use content_hub.Content.Gate.Trim.{codes}
use content_hub.Comments.Sentiment.{lower_code, to_lower_case, starts_with, contains, hits}

to_lower_case-append : (a b : List ℕ) → to_lower_case (a ++ b) ≡ to_lower_case a ++ to_lower_case b
unfolding to_lower_case
to_lower_case-append [] b = refl
to_lower_case-append (c ∷ a) b =
    ap (λ r. lower_code c ++ r) (to_lower_case-append a b)
    ∙ sym (append_assoc (lower_code c) (to_lower_case a) (to_lower_case b))

starts_with-append :
    (term a b : List ℕ) → starts_with term a ≡ true → starts_with term (a ++ b) ≡ true
unfolding starts_with
starts_with-append [] a b h = refl
starts_with-append (t ∷ term) [] b h = cc
starts_with-append (t ∷ term) (c ∷ a) b h = ground (arith, starts_with-append term a b)

contains-front : (term a b : List ℕ) → contains term b ≡ true → contains term (a ++ b) ≡ true
unfolding contains
contains-front term [] b h = h
contains-front term (c ∷ a) b h = ground (arith, contains-front term a b h)

starts_with-contains : (term b : List ℕ) → starts_with term b ≡ true → contains term b ≡ true
unfolding contains
starts_with-contains term [] h = h
starts_with-contains term (c ∷ b) h = ground arith

contains-back : (term a b : List ℕ) → contains term a ≡ true → contains term (a ++ b) ≡ true
unfolding contains
contains-back term [] b h = starts_with-contains term b (starts_with-append term [] b h)
contains-back term (c ∷ a) b h = elim (Bool-cases (starts_with term (c ∷ a))) [
  | inl here ↦ starts_with-contains term (c ∷ (a ++ b)) (starts_with-append term (c ∷ a) b here)
  | inr later ↦ ground (arith, contains-back term a b)
]

-- A hit in a part of the text is a hit in the text.
pub hits_within :
    (a t b : List ℕ) (term : String)
    → hits (to_lower_case t) term ≡ true
    → hits (to_lower_case (a ++ t ++ b)) term ≡ true
unfolding hits
hits_within a t b term h =
    let needle = to_lower_case (codes term) in
    ap (contains needle)
      (to_lower_case-append (a ++ t) b ∙ ap (λ r. r ++ to_lower_case b) (to_lower_case-append a t))
    ∙ contains-back needle (to_lower_case a ++ to_lower_case t) (to_lower_case b)
        (contains-front needle (to_lower_case a) (to_lower_case t) h)

pub any-hits_within :
    (a t b : List ℕ) (terms : List String)
    → any (hits (to_lower_case t)) terms ≡ true
    → any (hits (to_lower_case (a ++ t ++ b))) terms ≡ true
any-hits_within a t b [] h = cc
any-hits_within a t b (term ∷ terms) h =
    ground (arith, hits_within a t b term, any-hits_within a t b terms)
