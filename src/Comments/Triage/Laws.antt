-- ===== src/Comments/Triage/Laws.antt =====
-- What the priority says about a text.
use content_hub.Base.{ℕ, ◌≡◌, refl, inl, inr, true, List, ◌++◌, Option, arith, Bool-cases}
use content_hub.Comments.Records.{Sentiment, spam}
use content_hub.Comments.Sentiment.{to_lower_case}
use content_hub.Comments.Sentiment.Laws.{any-hits_within}
use content_hub.Comments.Triage.{spam_terms, contains_any, classify_priority}

-- The priority is spam exactly if a term of spam occurs.
spam_hit :
    (text : List ℕ) (sentiment : Option Sentiment)
    → classify_priority text sentiment ≡ spam
    → contains_any (to_lower_case text) spam_terms ≡ true
unfolding classify_priority
spam_hit text sentiment h = elim (Bool-cases (contains_any (to_lower_case text) spam_terms)) [
  | inl hit ↦ hit
  | inr clean ↦ absurd (ground arith)
]

-- Spam stays spam: whatever stands before and after a text of spam, and whatever the sentiments are, the
-- whole is spam.
pub spam_spreads :
    (a text b : List ℕ) (sentiment sentiment' : Option Sentiment)
    → classify_priority text sentiment ≡ spam
    → classify_priority (a ++ text ++ b) sentiment' ≡ spam
unfolding classify_priority contains_any
spam_spreads a text b sentiment sentiment' h =
    rw (any-hits_within a text b spam_terms (spam_hit text sentiment h)) refl
