-- ===== src/Comments/Sentiment.antt =====
-- backend/src/modules/comments/sentiment: the terms, and the rule-based classifier of the sentiment of a comment. A text
-- is the list of its code points.
pub mod Laws
use content_hub.Base.{
  ℕ, ◌+◌, Bool, true, false, not, ◌&&◌, ◌||◌, List, [], ◌∷◌, ◌++◌, String, ◌==◌, leb, ltb, any,
  if◌then◌else◌,
}
use content_hub.Content.Gate.Trim.{codes}
use content_hub.Comments.Records.{Sentiment, positive, neutral, negative}

-- `toLowerCase`, as far as a search for a term can see it: the terms hold no letters but small ones of ASCII and
-- Thai ones, which have no case. Of the other characters only U+0130 and U+212A have a small letter with
-- such a letter in it.
unfoldable pub lower_code : ℕ → List ℕ
lower_code c =
    if leb 65 c && leb c 90
    then (c + 32) ∷ []
    else if c == 304
    then 105 ∷ 775 ∷ []
    else if c == 8490
    then 107 ∷ []
    else c ∷ []

unfoldable pub to_lower_case : List ℕ → List ℕ
unfolding lower_code
to_lower_case [] = []
to_lower_case (c ∷ cs) = lower_code c ++ to_lower_case cs

-- `startsWith` and `includes`
unfoldable pub starts_with : List ℕ → List ℕ → Bool
starts_with [] text = true
starts_with (t ∷ ts) [] = false
starts_with (t ∷ ts) (c ∷ cs) = t == c && starts_with ts cs

unfoldable pub contains : List ℕ → List ℕ → Bool
unfolding starts_with
contains term [] = starts_with term []
contains term (c ∷ cs) = starts_with term (c ∷ cs) || contains term cs

abbrev pub positive_terms : List String
positive_terms =
    "ดี" ∷ "ดีมาก" ∷ "ชอบ" ∷ "ประทับใจ" ∷ "สุดยอด" ∷ "เยี่ยม" ∷ "ขอบคุณ" ∷ "รัก" ∷ "ยอดเยี่ยม"
    ∷ "คุ้ม" ∷ "แนะนำ" ∷ "good" ∷ "great" ∷ "love" ∷ "excellent" ∷ "thanks" ∷ "awesome" ∷ []

abbrev pub negative_terms : List String
negative_terms =
    "แย่" ∷ "ห่วย" ∷ "ผิดหวัง" ∷ "เสีย" ∷ "โกง" ∷ "ช้า" ∷ "แพง" ∷ "เกลียด" ∷ "bad" ∷ "terrible"
    ∷ "worst" ∷ "hate" ∷ "awful" ∷ "disappointed" ∷ "scam" ∷ []

abbrev pub negation_terms : List String
negation_terms = "ไม่" ∷ "ไม่ได้" ∷ "not" ∷ "don't" ∷ "no" ∷ []

-- `haystack.includes(term.toLowerCase())`
unfoldable pub hits : List ℕ → String → Bool
unfolding contains to_lower_case
hits haystack term = contains (to_lower_case (codes term)) haystack

-- `countHits`
unfoldable pub count_hits : List ℕ → List String → ℕ
unfolding hits
count_hits haystack [] = 0
count_hits haystack (term ∷ terms) =
    (if hits haystack term then 1 else 0) + count_hits haystack terms

-- The decision of `score`, from the hits and whether a negation occurs.
unfoldable pub decide : Bool → ℕ → ℕ → Sentiment
decide negated positive_hits negative_hits =
    if negated && ltb 0 positive_hits && negative_hits == 0
    then negative
    else if negated && ltb 0 negative_hits && positive_hits == 0
    then positive
    else if ltb positive_hits negative_hits
    then negative
    else if ltb negative_hits positive_hits
    then positive
    else neutral

-- `score`
unfoldable pub score : List ℕ → Sentiment
unfolding decide count_hits contains to_lower_case
score text =
    let haystack = to_lower_case text in
    decide (any (λ term. contains (codes term) haystack) negation_terms)
      (count_hits haystack positive_terms) (count_hits haystack negative_terms)
