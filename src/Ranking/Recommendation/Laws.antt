-- ===== src/Ranking/Recommendation/Laws.antt =====
-- What the recommendation means: the greatest current score, with ties by the documented order.
use content_hub.Base.{◌≤◌, ◌<◌, ◌≡◌, refl, ◌⊎◌, inl, inr, List, [], ◌∷◌, some, All, Among, arith}
use mathlib.Core.Path.{subst}
use mathlib.Core.Option.{some-injective}
use content_hub.Ranking.Recommendation.{Score, rank, better, reduce_scores, pick_recommended_score}

-- A row that loses against `best`, or ties with it.
abbrev pub Beats : Score → Score → Type 0
Beats best r =
    (r.score < best.score) ⊎ ((r.score ≡ best.score) × (rank best.platform ≤ rank r.platform))

Beats-trans : (a b c : Score) → Beats a b → Beats b c → Beats a c
Beats-trans a b c h k = omega arith

better_wins : (best row : Score) → Beats (better best row) best × Beats (better best row) row
unfolding better
better_wins best row = ground arith

reduce_scores-Beats :
    (best : Score) (rows : List Score)
    → Beats (reduce_scores best rows) best × All (Beats (reduce_scores best rows)) rows
unfolding reduce_scores
reduce_scores-Beats best [] = (inr (refl, omega arith), tt)
reduce_scores-Beats best (row ∷ rows) =
    let (top, rest) = reduce_scores-Beats (better best row) rows in
    let (over_best, over_row) = better_wins best row in
    let last = reduce_scores (better best row) rows in
    (
      Beats-trans last (better best row) best top over_best,
      (Beats-trans last (better best row) row top over_row, rest),
    )

pub pick_recommended_score-Beats :
    (scores : List Score) {best : Score}
    → pick_recommended_score scores ≡ some best
    → All (Beats best) scores
unfolding pick_recommended_score
pick_recommended_score-Beats [] e = cc
pick_recommended_score-Beats (s ∷ rest) {best} e =
    subst (λ b. All (Beats b) (s ∷ rest)) (some-injective _ _ e) (reduce_scores-Beats s rest)

better-Among : (best row : Score) → (better best row ≡ best) ⊎ (better best row ≡ row)
unfolding better
better-Among best row = ground arith

reduce_scores-Among :
    (best : Score) (rows : List Score) → Among (reduce_scores best rows) (best ∷ rows)
unfolding reduce_scores
reduce_scores-Among best [] = inl refl
reduce_scores-Among best (row ∷ rows) =
    ground (arith, reduce_scores-Among (better best row) rows, better-Among best row)

pub pick_recommended_score-Among :
    (scores : List Score) {best : Score}
    → pick_recommended_score scores ≡ some best
    → Among best scores
unfolding pick_recommended_score
pick_recommended_score-Among [] e = cc
pick_recommended_score-Among (s ∷ rest) e =
    subst (λ b. Among b (s ∷ rest)) (some-injective _ _ e) (reduce_scores-Among s rest)

-- A set of scores that is not empty has a recommended row. It is one of the rows, it has the greatest
-- score, and among the rows with that score its platform comes first in the tie-break order.
pub pick_recommended_score-best :
    (s : Score) (rest : List Score)
    → (best : Score) × (pick_recommended_score (s ∷ rest) ≡ some best)
      × Among best (s ∷ rest)
      × All (Beats best) (s ∷ rest)
unfolding pick_recommended_score
pick_recommended_score-best s rest =
    (reduce_scores s rest, refl, reduce_scores-Among s rest, reduce_scores-Beats s rest)
