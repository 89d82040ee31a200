-- ===== src/Ranking/Tests.antt =====
-- The recommendation on small tables of scores.
use content_hub.Base.{◌≡◌, refl, List, [], ◌∷◌, some, All, Among}
use content_hub.Schema.{facebook, youtube, v1, v2}
use content_hub.Ranking.Recommendation.{
  Score, pick_recommended_score, latest_score_per_platform, get_latest_scores, get_recommendation,
  latest_loop, order_rows, reduce_scores, better, rank, comes_before,
}
use content_hub.Ranking.Recommendation.Laws.{Beats, pick_recommended_score-best}
use content_hub.Ranking.Recommendation.Current.{IsCurrent, get_latest_scores-IsCurrent}

abbrev on_youtube : Score
on_youtube = record {
  id = 1;
  content_id = 3;
  platform = youtube;
  score = 70;
  engine_version = v1;
  computed_at = 10;
}

abbrev on_facebook : Score
on_facebook = record {
  id = 2;
  content_id = 3;
  platform = facebook;
  score = 70;
  engine_version = v1;
  computed_at = 9;
}

abbrev stale : Score
stale = record {
  id = 3;
  content_id = 3;
  platform = youtube;
  score = 95;
  engine_version = v1;
  computed_at = 4;
}

abbrev shadow : Score
shadow = record {
  id = 4;
  content_id = 3;
  platform = youtube;
  score = 99;
  engine_version = v2;
  computed_at = 12;
}

abbrev table : List Score
table = stale ∷ on_youtube ∷ shadow ∷ on_facebook ∷ []

-- The stale row and the row of the other engine do not count, and Facebook wins the tie.
recommended : get_recommendation v1 3 table ≡ some on_facebook
unfolding get_recommendation get_latest_scores latest_score_per_platform pick_recommended_score
    latest_loop order_rows reduce_scores better rank comes_before
recommended = refl

pick_recommended_score-best_example :
    (best : Score) × (pick_recommended_score (on_youtube ∷ on_facebook ∷ []) ≡ some best)
    × Among best (on_youtube ∷ on_facebook ∷ [])
    × All (Beats best) (on_youtube ∷ on_facebook ∷ [])
pick_recommended_score-best_example = pick_recommended_score-best on_youtube (on_facebook ∷ [])

get_latest_scores-IsCurrent_example : IsCurrent v1 3 table (get_latest_scores v1 3 table)
get_latest_scores-IsCurrent_example = get_latest_scores-IsCurrent v1 3 table
