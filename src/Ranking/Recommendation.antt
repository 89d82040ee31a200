-- ===== src/Ranking/Recommendation.antt =====
-- The reading side of the ranking: the rows of `ranking_scores` that are current, and the one that is
-- recommended (ranking.constants.ts, ranking-engine.service.ts, active-ranking-engine.service.ts).
-- A score is the number of ten-thousandths that the column Decimal(10, 4) holds.
pub mod Laws
pub mod Current
use content_hub.Base.{
  ℕ, ◌+◌, Bool, true, false, not, ◌&&◌, ◌||◌, List, [], ◌∷◌, ◌++◌, Option, none, some, ltb, ◌==◌,
  if◌then◌else◌, any, keep,
}
use content_hub.Schema.{
  AssetPlatform, facebook, youtube, tiktok, line_oa, asset_index, EngineVersion, same_engine,
}

pub record Score : Type 0 where
  pub id : ℕ
  pub content_id : ℕ
  pub platform : AssetPlatform
  pub score : ℕ
  pub engine_version : EngineVersion
  pub computed_at : ℕ

abbrev pub same_platform : AssetPlatform → AssetPlatform → Bool
same_platform p q = asset_index p == asset_index q

-- `RANKED_PLATFORMS`
abbrev pub ranked_platforms : List AssetPlatform
ranked_platforms = facebook ∷ youtube ∷ []

-- `PLATFORM_TIE_BREAK_ORDER`
abbrev pub platform_tie_break_order : List AssetPlatform
platform_tie_break_order = ranked_platforms ++ tiktok ∷ line_oa ∷ []

-- `Number.MAX_SAFE_INTEGER`
abbrev pub max_safe_integer : ℕ
max_safe_integer = 9007199254740991

-- `rank`: the index in the list, from `i` on, or the greatest safe integer.
rank_from : ℕ → List AssetPlatform → AssetPlatform → ℕ
rank_from i [] platform = max_safe_integer
rank_from i (p ∷ ps) platform =
    if same_platform p platform then i else rank_from (i + 1) ps platform

unfoldable pub rank : AssetPlatform → ℕ
unfolding rank_from
rank platform = rank_from 0 platform_tie_break_order platform

-- The callback of `scores.reduce` in `pickRecommendedScore`.
unfoldable pub better : Score → Score → Score
better best row =
    if ltb best.score row.score
    then row
    else if ltb row.score best.score
    then best
    else if ltb (rank row.platform) (rank best.platform)
    then row
    else best

unfoldable pub reduce_scores : Score → List Score → Score
reduce_scores best [] = best
reduce_scores best (row ∷ rows) = reduce_scores (better best row) rows

-- `pickRecommendedScore`
unfoldable pub pick_recommended_score : List Score → Option Score
pick_recommended_score [] = none
pick_recommended_score (s ∷ rest) = some (reduce_scores s rest)

-- The loop of `latestScorePerPlatform`; the map keeps its entries in the order of insertion.
unfoldable pub latest_loop : List Score → List Score → List Score
latest_loop latest [] = latest
latest_loop latest (row ∷ rows) =
    latest_loop
      (if any (λ s. same_platform s.platform row.platform) latest
        then latest
        else latest ++ row ∷ [])
      rows

-- `latestScorePerPlatform`
unfoldable pub latest_score_per_platform : List Score → List Score
latest_score_per_platform rows = latest_loop [] rows

-- `LATEST_SCORE_ORDER_BY`: `computed_at` descending, then `platform` ascending.
unfoldable pub comes_before : Score → Score → Bool
comes_before r s =
    ltb s.computed_at r.computed_at
    || (r.computed_at == s.computed_at && ltb (asset_index r.platform) (asset_index s.platform))

insert_row : Score → List Score → List Score
insert_row r [] = r ∷ []
insert_row r (s ∷ rows) = if comes_before s r then s ∷ insert_row r rows else r ∷ s ∷ rows

unfoldable pub order_rows : List Score → List Score
unfolding insert_row
order_rows [] = []
order_rows (r ∷ rows) = insert_row r (order_rows rows)

-- `getLatestScores`, with the active engine and the table as arguments.
unfoldable pub get_latest_scores : EngineVersion → ℕ → List Score → List Score
get_latest_scores version content_id table = latest_score_per_platform (
    order_rows
      (keep (λ s. s.content_id == content_id && same_engine s.engine_version version) table))

-- `getRecommendation`
unfoldable pub get_recommendation : EngineVersion → ℕ → List Score → Option Score
get_recommendation version content_id table =
    pick_recommended_score (get_latest_scores version content_id table)
