-- ===== src/Ranking/Recommendation/Current.antt =====
-- Which rows are current: the newest of each platform, of the active engine alone.
mod Order
use mathlib.Core.Path.{subst}
use content_hub.Base.{
  ℕ, ◌≤◌, ◌≡◌, ◌≢◌, refl, ◌⊎◌, inl, inr, Bool, true, false, List, [], ◌∷◌, ◌++◌, Option, none, some,
  All, All-map, All-append, All-keep, All-diagonal, keep-All, Among, any, find, keep, arith, ◌==◌,
  ◌&&◌, Bool-cases, Option-cases, ==_refl,
}
use content_hub.Schema.{AssetPlatform, asset_index, asset_same_iff, EngineVersion, same_engine}
use content_hub.Ranking.Recommendation.{
  Score, latest_loop, latest_score_per_platform, order_rows, get_latest_scores,
}
use Order.{on, Ordered, order_rows-Ordered, All-order_rows, order_rows-All, Newest, Ordered-Newest}

abbrev or_else : Option Score → Option Score → Option Score
or_else none r = r
or_else (some s) r = some s

find-append :
    (k : ℕ) (xs ys : List Score)
    → find (on k) (xs ++ ys) ≡ or_else (find (on k) xs) (find (on k) ys)
find-append k [] ys = refl
find-append k (x ∷ xs) ys = ground (arith, find-append k xs ys)

any-find : (k : ℕ) (xs : List Score) → any (on k) xs ≡ true → find (on k) xs ≢ none
any-find k [] h = cc
any-find k (x ∷ xs) h = ground (arith, any-find k xs)

-- The loop keeps the first row of each platform.
find-latest_loop :
    (k : ℕ) (latest rows : List Score)
    → find (on k) (latest_loop latest rows) ≡ or_else (find (on k) latest) (find (on k) rows)
unfolding latest_loop
find-latest_loop k latest [] = ground arith
find-latest_loop k latest (row ∷ rows) =
    elim (Bool-cases (any (on (asset_index row.platform)) latest)) [
      | inl old ↦ rw old (ground (arith, find-latest_loop k latest rows, any-find k latest))
      | inr new ↦ rw new (
          ground
            (arith, find-latest_loop k (latest ++ row ∷ []) rows, find-append k latest (row ∷ [])))
    ]

-- No row of `rows` is for the platform of `s`.
abbrev Apart : Score → List Score → Type 0
Apart s = All (λ r. on (asset_index s.platform) r ≡ false)

-- At most one row for each platform.
abbrev pub OnePerPlatform : List Score → Type 0
OnePerPlatform [] = Unit
OnePerPlatform (s ∷ rows) = Apart s rows × OnePerPlatform rows

Apart-symm :
    (s r : Score) → on (asset_index s.platform) r ≡ false → on (asset_index r.platform) s ≡ false
Apart-symm s r h = ground arith

append-OnePerPlatform :
    (row : Score) (latest : List Score)
    → any (on (asset_index row.platform)) latest ≡ false
    → OnePerPlatform latest
    → OnePerPlatform (latest ++ row ∷ [])
append-OnePerPlatform row [] h o = (tt, tt)
append-OnePerPlatform row (s ∷ latest) h o = (
  All-append (λ r. on (asset_index s.platform) r ≡ false) latest (row ∷ []) o.0
      (Apart-symm row s (ground arith), tt),
  append-OnePerPlatform row latest (ground arith) o.1,
)

latest_loop-OnePerPlatform :
    (latest rows : List Score) → OnePerPlatform latest → OnePerPlatform (latest_loop latest rows)
unfolding latest_loop
latest_loop-OnePerPlatform latest [] o = o
latest_loop-OnePerPlatform latest (row ∷ rows) o =
    elim (Bool-cases (any (on (asset_index row.platform)) latest)) [
      | inl old ↦ rw old (latest_loop-OnePerPlatform latest rows o)
      | inr new ↦ rw new (
          latest_loop-OnePerPlatform (latest ++ row ∷ []) rows
            (append-OnePerPlatform row latest new o))
    ]

latest_loop-All :
    (P : Score → Type 0) (latest rows : List Score)
    → All P latest
    → All P rows
    → All P (latest_loop latest rows)
unfolding latest_loop
latest_loop-All P latest [] h k = h
latest_loop-All P latest (row ∷ rows) h k =
    elim (Bool-cases (any (on (asset_index row.platform)) latest)) [
      | inl old ↦ rw old (latest_loop-All P latest rows h k.1)
      | inr new ↦ rw new (
          latest_loop-All P (latest ++ row ∷ []) rows (All-append P latest (row ∷ []) h (k.0, tt))
            k.1)
    ]

-- A row that the query for a content and an engine returns.
abbrev pub Queried : EngineVersion → ℕ → Score → Type 0
Queried version content_id s = (s.content_id ≡ content_id) × (s.engine_version ≡ version)

unfoldable pub query : EngineVersion → ℕ → Score → Bool
query version content_id s = s.content_id == content_id && same_engine s.engine_version version

keep-Queried :
    (version : EngineVersion) (content_id : ℕ) (table : List Score)
    → All (Queried version content_id) (keep (query version content_id) table)
unfolding query
keep-Queried version content_id [] = tt
keep-Queried version content_id (s ∷ table) = ground (arith, keep-Queried version content_id table)

-- The rows of the query, each no newer than the row that is found for its platform.
rows-Newest :
    (rows : List Score)
    → All
        (λ r.
          Newest (asset_index r.platform) (find (on (asset_index r.platform)) (order_rows rows)) r)
        rows
rows-Newest rows = All-order_rows _ rows (
    All-diagonal (λ k r. Newest k (find (on k) (order_rows rows)) r) (λ r. asset_index r.platform)
      (order_rows rows) (λ k. Ordered-Newest k (order_rows rows) (order_rows-Ordered rows)))

-- The list has a row of the same platform that is no older.
abbrev pub Outlasts : List Score → Score → Type 0
Outlasts latest r =
    (s : Score) × Among s latest × (s.platform ≡ r.platform) × (r.computed_at ≤ s.computed_at)

find-Among :
    (k : ℕ) (xs : List Score) {s : Score} → find (on k) xs ≡ some s → Among s xs × (on k s ≡ true)
find-Among k [] e = cc
find-Among k (x ∷ xs) {s} e = ground (arith, find-Among k xs {s = s})

Newest-Outlasts :
    (latest : List Score) (r : Score) (o : Option Score)
    → find (on (asset_index r.platform)) latest ≡ o
    → Newest (asset_index r.platform) o r
    → Outlasts latest r
Newest-Outlasts latest r none e h = absurd (ground arith)
Newest-Outlasts latest r (some s) e h =
    let (among, hit) = find-Among (asset_index r.platform) latest e in
    (s, among, (asset_same_iff s.platform r.platform).0 hit, h (==_refl (asset_index r.platform)))

-- What the reads are to return: rows of the asked content and of the active engine, one at most for
-- each platform, and for each such row of the table one of its platform that is no older.
pub record IsCurrent (version : EngineVersion) (content_id : ℕ) (table latest : List Score)
    : Type 0 where
  pub asked : All (Queried version content_id) latest
  pub single : OnePerPlatform latest
  pub newest : All (Outlasts latest) (keep (query version content_id) table)

-- The scores that the reads work with are of the asked content and of the active engine, one at most
-- for each platform, and each such row of the table has a row of its platform among them that is no
-- older.
pub get_latest_scores-IsCurrent :
    (version : EngineVersion) (content_id : ℕ) (table : List Score)
    → IsCurrent version content_id table (get_latest_scores version content_id table)
unfolding get_latest_scores latest_score_per_platform query
get_latest_scores-IsCurrent version content_id table = record {
  asked =
      latest_loop-All (Queried version content_id) [] (order_rows kept) tt
        (order_rows-All _ kept (keep-Queried version content_id table));
  single = latest_loop-OnePerPlatform [] (order_rows kept) tt;
  newest =
      All-map
        (λ r found.
          Newest-Outlasts _ r _ (find-latest_loop (asset_index r.platform) [] (order_rows kept))
            found)
        kept (rows-Newest kept);
}
  where
    kept : List Score
    kept = keep (query version content_id) table
