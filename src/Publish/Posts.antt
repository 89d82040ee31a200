-- ===== src/Publish/Posts.antt =====
-- The `posts` table: its rows (model Post of backend/prisma/schema.prisma), the status rules of
-- backend/src/modules/publish/post-state.ts, and the statements that the services run on it. The
-- table is a list with at most one row for each primary key. Ids and times are numbers, texts that no
-- code examines are `String`s. A statement on one key is a walk to that key's row; every statement
-- that writes is checked against the partial unique index of the migration
-- 20260718000000_bugqa001_posts_active_publish_unique.
pub mod Laws
use content_hub.Base.{
  ℕ, ◌+◌, ◌≡◌, ◌↔◌, Bool, true, false, not, ◌&&◌, ◌||◌, Eq, ◌==◌, if◌then◌else◌, includes, any,
  arith, List, ◌∷◌, [], Option, none, some, String,
}
use content_hub.Schema.{AssetPlatform, Platform, platform_index}

pub data PostStatus : Type 0 where
  draft scheduled posted failed cancelled posted_unconfirmed : PostStatus

abbrev pub status_index : PostStatus → ℕ
status_index draft = 0
status_index scheduled = 1
status_index posted = 2
status_index failed = 3
status_index cancelled = 4
status_index posted_unconfirmed = 5

pub status_same_iff : (a b : PostStatus) → ((status_index a == status_index b) ≡ true) ↔ (a ≡ b)
status_same_iff a b = ground arith

instance abbrev pub post_status_eq : Eq PostStatus
post_status_eq = record {
  same = λ a b. status_index a == status_index b;
  same_iff = status_same_iff;
}

pub data PublishMethod : Type 0 where
  adapter manual_external : PublishMethod

pub record Post : Type 0 where
  pub id : ℕ
  pub content_id : ℕ
  pub platform : Platform
  pub priority_score : Option ℕ
  pub recommended_at : Option ℕ
  pub scheduled_at : Option ℕ
  pub posted_at : Option ℕ
  pub status : PostStatus
  pub executed_by : Option ℕ
  pub external_post_id : Option String
  pub version : ℕ
  pub external_post_url : Option String
  pub publish_method : PublishMethod
  pub recommended_platform : Option AssetPlatform
  pub selected_platform : Option AssetPlatform
  pub was_override : Bool
  pub override_reason : Option String
  pub ranking_score_id : Option ℕ
  pub created_at : ℕ

-- `DISPATCHABLE_STATUSES`
abbrev pub dispatchable_statuses : List PostStatus
dispatchable_statuses = draft ∷ failed ∷ []

-- `isDispatchable`
abbrev pub is_dispatchable : PostStatus → Bool
is_dispatchable status = includes dispatchable_statuses status

-- `ACTIVE_PUBLISH_STATUSES`
abbrev pub active_publish_statuses : List PostStatus
active_publish_statuses = draft ∷ scheduled ∷ posted ∷ posted_unconfirmed ∷ []

-- WHERE "status" NOT IN ('failed', 'cancelled')
abbrev pub is_indexed : PostStatus → Bool
is_indexed status = not (includes (failed ∷ cancelled ∷ []) status)

-- Two rows that the partial unique index does not let stand together.
unfoldable pub clashes : Post → Post → Bool
clashes p q =
    is_indexed p.status
    && is_indexed q.status
    && (p.content_id == q.content_id)
    && (platform_index p.platform == platform_index q.platform)

-- The partial unique index holds of the table.
unfoldable pub index_holds : List Post → Bool
index_holds [] = true
index_holds (p ∷ ps) = not (any (clashes p) ps) && index_holds ps

-- `findUnique({ where: { id } })`
unfoldable pub find_post : ℕ → List Post → Option Post
find_post id [] = none
find_post id (p ∷ ps) = if p.id == id then some p else find_post id ps

-- The rows after `updateMany({ where: { id, … }, data })`, with the rest of the condition as a test.
unfoldable pub update_rows : ℕ → (Post → Bool) → (Post → Post) → List Post → List Post
update_rows id where_ data_ [] = []
update_rows id where_ data_ (p ∷ ps) =
    if p.id == id
    then (if where_ p then data_ p else p) ∷ ps
    else p ∷ update_rows id where_ data_ ps

-- `result.count` of the same statement.
unfoldable pub update_count : ℕ → (Post → Bool) → List Post → ℕ
unfolding find_post
update_count id where_ ps = elim (find_post id ps) [ none ↦ 0 | some p ↦ if where_ p then 1 else 0 ]

-- The statement: the index is checked at its end, and a violation (P2002) undoes it.
unfoldable pub update_many : ℕ → (Post → Bool) → (Post → Post) → List Post → Option (ℕ × List Post)
update_many id where_ data_ ps =
    let rows = update_rows id where_ data_ ps in
    if index_holds rows then some (update_count id where_ ps, rows) else none

-- `create({ data })`: a key that is taken or a violation of the index raises P2002.
unfoldable pub create_post : Post → List Post → Option (List Post)
create_post p ps = elim (find_post p.id ps) [
  | some _ ↦ none
  | none ↦ if index_holds (p ∷ ps) then some (p ∷ ps) else none
]
