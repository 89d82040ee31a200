-- ===== src/Comments/Reply.antt =====
-- backend/src/modules/comments/comment-reply.service.ts: the reply to a comment, from the step-up to the
-- stored outcome. What the request meets outside is its `ReplyEnv`; the replies that the platform has are
-- listed by the comments that they answer.
pub mod Laws
mod Tests
use content_hub.Base.{
  ℕ, Bool, true, false, not, ◌&&◌, List, [], ◌∷◌, Option, none, some, String, ◌==◌, if◌then◌else◌,
  find, length, is_none,
}
use content_hub.Base.Effects.{
  M, Result, ok, err, feed, ◌>>=◌, ◌>>◌, return, ensure, Exn, not_found, conflict, database,
  unauthorized,
}
use content_hub.Schema.{Platform, platform_index}
use content_hub.Content.Gate.Trim.{codes}
use content_hub.Comments.Records.{Comment}
use content_hub.Publish.Posts.{find_post}
use content_hub.Publish.Store.{
  Store, Ports, ConnectedAccount, comment_reply_failed, comment_reply_sent, record_audit, audit_row,
  is_connected,
}
use content_hub.Publish.StepUp.{assert_fresh_password}

pub record Inbox : Type 0 where
  pub store : Store
  pub comments : List Comment
  pub sent : List ℕ

-- The token, or none where `getValidToken` throws; the platform's id of the reply, or none where
-- `replyComment` throws, with the truth whether the platform has the reply; whether the last update goes
-- through; and whether the update goes through that rolls the claim back.
pub record ReplyEnv : Type 0 where
  pub token : Option String
  pub reply_external_id : Option String
  pub has_reply : Bool
  pub stores : Bool
  pub rolls_back : Bool

unfoldable pub find_comment : ℕ → List Comment → Option Comment
find_comment id [] = none
find_comment id (c ∷ cs) = if c.id == id then some c else find_comment id cs

-- The rows after an update of the row with the key, with the rest of the condition as a test.
unfoldable pub update_comments :
    ℕ → (Comment → Bool) → (Comment → Comment) → List Comment → List Comment
update_comments id where_ data_ [] = []
update_comments id where_ data_ (c ∷ cs) =
    if c.id == id
    then (if where_ c then data_ c else c) ∷ cs
    else c ∷ update_comments id where_ data_ cs

-- The condition and the data of the claim, and the data of its rollback.
unfoldable pub unreplied : Comment → Bool
unreplied c = is_none c.replied_at

unfoldable pub set_replied : ℕ → ℕ → Comment → Comment
set_replied now user_id c = record c { replied_at = some now; replied_by = some user_id }

unfoldable pub clear_replied : Comment → Comment
clear_replied c = record c { replied_at = none; replied_by = none }

unfoldable pub set_reply : String → String → Comment → Comment
set_reply message external c = record c {
  reply_text = some message;
  reply_external_id = some external;
}

-- The step-up, on the store of the publish flow.
abbrev pub on_store : {A : Type 0} → M Store A → M Inbox A
on_store m s = ((m s.store).0, record s { store = (m s.store).1 })

unfoldable pub load_comment : ℕ → M Inbox Comment
load_comment id s = elim (find_comment id s.comments) [
  | none ↦ (err not_found, s)
  | some c ↦ (ok c, s)
]

abbrev pub count_of : Option Comment → ℕ
count_of none = 0
count_of (some c) = if unreplied c then 1 else 0

-- The claim by the conditional update.
unfoldable pub claim_reply : ℕ → ℕ → ℕ → M Inbox (Unit {0})
claim_reply now comment_id user_id s =
    let rows = update_comments comment_id unreplied (set_replied now user_id) s.comments in
    if count_of (find_comment comment_id s.comments) == 0
    then (err conflict, record s { comments = rows })
    else (ok tt, record s { comments = rows })

-- A null or empty `externalCommentId` counts as missing.
abbrev pub has_external_id : Option String → Bool
has_external_id none = false
has_external_id (some id) = not (length (codes id) == 0)

abbrev pub load_post : Comment → M Inbox (Unit {0})
load_post comment s = elim (find_post comment.post_id s.store.posts) [
  | none ↦ (err not_found, s)
  | some post ↦ (ok tt, s)
]

abbrev pub load_account : Comment → ℕ → M Inbox (Unit {0})
load_account comment user_id s =
    elim (find
      (λ a.
        a.user_id == user_id
        && platform_index a.platform == platform_index comment.platform
        && is_connected a.status)
      s.store.accounts) [ none ↦ (err conflict, s) | some account ↦ (ok tt, s) ]

abbrev pub get_token : ReplyEnv → M Inbox (Unit {0})
get_token env s = elim env.token [ none ↦ (err unauthorized, s) | some token ↦ (ok tt, s) ]

-- `adapter.replyComment`
abbrev pub reply_comment : ReplyEnv → Comment → M Inbox String
reply_comment env comment s =
    let sent = if env.has_reply then comment.id ∷ s.sent else s.sent in
    elim env.reply_external_id [
      | none ↦ (err database, record s { sent = sent })
      | some external ↦ (ok external, record s { sent = sent })
    ]

-- `comment.update`, which returns the row.
unfoldable pub store_reply : ReplyEnv → ℕ → String → String → M Inbox Comment
store_reply env comment_id message external s =
    let rows = update_comments comment_id (λ _. true) (set_reply message external) s.comments in
    if env.stores
    then (elim (find_comment comment_id rows) [
      | none ↦ (err database, s)
      | some c ↦ (ok c, record s { comments = rows })
    ])
    else (err database, s)

-- `dispatchReply`
unfoldable pub dispatch_reply : ReplyEnv → Comment → String → ℕ → M Inbox Comment
dispatch_reply env comment message user_id = do
  load_post comment
  load_account comment user_id
  ensure (has_external_id comment.external_comment_id) conflict
  get_token env
  external ← reply_comment env comment
  store_reply env comment.id message external

-- The `try` and `catch` of `reply`. A rollback that fails throws from the `catch`, before the audit row.
unfoldable pub conclude : ReplyEnv → ℕ → ℕ → Result Comment × Inbox → Result Comment × Inbox
conclude env comment_id user_id (ok c, s) = (
  ok c,
  record s { store = record_audit (audit_row user_id comment_reply_sent true none) s.store },
)
conclude env comment_id user_id (err e, s) =
    if env.rolls_back
    then (
      err e,
      record s {
        comments = update_comments comment_id (λ _. true) clear_replied s.comments;
        store = record_audit (audit_row user_id comment_reply_failed false none) s.store;
      },
    )
    else (err database, s)

-- `reply`
unfoldable pub reply : Ports → ReplyEnv → ℕ → String → String → ℕ → M Inbox Comment
reply ports env comment_id message password user_id = do
  on_store (assert_fresh_password ports user_id password comment_reply_failed)
  comment ← load_comment comment_id
  ensure comment.replyable conflict
  ensure (unreplied comment) conflict
  claim_reply ports.now comment_id user_id
  λ s. conclude env comment_id user_id (dispatch_reply env comment message user_id s)
