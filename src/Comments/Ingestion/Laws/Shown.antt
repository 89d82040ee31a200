-- ===== src/Comments/Ingestion/Laws/Shown.antt =====
-- What a platform shows of a post, and the table of comments after a sync.
use content_hub.Base.{ℕ, ◌≡◌, sym, inl, inr, true, List, [], ◌∷◌, some, All, Among}
use mathlib.Core.Path.{subst}
use content_hub.Base.Effects.{ok}
use content_hub.Publish.Posts.{Post}
use content_hub.Publish.Store.{ConnectedAccount}
use content_hub.Comments.Records.{Comment}
use content_hub.Comments.Ingestion.{
  CommentSnapshot, SyncEnv, Feed, account_of, eligible_posts, CommentSyncResult, sync_comments,
}
use content_hub.Comments.Ingestion.Laws.{Seen, IsPresent, persists}
use content_hub.Comments.Ingestion.Laws.Posts.{SeenPost, SeenAll}
use content_hub.Comments.Ingestion.Laws.Resync.{settled}

SeenAll-Among :
    (env : SyncEnv) (posts : List Post) (user_id : ℕ) (accounts : List ConnectedAccount)
    (cs : List Comment) (post : Post)
    → SeenAll env posts user_id accounts cs
    → Among post posts
    → SeenPost env (account_of post user_id accounts) post cs
SeenAll-Among env [] user_id accounts cs post h m = absurd m
SeenAll-Among env (p ∷ ps) user_id accounts cs post (h, hs) (inl e) =
    subst (λ q. SeenPost env (account_of q user_id accounts) q cs) (sym e) h
SeenAll-Among env (p ∷ ps) user_id accounts cs post (h, hs) (inr m) =
    SeenAll-Among env ps user_id accounts cs post hs m

Seen-Among :
    (env : SyncEnv) (post : Post) (xs : List CommentSnapshot) (cs : List Comment)
    (x : CommentSnapshot)
    → Seen env post xs cs
    → All (λ y. persists env y ≡ true) xs
    → Among x xs
    → IsPresent post x cs
Seen-Among env post [] cs x h goes m = absurd m
Seen-Among env post (y ∷ xs) cs x h (go, goes) (inl e) =
    subst (λ z. IsPresent post z cs) (sym e) (h go).0
Seen-Among env post (y ∷ xs) cs x h (go, goes) (inr m) = Seen-Among env post xs cs x (h go).1 goes m

-- When a sync has returned, every comment that the platform shows of a published post is in the table, if an account
-- is connected for the post and none of the comments shown fails to be classified and stored; a comment
-- that was deleted before the sync is in it again.
pub sync_comments-IsPresent :
    (env : SyncEnv) (user_id : ℕ) (s t : Feed) (result : CommentSyncResult) (post : Post)
    (xs : List CommentSnapshot) (x : CommentSnapshot) {account : ConnectedAccount}
    → sync_comments env user_id s ≡ (ok result, t)
    → Among post (eligible_posts t.store.posts)
    → account_of post user_id t.store.accounts ≡ some account
    → env.fetch post ≡ some xs
    → All (λ y. persists env y ≡ true) xs
    → Among x xs
    → IsPresent post x t.desk.comments
sync_comments-IsPresent env user_id s t result post xs x {account} h published found shown goes m =
    let all = (settled env user_id s t result h).seen in
    let seen = SeenAll-Among env _ user_id t.store.accounts t.desk.comments post all published in
    Seen-Among env post xs t.desk.comments x
      (subst (λ o. SeenPost env o post t.desk.comments) found seen xs shown) goes m
