-- ===== src/Publish/Store.antt =====
-- What the publish services share: the tables that they read and write, the audit log, the queue, and
-- what a request is given from outside (the clock, a fresh key, argon2, the configured engine).
-- An audit row is kept with its actor, action, result and the post that its meta names; the queue is
-- the list of the jobs that were added to it.
use content_hub.Base.{
  ℕ, Bool, true, false, List, [], ◌∷◌, Option, none, some, String, ◌==◌, ◌&&◌, if◌then◌else◌, find,
  ltb, keep,
}
use content_hub.Schema.{Platform, platform_index, EngineVersion}
use content_hub.Content.Records.{Content}
use content_hub.Ranking.Recommendation.{Score}
use content_hub.Publish.Posts.{Post}

pub data AuditAction : Type 0 where
  publish_attempt_started manual_external_post_recorded publish_succeeded publish_failed :
      AuditAction
  publish_unconfirmed publish_ambiguity_resolved : AuditAction
  comment_reply_failed comment_reply_sent commerce_placement_recorded : AuditAction
  commerce_product_created commerce_product_updated commerce_product_retired : AuditAction
  affiliate_link_created affiliate_link_retired product_anchor_recorded : AuditAction
  product_anchor_removed commerce_conversion_added comment_sync_run : AuditAction
  comment_retention_purged comment_erased ad_campaign_created ad_campaign_updated : AuditAction
  ad_campaign_retired ad_performance_entry_added : AuditAction

pub record AuditEntry : Type 0 where
  pub actor : ℕ
  pub action : AuditAction
  pub success : Bool
  pub post_id : Option ℕ

-- `PublishJobData`, with the version that its `jobId` carries.
pub record Job : Type 0 where
  pub post_id : ℕ
  pub requested_by : ℕ
  pub connected_account_id : ℕ
  pub job_version : ℕ

pub record User : Type 0 where
  pub id : ℕ
  pub password_hash : String

pub data AccountStatus : Type 0 where
  connected disconnected expired revoked : AccountStatus

pub record ConnectedAccount : Type 0 where
  pub id : ℕ
  pub user_id : ℕ
  pub platform : Platform
  pub status : AccountStatus
  pub connected_at : ℕ

pub record Store : Type 0 where
  pub posts : List Post
  pub contents : List Content
  pub users : List User
  pub accounts : List ConnectedAccount
  pub scores : List Score
  pub audit : List AuditEntry
  pub queue : List Job

-- `verify hash password` is `argon2.verify`, `none` where it throws. `queue_up` is whether the queue answers
-- when a job is added to it; `Queue.add` rejects if it does not.
pub record Ports : Type 0 where
  pub now : ℕ
  pub new_id : ℕ
  pub verify : String → String → Option Bool
  pub engine : EngineVersion
  pub queue_up : Bool

-- `this.auditLog.record`, which never fails its caller.
unfoldable pub record_audit : AuditEntry → Store → Store
record_audit e s = record s { audit = e ∷ s.audit }

abbrev pub audit_row : ℕ → AuditAction → Bool → Option ℕ → AuditEntry
audit_row actor action success post_id = record {
  actor = actor;
  action = action;
  success = success;
  post_id = post_id;
}

abbrev pub is_connected : AccountStatus → Bool
is_connected connected = true
is_connected _ = false

-- `orderBy: { connectedAt: 'desc' }`, first row
newest_account : List ConnectedAccount → Option ConnectedAccount
newest_account [] = none
newest_account (a ∷ rest) = elim (newest_account rest) [
  | none ↦ some a
  | some b ↦ if ltb a.connected_at b.connected_at then some b else some a
]

-- `connectedAccount.findFirst({ where: { userId, platform, status: 'connected' }, … })`
unfoldable pub find_connected_account :
    ℕ → Platform → List ConnectedAccount → Option ConnectedAccount
unfolding newest_account
find_connected_account user platform accounts = newest_account (
    keep
      (λ a.
        a.user_id == user
        && platform_index a.platform == platform_index platform
        && is_connected a.status)
      accounts)

unfoldable pub find_user : ℕ → List User → Option User
find_user id users = find (λ u. u.id == id) users

unfoldable pub find_account : ℕ → List ConnectedAccount → Option ConnectedAccount
find_account id accounts = find (λ a. a.id == id) accounts
