-- ===== src/Publish/Resolution.antt =====
-- backend/src/modules/publish/post-resolution.service.ts: the two exits from an unknown outcome.
pub mod Laws
mod Tests
use content_hub.Base.{ℕ, ◌+◌, Bool, true, ◌&&◌, none, some, String, ◌==◌, if◌then◌else◌}
use content_hub.Base.Effects.{M, ok, err, ◌>>=◌, ◌>>◌, not_found, conflict, database}
use content_hub.Publish.Posts.{
  Post, PostStatus, posted, failed, posted_unconfirmed, status_index, find_post, update_many,
}
use content_hub.Publish.Store.{Store, record_audit, audit_row, publish_ambiguity_resolved}

abbrev is_unconfirmed : PostStatus → Bool
is_unconfirmed status = status_index status == status_index posted_unconfirmed

-- The condition of `conditionalResolve`.
unfoldable pub resolvable : ℕ → Post → Bool
resolvable version p = is_unconfirmed p.status && p.version == version

unfoldable pub set_resolved_posted : ℕ → ℕ → String → Post → Post
set_resolved_posted now admin_id external_post_id p = record p {
  status = posted;
  external_post_id = some external_post_id;
  posted_at = some now;
  executed_by = some admin_id;
  version = p.version + 1;
}

unfoldable pub set_resolved_failed : ℕ → Post → Post
set_resolved_failed admin_id p = record p {
  status = failed;
  executed_by = some admin_id;
  version = p.version + 1;
}

load_unconfirmed_or_throw : ℕ → M Store Post
load_unconfirmed_or_throw post_id s = elim (find_post post_id s.posts) [
  | none ↦ (err not_found, s)
  | some post ↦ if is_unconfirmed post.status then (ok post, s) else (err conflict, s)
]

-- `conditionalResolve`, with the data as a function on the row.
conditional_resolve : Post → (Post → Post) → M Store (Unit {0})
conditional_resolve post data_ s =
    elim (update_many post.id (resolvable post.version) data_ s.posts) [
      | none ↦ (err database, s)
      | some (n, rows) ↦
          if n == 1
          then (ok tt, record s { posts = rows })
          else (err conflict, record s { posts = rows })
    ]

-- `recordResolution`
record_resolution : ℕ → ℕ → M Store Post
record_resolution post_id admin_id s =
    let s' = record_audit (audit_row admin_id publish_ambiguity_resolved true (some post_id)) s in
    elim (find_post post_id s'.posts) [ none ↦ (err database, s') | some post ↦ (ok post, s') ]

-- `resolveAsPosted`
unfoldable pub resolve_as_posted : ℕ → ℕ → String → ℕ → M Store Post
unfolding load_unconfirmed_or_throw conditional_resolve record_resolution
resolve_as_posted now post_id external_post_id admin_id = do
  post ← load_unconfirmed_or_throw post_id
  conditional_resolve post (set_resolved_posted now admin_id external_post_id)
  record_resolution post_id admin_id

-- `resolveAsNotPosted`
unfoldable pub resolve_as_not_posted : ℕ → ℕ → M Store Post
unfolding load_unconfirmed_or_throw conditional_resolve record_resolution
resolve_as_not_posted post_id admin_id = do
  post ← load_unconfirmed_or_throw post_id
  conditional_resolve post (set_resolved_failed admin_id)
  record_resolution post_id admin_id
