-- ===== src/Publish/Resolution/Tests.antt =====
-- The resolutions on a post of unknown outcome.
use content_hub.Base.{refl}
use content_hub.Publish.Posts.{
  find_post, update_rows, update_many, update_count, index_holds, clashes,
}
use content_hub.Publish.Store.{record_audit}
use content_hub.Publish.Resolution.{
  resolvable, set_resolved_posted, set_resolved_failed, resolve_as_posted, resolve_as_not_posted,
}
use content_hub.Publish.Resolution.Laws.{
  ResolvedAsPosted, IsSettled, resolve_as_posted-Resolved, ResolvedAsPosted,
  resolve_as_posted-IsSettled,
}
use content_hub.Publish.Samples.{open_row, unresolved_store}

resolutions : Unit {0}
unfolding resolve_as_posted resolve_as_not_posted resolvable set_resolved_posted set_resolved_failed
    find_post update_rows update_many update_count index_holds clashes record_audit
resolutions = tt

resolve_as_posted-Resolved_example :
    ResolvedAsPosted 60 7 "fb-9" 1 unresolved_store
      (resolve_as_posted 60 7 "fb-9" 1 unresolved_store).1
      (set_resolved_posted 60 1 "fb-9" open_row)
unfolding resolutions
resolve_as_posted-Resolved_example =
    resolve_as_posted-Resolved 60 7 "fb-9" 1 unresolved_store _ refl

resolve_as_posted-IsSettled_example :
    IsSettled 7 (resolve_as_posted 60 7 "fb-9" 1 unresolved_store).1
unfolding resolutions
resolve_as_posted-IsSettled_example =
    resolve_as_posted-IsSettled 60 7 "fb-9" 1 unresolved_store _
      {post = set_resolved_posted 60 1 "fb-9" open_row} refl
