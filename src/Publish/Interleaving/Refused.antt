-- ===== src/Publish/Interleaving/Refused.antt =====
-- What a request of the publish flow leaves behind that throws.
use content_hub.Base.{◌⊎◌, Option, none, some}
use content_hub.Base.Effects.{Result, ok, err, Exn}
use content_hub.Publish.Posts.{Post}
use content_hub.Publish.Store.{Store, Ports}
use content_hub.Publish.Orchestrator.{create_and_dispatch, redispatch, record_manual_external}
use content_hub.Publish.Resolution.{resolve_as_posted, resolve_as_not_posted}
use content_hub.Publish.Guards.Left.{Unchanged, Drafted, Recommended}
use content_hub.Publish.Interleaving.Services.{
  Request, to_create, to_redispatch, to_record, to_resolve_posted, to_resolve_not_posted,
}

abbrev exn_of : Result Post × Store → Option Exn
exn_of (ok post, s) = none
exn_of (err e, s) = some e

-- What the method of a request throws.
abbrev pub thrown_by : Ports → Request → Store → Option Exn
thrown_by ports (to_create dto user_id) s = exn_of (create_and_dispatch ports dto user_id s)
thrown_by ports (to_redispatch post_id password user_id) s =
    exn_of (redispatch ports post_id password user_id s)
thrown_by ports (to_record dto user_id) s = exn_of (record_manual_external ports dto user_id s)
thrown_by ports (to_resolve_posted post_id external_post_id admin_id) s =
    exn_of (resolve_as_posted ports.now post_id external_post_id admin_id s)
thrown_by ports (to_resolve_not_posted post_id admin_id) s =
    exn_of (resolve_as_not_posted post_id admin_id s)

-- What a method that throws may have left in the tables: all as it was, or, where the queue did not take the job, the
-- row of the request.
abbrev pub Left : Ports → Request → Store → Store → Type 0
Left ports (to_create dto user_id) s s' = Unchanged s s' ⊎ Drafted ports user_id s s'
Left ports (to_redispatch post_id password user_id) s s' =
    Unchanged s s' ⊎ Recommended ports user_id post_id s s'
Left ports (to_record dto user_id) s s' = Unchanged s s'
Left ports (to_resolve_posted post_id external_post_id admin_id) s s' = Unchanged s s'
Left ports (to_resolve_not_posted post_id admin_id) s s' = Unchanged s s'
