-- ===== src/Publish/Interleaving/Tests.antt =====
-- The requests as steps of the system, on a small store.
use content_hub.Base.{◌≡◌, refl, []}
use content_hub.Publish.Execution.{idle}
use content_hub.Publish.Interleaving.{System, published_count}
use content_hub.Publish.Interleaving.Services.{
  Steps, leaves, serve, serve-Steps, to_resolve_not_posted,
}
use content_hub.Publish.Samples.{ports, unresolved_store}

abbrev with_open : System
with_open = record { store = unresolved_store; live = []; stages = λ _. idle }

nothing_live : published_count 7 [] ≡ 0
unfolding published_count
nothing_live = refl

serve-Steps_example :
    Steps with_open (leaves with_open (serve ports (to_resolve_not_posted 7 1) unresolved_store))
serve-Steps_example = serve-Steps ports (to_resolve_not_posted 7 1) with_open nothing_live
