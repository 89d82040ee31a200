-- ===== src/Publish/Guards/Override.antt =====
-- backend/src/modules/publish/publish-orchestrator.service.ts: the facts on an overridden recommendation,
-- which the server derives.
use content_hub.Base.{ℕ, ◌≡◌, ◌≢◌, ◌↔◌, refl, true, List, Option, none, some, arith}
use content_hub.Schema.{AssetPlatform, asset_same_iff}
use content_hub.Ranking.Recommendation.{Score, get_recommendation}
use content_hub.Publish.Store.{Ports}
use content_hub.Publish.Orchestrator.{differs, recompute_recommendation}

differs_iff :
    (o : Option Score) (selected : AssetPlatform)
    → (differs o selected ≡ true) ↔ ((r : Score) × (o ≡ some r) × (r.platform ≢ selected))
differs_iff none selected = (λ h. cc, λ h. cc)
differs_iff (some r) selected =
    let same = asset_same_iff r.platform selected in
    (λ h. (r, refl, λ e. ground (arith, same.1 e)), λ h. ground (arith, same.0))

-- A post counts as an override exactly if the ranking recommends a platform for its content, and it is
-- another one than the platform that was chosen.
pub was_override_iff :
    (ports : Ports) (content_id : ℕ) (selected : AssetPlatform) (table : List Score)
    → ((recompute_recommendation ports content_id selected table).was_override ≡ true) ↔ (
        (r : Score) × (get_recommendation ports.engine content_id table ≡ some r)
        × (r.platform ≢ selected))
unfolding recompute_recommendation
was_override_iff ports content_id selected table = differs_iff _ selected
