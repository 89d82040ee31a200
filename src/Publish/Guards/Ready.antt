-- ===== src/Publish/Guards/Ready.antt =====
-- The gate of the publish flow on a table that the content service keeps lawful.
use content_hub.Base.{ℕ, ◌≡◌, refl, inl, inr, true, All, some, arith}
use content_hub.Base.Effects.{ok}
use content_hub.Schema.{is_ready}
use content_hub.Content.Records.{Content, find_content}
use content_hub.Content.Gate.Laws.{IsPublishable, can_mark_copyright_cleared_iff}
use content_hub.Content.Service.Laws.{IsLawful}
use content_hub.Content.Service.Requests.{found-IsLawful}
use content_hub.Publish.Store.{Store}
use content_hub.Publish.Orchestrator.{assert_publishable_content}

publishable_passes :
    (c : Content) (s : Store) → IsPublishable c → assert_publishable_content c s ≡ (ok tt, s)
unfolding assert_publishable_content
publishable_passes c s p =
    let open_gate =
      (can_mark_copyright_cleared_iff c.content_pillar c.copyright_evidence_url).1 p.eligible in
    rw (p.is_ready, p.is_cleared, open_gate) refl

-- In a table that the content service keeps lawful, a row that is ready passes the gate of the publish flow.
pub ready_passes :
    (id : ℕ) (s : Store) {c : Content}
    → All IsLawful s.contents
    → find_content id s.contents ≡ some c
    → is_ready c.status ≡ true
    → assert_publishable_content c s ≡ (ok tt, s)
ready_passes id s {c} all found at_ready = elim (found-IsLawful id s.contents found all).gated [
  | inl unready ↦ absurd (ground arith)
  | inr p ↦ publishable_passes c s p
]
