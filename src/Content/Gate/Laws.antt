-- ===== src/Content/Gate/Laws.antt =====
-- The copyright gate, as the compliance rule states it.
use content_hub.Base.{◌≡◌, ◌≢◌, ◌↔◌, ◌⊎◌, refl, inl, inr, true, Option, none, some, String, arith}
use content_hub.Schema.{ContentPillar, comedy, drama, product, ready, cleared}
use content_hub.Content.Records.{Content}
use content_hub.Content.Gate.{has_evidence, can_mark_copyright_cleared}
use content_hub.Content.Gate.Trim.{codes, visible, trim-visible}

-- There is a text of evidence, with something to see in it.
abbrev pub IsEvidenced : Option String → Type 0
IsEvidenced evidence_url = (url : String) × (evidence_url ≡ some url) × (visible (codes url) ≡ true)

-- Comedy is exempt; all else, content without a pillar included, needs evidence.
abbrev pub IsEligible : Option ContentPillar → Option String → Type 0
IsEligible pillar evidence_url = (pillar ≡ some comedy) ⊎ IsEvidenced evidence_url

has_evidence_iff :
    (evidence_url : Option String) → (has_evidence evidence_url ≡ true) ↔ IsEvidenced evidence_url
unfolding has_evidence
has_evidence_iff none = (λ h. absurd (ground arith), λ h. cc)
has_evidence_iff (some url) = (
  λ h. (url, refl, rw (← trim-visible (codes url)) h),
  λ h. rw (trim-visible (codes url)) (ground (arith, h.1, h.2)),
)

-- Without the exemption the evidence decides.
risky :
    (pillar : Option ContentPillar) (evidence_url : Option String)
    → pillar ≢ some comedy
    → (has_evidence evidence_url ≡ true) ↔ IsEligible pillar evidence_url
risky pillar evidence_url ne = (λ h. inr ((has_evidence_iff evidence_url).0 h), from)
  where
    from : IsEligible pillar evidence_url → has_evidence evidence_url ≡ true
    from (inl e) = absurd (ne e)
    from (inr h) = (has_evidence_iff evidence_url).1 h

-- The gate opens exactly for content that is comedy or has visible evidence.
pub can_mark_copyright_cleared_iff :
    (pillar : Option ContentPillar) (evidence_url : Option String)
    → (can_mark_copyright_cleared pillar evidence_url ≡ true) ↔ IsEligible pillar evidence_url
unfolding can_mark_copyright_cleared
can_mark_copyright_cleared_iff (some comedy) evidence_url = (λ h. inl refl, λ h. refl)
can_mark_copyright_cleared_iff (some drama) evidence_url = risky (some drama) evidence_url (λ e. cc)
can_mark_copyright_cleared_iff (some product) evidence_url =
    risky (some product) evidence_url (λ e. cc)
can_mark_copyright_cleared_iff none evidence_url = risky none evidence_url (λ e. cc)

-- What a row must be before it is published or recorded as published.
pub record IsPublishable (content : Content) : Type 0 where
  pub is_ready : content.status ≡ ready
  pub is_cleared : content.copyright_cleared ≡ cleared
  pub eligible : IsEligible content.content_pillar content.copyright_evidence_url
