-- ===== src/Paid/Lawful/Campaigns.antt =====
-- backend/src/modules/paid/paid-campaign.service.ts keeps the tables lawful.
use content_hub.Base.{
  ℕ, ◌≡◌, refl, inl, inr, true, false, not, Option, none, some, String, All-map, arith, leb→le, ltb,
  Option-cases, Bool-cases, ◌==◌, or_this,
}
use content_hub.Base.Effects.{
  M, Result, ok, err, feed, ◌>>=◌, ◌>>◌, return, modify, bad_request, not_found, database,
}
use content_hub.Base.Effects.Keeping.{Guards, passes, throws, guarded, ensure_guards}
use content_hub.Base.Tables.{
  find_row, find_row-All, find_row-updated, find_row-insert_unique, insert_unique,
  insert_unique-Apart, insert_unique-All, update_row-Apart, update_row-All_found,
}
use content_hub.Common.DateRange.{assert_valid_date_range, InOrder}
use content_hub.Common.Currency.{default_currency, assert_supported_currency, is_supported_currency}
use content_hub.Content.Records.{find_content}
use content_hub.Content.Service.{Field, undefined, null, given, is_null, or_else}
use content_hub.Publish.Store.{
  Ports, AuditAction, ad_campaign_created, ad_campaign_updated, ad_campaign_retired,
}
use content_hub.Commerce.Catalog.{decimal_of, currency_field}
use content_hub.Commerce.Market.{to_day}
use content_hub.Paid.Desk.{AdCampaign, campaign_keyed, PaidDesk, campaigns_clash, note}
use content_hub.Paid.Campaign.{
  CreatePaidCampaign, UpdatePaidCampaign, day_of, given_id, effective_end, assert_content_found,
  new_campaign, create_or_conflict, create_campaign, find_campaign_or_throw, campaign_patched,
  dates_in_order, update_campaign_row, nulls_required, update_campaign, campaign_retired,
  retire_campaign,
}
use content_hub.Paid.Lawful.{IsDated, IsLawful}

noted_result :
    {A : Type 0} (user_id : ℕ) (action : AuditAction) (r : Result A × PaidDesk)
    → IsLawful r.1
    → IsLawful (feed r (λ x. modify (note user_id action) >> return x)).1
unfolding note
noted_result user_id action (ok a, s) i = i
noted_result user_id action (err e, s) i = i

-- The audit of a success touches no table.
pub noted :
    {A : Type 0} (user_id : ℕ) (action : AuditAction) (m : M PaidDesk A) (s : PaidDesk)
    → IsLawful (m s).1
    → IsLawful ((m >>= λ x. modify (note user_id action) >> return x) s).1
noted user_id action m s i = noted_result user_id action (m s) i

pub currency_supported :
    (I : PaidDesk → Type 0) (currency : String) {s : PaidDesk}
    → I s
    → Guards I
        (assert_supported_currency currency)
        s
        (λ c. (c ≡ default_currency) × (is_supported_currency currency ≡ true))
unfolding assert_supported_currency
currency_supported I currency {s} i = elim (Bool-cases (is_supported_currency currency)) [
  | inl supported ↦ passes default_currency (ground arith) (refl, supported)
  | inr other ↦ throws bad_request s (ground arith) i
]

content_found :
    (id : Option ℕ) {s : PaidDesk}
    → IsLawful s
    → Guards IsLawful (assert_content_found id) s (λ _. Unit {0})
unfolding assert_content_found
content_found none i = passes tt refl tt
content_found (some id) {s} i = elim (Option-cases (find_content id s.store.contents)) [
  | inl missing ↦ throws not_found s (ground arith) i
  | inr (c, found) ↦ passes tt (ground arith) tt
]

pub dates_valid :
    (I : PaidDesk → Type 0) (start : ℕ) (end_ : Option ℕ) {s : PaidDesk}
    → I s
    → Guards I (assert_valid_date_range start end_) s (λ _. InOrder start end_)
unfolding assert_valid_date_range
dates_valid I start none {s} i = passes tt refl tt
dates_valid I start (some end_) {s} i = elim (Bool-cases (ltb end_ start)) [
  | inl reversed ↦ throws bad_request s (ground arith) i
  | inr ordered ↦ passes tt (ground arith) (ground arith)
]

decimal_read :
    (field : Field ℕ) {s : PaidDesk}
    → IsLawful s
    → Guards IsLawful (decimal_of field) s (λ _. Unit {0})
unfolding decimal_of
decimal_read undefined i = passes none refl tt
decimal_read null {s} i = throws database s refl i
decimal_read (given a) i = passes (some a) refl tt

-- The currency that an update writes, if any.
abbrev IsBaht : Field String → Type 0
IsBaht (given c) = c ≡ default_currency
IsBaht _ = Unit

currency_read :
    (field : Field String) {s : PaidDesk}
    → IsLawful s
    → Guards IsLawful (currency_field field) s IsBaht
unfolding currency_field assert_supported_currency
currency_read undefined i = passes undefined refl tt
currency_read null {s} i = throws database s refl i
currency_read (given c) {s} i = elim (Bool-cases (is_supported_currency c)) [
  | inl supported ↦ passes (given default_currency) (ground arith) refl
  | inr other ↦ throws bad_request s (ground arith) i
]

pub campaign_found :
    (I : PaidDesk → Type 0) (id : ℕ) {s : PaidDesk}
    → I s
    → Guards I (find_campaign_or_throw id) s (λ c. find_row id s.campaigns ≡ some c)
unfolding find_campaign_or_throw
campaign_found I id {s} i = elim (Option-cases (find_row id s.campaigns)) [
  | inl missing ↦ throws not_found s (ground arith) i
  | inr (c, found) ↦ passes c (ground arith) found
]

campaigns_cover : (c d : AdCampaign) → (c.id == d.id) ≡ true → campaigns_clash c d ≡ true
unfolding campaigns_clash
campaigns_cover c d same = ground arith

created :
    (c : AdCampaign) (s : PaidDesk) → IsLawful s → IsDated c → IsLawful (create_or_conflict c s).1
unfolding create_or_conflict
created c s i dated = elim (Option-cases (insert_unique campaigns_clash c s.campaigns)) [
  | inl taken ↦ rw (taken, create_or_conflict) i
  | inr (rows, made) ↦
      rw (made, create_or_conflict)
        record {
          campaigns_apart = insert_unique-Apart _ c s.campaigns i.campaigns_apart made;
          entries_apart = i.entries_apart;
          dated = insert_unique-All _ _ c s.campaigns dated i.dated made;
          under =
              All-map
                (λ e u. (
                  u.0,
                  find_row-insert_unique campaigns_clash campaigns_cover c s.campaigns e.campaign_id
                      made u.1,
                ))
                s.entries i.under;
          periods = i.periods;
          corrections = i.corrections;
        }
]

to_day-InOrder :
    (start : ℕ) (end_ : Option ℕ) → InOrder start end_ → InOrder (to_day start) (day_of end_)
to_day-InOrder start none h = tt
to_day-InOrder start (some end_) h = omega arith

pub create_campaign-IsLawful :
    (ports : Ports) (dto : CreatePaidCampaign) (user_id : ℕ) (s : PaidDesk)
    → IsLawful s
    → IsLawful (create_campaign ports dto user_id s).1
unfolding create_campaign new_campaign
create_campaign-IsLawful ports dto user_id s i =
    guarded _ (currency_supported IsLawful (or_this dto.currency default_currency) i)
      λ currency baht. guarded _ (content_found dto.content_id i) λ _ _.
        guarded _ (dates_valid IsLawful dto.start_date dto.end_date i) λ _ ordered.
          guarded _ (decimal_read dto.planned_budget i) λ planned_budget _.
            let c = new_campaign ports dto currency planned_budget user_id in
            noted user_id ad_campaign_created (create_or_conflict c) s
              (created c s i (to_day-InOrder dto.start_date dto.end_date ordered, baht.0))

dates_in_order-InOrder :
    (start : ℕ) (end_ : Option ℕ) → dates_in_order start end_ ≡ true → InOrder start end_
dates_in_order-InOrder start none h = tt
dates_in_order-InOrder start (some end_) h = leb→le start end_ h

-- A write that keeps the keys and the currency of the row that was found.
rewritten :
    (id : ℕ) (data_ : AdCampaign → AdCampaign) (c : AdCampaign) (s : PaidDesk)
    → ((x : AdCampaign) → (data_ x).id ≡ x.id)
    → ((a b : AdCampaign) → campaigns_clash a b ≡ false → campaigns_clash (data_ a) b ≡ false)
    → ((a b : AdCampaign) → campaigns_clash a b ≡ false → campaigns_clash a (data_ b) ≡ false)
    → find_row id s.campaigns ≡ some c
    → (data_ c).currency ≡ default_currency
    → IsLawful s
    → IsLawful (update_campaign_row id data_ c s).1
unfolding update_campaign_row
rewritten id data_ c s keeps left right found baht i =
    elim (Bool-cases (dates_in_order (data_ c).start_date (data_ c).end_date)) [
      | inr reversed ↦ rw (reversed, update_campaign_row) i
      | inl ordered ↦
          rw (ordered, update_campaign_row)
            record {
              campaigns_apart =
                  update_row-Apart campaigns_clash data_ left right id s.campaigns
                    i.campaigns_apart;
              entries_apart = i.entries_apart;
              dated =
                  update_row-All_found IsDated id data_ s.campaigns found
                    (dates_in_order-InOrder (data_ c).start_date (data_ c).end_date ordered, baht)
                    i.dated;
              under =
                  All-map
                    (λ e u.
                      let (d, there, one) =
                        find_row-updated id e.campaign_id data_ s.campaigns keeps u.1 in
                      (d, there))
                    s.entries i.under;
              periods = i.periods;
              corrections = i.corrections;
            }
    ]

patched_currency :
    (currency : Field String) (old : String)
    → IsBaht currency
    → old ≡ default_currency
    → or_else currency old ≡ default_currency
patched_currency undefined old h e = e
patched_currency null old h e = e
patched_currency (given c) old h e = h

pub update_campaign-IsLawful :
    (id : ℕ) (dto : UpdatePaidCampaign) (user_id : ℕ) (s : PaidDesk)
    → IsLawful s
    → IsLawful (update_campaign id dto user_id s).1
unfolding update_campaign campaign_patched campaigns_clash
update_campaign-IsLawful id dto user_id s i = guarded _ (campaign_found IsLawful id i) λ c found.
    guarded _ (content_found (given_id dto.content_id) i) λ _ _.
      guarded _
        (dates_valid IsLawful (or_else dto.start_date c.start_date)
          (effective_end dto.end_date c.end_date) i)
        λ _ _.
          guarded _ (ensure_guards IsLawful (not (is_null dto.planned_budget)) database i) λ _ _.
            guarded _ (currency_read dto.currency i) λ currency baht.
              guarded _ (ensure_guards IsLawful (not (nulls_required dto)) database i) λ _ _.
                noted user_id ad_campaign_updated
                  (update_campaign_row id (campaign_patched dto currency) c) s
                  (rewritten id (campaign_patched dto currency) c s (λ x. refl) (λ a b h. h)
                    (λ a b h. h) found
                    (patched_currency currency c.currency baht
                      (find_row-All IsDated id s.campaigns i.dated found).1)
                    i)

pub retire_campaign-IsLawful :
    (now id user_id : ℕ) (s : PaidDesk) → IsLawful s → IsLawful (retire_campaign now id user_id s).1
unfolding retire_campaign campaign_retired campaigns_clash
retire_campaign-IsLawful now id user_id s i = guarded _ (campaign_found IsLawful id i) λ c found.
    noted user_id ad_campaign_retired (update_campaign_row id (campaign_retired now) c) s (
      rewritten id (campaign_retired now) c s (λ x. refl) (λ a b h. h) (λ a b h. h) found
        (find_row-All IsDated id s.campaigns i.dated found).1 i)
