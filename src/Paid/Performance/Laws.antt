-- ===== src/Paid/Performance/Laws.antt =====
-- backend/src/modules/paid/paid-performance.service.ts: what has been checked and written when an entry is added, and what
-- becomes of the same body sent again.
use content_hub.Base.{
  ℕ, ◌+◌, ◌≤◌, ◌≡◌, refl, sym, ap, ◌∙◌, true, List, ◌∷◌, Option, none, some, String, arith, or_this,
}
use mathlib.Core.Path.{subst}
use content_hub.Base.Effects.{ok, err, ◌>>=◌, ◌>>◌, return, modify, bad_request, conflict}
use content_hub.Base.Effects.Passing.{passed, ensure_decides, ensure_passes, continues, stops}
use content_hub.Base.Effects.Keeping.{decided}
use content_hub.Base.Tables.{find_row, insert_unique}
use text.Mathlib.TextEquality.{eq_iff}
use content_hub.Common.DateRange.{assert_valid_date_range}
use content_hub.Common.RefShape.{assert_ref_shape, is_ref_shape}
use content_hub.Common.Currency.{default_currency, is_supported_currency, assert_supported_currency}
use content_hub.Publish.Store.{Ports, record_audit, audit_row, ad_performance_entry_added}
use content_hub.Commerce.Conversion.{same_id, same_text}
use content_hub.Paid.Desk.{AdCampaign, campaign_keyed, AdPerformanceEntry, PaidDesk, note}
use content_hub.Paid.Campaign.{find_campaign_or_throw}
use content_hub.Paid.Performance.{
  CreatePerformanceEntry, entry_window_ms, is_same_entry, assert_new_entry, new_entry, insert_entry,
  add_entry,
}
use content_hub.Paid.Lawful.Campaigns.{currency_supported, dates_valid, campaign_found}
use content_hub.Paid.Lawful.Entries.{new_to_window, correction_passes}

pub record EntryAdded (ports : Ports) (campaign_id : ℕ) (dto : CreatePerformanceEntry) (user_id : ℕ)
    (s s' : PaidDesk) (e : AdPerformanceEntry) : Type 0 where
  pub campaign : AdCampaign
  pub found : find_row campaign_id s.campaigns ≡ some campaign
  pub shaped : is_ref_shape dto.source_ref ≡ true
  pub supported : is_supported_currency (or_this dto.currency default_currency) ≡ true
  pub ordered : dto.period_start ≤ dto.period_end
  pub row : e ≡ new_entry ports campaign_id dto default_currency user_id
  pub appended : s' ≡ record s {
    entries = e ∷ s.entries;
    store = record_audit (audit_row user_id ad_performance_entry_added true none) s.store;
  }

inserted :
    (e : AdPerformanceEntry) (user_id : ℕ) (s s' : PaidDesk) {made : AdPerformanceEntry}
    → ((insert_entry e >>= λ made.
          (modify (note user_id ad_performance_entry_added) >> return made))
        s)
      ≡ (ok made, s')
    → (made ≡ e)
      × (s' ≡ record s {
        entries = made ∷ s.entries;
        store = record_audit (audit_row user_id ad_performance_entry_added true none) s.store;
      })
unfolding insert_entry insert_unique note
inserted e user_id s s' h = ground arith

add_entry-EntryAdded :
    (ports : Ports) (campaign_id : ℕ) (dto : CreatePerformanceEntry) (user_id : ℕ) (s s' : PaidDesk)
    {e : AdPerformanceEntry}
    → add_entry ports campaign_id dto user_id s ≡ (ok e, s')
    → EntryAdded ports campaign_id dto user_id s s' e
unfolding add_entry assert_ref_shape
add_entry-EntryAdded ports campaign_id dto user_id s s' h =
    let campaign = passed (decided (campaign_found (λ _. Unit {0}) campaign_id tt)) h in
    let shaped =
      passed (ensure_decides (is_ref_shape dto.source_ref) bad_request s) campaign.rest in
    let currency =
      passed
        (decided (currency_supported (λ _. Unit {0}) (or_this dto.currency default_currency) tt))
        shaped.rest in
    let ordered =
      passed (decided (dates_valid (λ _. Unit {0}) dto.period_start (some dto.period_end) tt))
        currency.rest in
    let new =
      passed
        (decided
          (new_to_window (λ _. Unit {0}) ports.now campaign_id dto user_id currency.value tt))
        ordered.rest in
    let correct =
      passed (decided (correction_passes (λ _. Unit {0}) campaign_id dto.corrects_entry_id tt))
        new.rest in
    let made = inserted _ user_id s s' correct.rest in
    record {
      campaign = campaign.value;
      found = campaign.holds;
      shaped = shaped.holds;
      supported = currency.holds.1;
      ordered = ordered.holds;
      row = made.0 ∙ ap (λ x. new_entry ports campaign_id dto x user_id) currency.holds.0;
      appended = made.1;
    }

same_id_self : (a : Option ℕ) → same_id a a ≡ true
same_id_self none = refl
same_id_self (some a) = ground arith

same_text_self : (a : Option String) → same_text a a ≡ true
same_text_self none = refl
same_text_self (some a) = (eq_iff a a).1 refl

is_same_entry-new_entry :
    (ports : Ports) (campaign_id : ℕ) (dto : CreatePerformanceEntry) (user_id now : ℕ)
    (currency : String)
    → now ≤ ports.now + entry_window_ms
    → is_same_entry now campaign_id dto user_id currency
        (new_entry ports campaign_id dto currency user_id)
      ≡ true
unfolding is_same_entry new_entry
is_same_entry-new_entry ports campaign_id dto user_id now currency h = ground (
  arith,
  same_id_self dto.reach,
  same_id_self dto.impressions,
  same_id_self dto.clicks,
  same_text_self dto.result_type,
  same_id_self dto.result_count,
  (eq_iff currency currency).1 refl,
  same_text_self dto.source_ref,
  same_id_self dto.corrects_entry_id,
)

campaign_still :
    (id : ℕ) (s s' : PaidDesk) {c : AdCampaign}
    → find_row id s.campaigns ≡ some c
    → s'.campaigns ≡ s.campaigns
    → find_campaign_or_throw id s' ≡ (ok c, s')
unfolding find_campaign_or_throw
campaign_still id s s' found same = rw (ap (find_row id) same ∙ found, find_campaign_or_throw) refl

supported_still :
    (currency : String) (s : PaidDesk)
    → is_supported_currency currency ≡ true
    → assert_supported_currency currency s ≡ (ok default_currency, s)
unfolding assert_supported_currency
supported_still currency s h = ground arith

ordered_still :
    (start end_ : ℕ) (s : PaidDesk)
    → start ≤ end_
    → assert_valid_date_range start (some end_) s ≡ (ok tt, s)
unfolding assert_valid_date_range
ordered_still start end_ s h = ground arith

refused :
    (now campaign_id : ℕ) (dto : CreatePerformanceEntry) (user_id : ℕ) (s : PaidDesk)
    (e : AdPerformanceEntry) (rest : List AdPerformanceEntry)
    → s.entries ≡ e ∷ rest
    → is_same_entry now campaign_id dto user_id default_currency e ≡ true
    → assert_new_entry now campaign_id dto user_id default_currency s ≡ (err conflict, s)
unfolding assert_new_entry
refused now campaign_id dto user_id s e rest rows same = ground arith

-- An entry is not recorded twice: once addEntry has returned, the same body from the same user within the window is
-- refused as a conflict, and changes nothing.
pub add_entry_again :
    (ports ports' : Ports) (campaign_id : ℕ) (dto : CreatePerformanceEntry) (user_id : ℕ)
    (s s' : PaidDesk) {e : AdPerformanceEntry}
    → add_entry ports campaign_id dto user_id s ≡ (ok e, s')
    → ports'.now ≤ ports.now + entry_window_ms
    → add_entry ports' campaign_id dto user_id s' ≡ (err conflict, s')
unfolding add_entry assert_ref_shape
add_entry_again ports ports' campaign_id dto user_id s s' {e} h soon =
    let a = add_entry-EntryAdded ports campaign_id dto user_id s s' h in
    continues _ (campaign_still campaign_id s s' a.found (ap (λ m. m.campaigns) a.appended)) (
      continues _ (ensure_passes bad_request s' a.shaped) (
        continues _ (supported_still (or_this dto.currency default_currency) s' a.supported) (
          continues _ (ordered_still dto.period_start dto.period_end s' a.ordered) (
            stops _ (
              refused ports'.now campaign_id dto user_id s' e s.entries
                (ap (λ m. m.entries) a.appended)
                (subst
                  (λ x. is_same_entry ports'.now campaign_id dto user_id default_currency x ≡ true)
                  (sym a.row)
                  (is_same_entry-new_entry ports campaign_id dto user_id ports'.now default_currency
                    soon)))))))
