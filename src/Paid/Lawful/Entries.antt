-- ===== src/Paid/Lawful/Entries.antt =====
-- backend/src/modules/paid/paid-performance.service.ts keeps the tables lawful.
use content_hub.Base.{
  ℕ, ◌≤◌, ◌≡◌, refl, inl, inr, true, false, Option, none, some, String, All-map, arith, any,
  Option-cases, Bool-cases, ◌==◌, ==_iff, List, or_this,
}
use content_hub.Base.Effects.{bad_request, not_found, conflict}
use content_hub.Base.Effects.Keeping.{Guards, passes, throws, guarded, ensure_guards}
use content_hub.Base.Tables.{
  find_row, find_row-insert_unique, insert_unique, insert_unique-Apart, insert_unique-All,
}
use content_hub.Common.RefShape.{assert_ref_shape, is_ref_shape}
use content_hub.Common.Currency.{default_currency}
use content_hub.Publish.Store.{Ports, ad_performance_entry_added}
use content_hub.Commerce.Market.{to_day}
use content_hub.Paid.Desk.{campaign_keyed, AdPerformanceEntry, entry_keyed, PaidDesk, entries_clash}
use content_hub.Paid.Performance.{
  CreatePerformanceEntry, is_same_entry, assert_new_entry, assert_correction_target, new_entry,
  insert_entry, add_entry,
}
use content_hub.Paid.Lawful.{IsUnder, IsPeriod, IsCorrection, IsLawful}
use content_hub.Paid.Lawful.Campaigns.{noted, currency_supported, dates_valid, campaign_found}

pub new_to_window :
    (I : PaidDesk → Type 0) (now campaign_id : ℕ) (dto : CreatePerformanceEntry) (user_id : ℕ)
    (currency : String) {s : PaidDesk}
    → I s
    → Guards I
        (assert_new_entry now campaign_id dto user_id currency)
        s
        (λ _. any (is_same_entry now campaign_id dto user_id currency) s.entries ≡ false)
unfolding assert_new_entry
new_to_window I now campaign_id dto user_id currency {s} i =
    elim (Bool-cases (any (is_same_entry now campaign_id dto user_id currency) s.entries)) [
      | inl again ↦ throws conflict s (ground arith) i
      | inr new ↦ passes tt (ground arith) new
    ]

pub correction_passes :
    (I : PaidDesk → Type 0) (campaign_id : ℕ) (corrects : Option ℕ) {s : PaidDesk}
    → I s
    → Guards I (assert_correction_target campaign_id corrects) s (λ _.
      (id : ℕ)
      → corrects ≡ some id
      → (t : AdPerformanceEntry) × (find_row id s.entries ≡ some t) × (t.campaign_id ≡ campaign_id))
unfolding assert_correction_target
correction_passes I campaign_id none {s} i = passes tt refl (λ id e. absurd (ground arith))
correction_passes I campaign_id (some target_id) {s} i =
    elim (Option-cases (find_row target_id s.entries)) [
      | inl missing ↦ throws not_found s (ground arith) i
      | inr (t, found) ↦ elim (Bool-cases (t.campaign_id == campaign_id)) [
        | inl own ↦
            passes tt (ground arith)
              (λ id e. (t, ground arith, (==_iff t.campaign_id campaign_id).0 own))
        | inr foreign ↦ throws bad_request s (ground arith) i
      ]
    ]

entries_cover : (e f : AdPerformanceEntry) → (e.id == f.id) ≡ true → entries_clash e f ≡ true
unfolding entries_clash
entries_cover e f same = same

still_correct :
    (e : AdPerformanceEntry) (s : PaidDesk) {rows : List AdPerformanceEntry}
    → insert_unique entries_clash e s.entries ≡ some rows
    → (f : AdPerformanceEntry) → IsCorrection s.entries f
    → IsCorrection rows f
still_correct e s made f correct id named =
    let (t, found, own) = correct id named in
    (t, find_row-insert_unique entries_clash entries_cover e s.entries id made found, own)

inserted :
    (e : AdPerformanceEntry) (s : PaidDesk)
    → IsLawful s
    → IsUnder s.campaigns e
    → IsPeriod e
    → IsCorrection s.entries e
    → IsLawful (insert_entry e s).1
unfolding insert_entry
inserted e s i under period correct =
    elim (Option-cases (insert_unique entries_clash e s.entries)) [
      | inl taken ↦ rw (taken, insert_entry) i
      | inr (rows, made) ↦
          rw (made, insert_entry)
            record {
              campaigns_apart = i.campaigns_apart;
              entries_apart = insert_unique-Apart _ e s.entries i.entries_apart made;
              dated = i.dated;
              under = insert_unique-All _ _ e s.entries under i.under made;
              periods = insert_unique-All _ _ e s.entries period i.periods made;
              corrections =
                  insert_unique-All _ _ e s.entries (still_correct e s made e correct)
                    (All-map (still_correct e s made) s.entries i.corrections) made;
            }
    ]

to_day_mono : (a b : ℕ) → a ≤ b → to_day a ≤ to_day b
to_day_mono a b h = omega arith

pub add_entry-IsLawful :
    (ports : Ports) (campaign_id : ℕ) (dto : CreatePerformanceEntry) (user_id : ℕ) (s : PaidDesk)
    → IsLawful s
    → IsLawful (add_entry ports campaign_id dto user_id s).1
unfolding add_entry assert_ref_shape new_entry
add_entry-IsLawful ports campaign_id dto user_id s i =
    guarded _ (campaign_found IsLawful campaign_id i) λ c found.
      guarded _ (ensure_guards IsLawful (is_ref_shape dto.source_ref) bad_request i) λ _ _.
        guarded _ (currency_supported IsLawful (or_this dto.currency default_currency) i)
          λ currency baht.
            guarded _ (dates_valid IsLawful dto.period_start (some dto.period_end) i) λ _ ordered.
              guarded _ (new_to_window IsLawful ports.now campaign_id dto user_id currency i) λ _ _.
                guarded _ (correction_passes IsLawful campaign_id dto.corrects_entry_id i)
                  λ _ correct.
                    let e = new_entry ports campaign_id dto currency user_id in
                    noted user_id ad_performance_entry_added (insert_entry e) s (
                      inserted e s i (c, found)
                        (to_day_mono dto.period_start dto.period_end ordered, baht.0) correct)
