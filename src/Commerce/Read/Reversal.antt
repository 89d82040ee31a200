-- ===== src/Commerce/Read/Reversal.antt =====
-- A reversal of backend/src/modules/commerce/commerce-conversion.service.ts in the totals of
-- backend/src/modules/commerce/commerce-read.service.ts.
use content_hub.Base.{
  ℕ, ◌≡◌, refl, sym, ◌∙◌, ap, inl, inr, Bool, ◌&&◌, ◌||◌, List, [], ◌∷◌, Option, none, some, String,
  arith, keep, map, Option-cases, ◌==◌,
}
use text.Mathlib.Text.{◌==◌ as str_eq}
use content_hub.Base.Int.{negate}
use content_hub.Base.Effects.{Result, ok, err}
use content_hub.Base.Tables.{find_row}
use content_hub.Content.Records.{Content, find_content}
use content_hub.Publish.Posts.{Post}
use content_hub.Publish.Store.{Ports, record_audit}
use content_hub.Commerce.Market.{CommercePlacement, CommerceConversion, conversion_keyed, Market}
use content_hub.Commerce.Conversion.{
  CreateConversion, linkage_of, new_conversion, create_conversion,
}
use content_hub.Commerce.Conversion.Laws.{create_conversion-Added}
use content_hub.Common.Currency.{default_currency}
use content_hub.Commerce.Lawful.{SameLinkage}
use content_hub.Commerce.Lawful.Conversions.{Reverses, nothing, line}
use content_hub.Commerce.Read.{
  CommerceCurrencyTotal, by_currency, CommerceSummaryQuery, summary_where, summary, newest_first,
  in_ids, conversions_for_targets, content_summary,
}
use content_hub.Commerce.Read.Laws.{sum_commission}
use content_hub.Commerce.Read.Sums.{
  commission_in, commission_in-sum, sum_kept, cancels, keep-keep, newest_first-sum,
}

-- What two requests have added to the table: a line and its reversal.
record Reversed (s s' : Market) (c r : CommerceConversion) : Type 0 where
  pub rows : s'.conversions ≡ r ∷ c ∷ s.conversions
  pub placements : s'.placements ≡ s.placements
  pub posts : s'.store.posts ≡ s.store.posts
  pub contents : s'.store.contents ≡ s.store.contents
  pub linked : SameLinkage r c
  pub amount : r.commission_amount ≡ negate c.commission_amount

target_is :
    (s : Market) (dto : CreateConversion) (c : CommerceConversion) (rest : List CommerceConversion)
    (reversal_of : Option CommerceConversion)
    → s.conversions ≡ c ∷ rest
    → dto.reversal_of_id ≡ some c.id
    → Reverses s dto reversal_of
    → (reversal_of ≡ some c) × (dto.channel ≡ c.channel) × (c.currency ≡ default_currency)
unfolding find_row
target_is s dto c rest _ rows named (nothing e) = absurd (ground arith)
target_is s dto c rest _ rows named (line t e found channel baht) =
    let found' : find_row t.id (c ∷ rest) ≡ some t = ap (find_row t.id) (sym rows) ∙ found in
    let id : c.id ≡ t.id = ground arith in
    let same : c ≡ t = ground arith in
    (ap some (sym same), channel ∙ ap (λ x. x.channel) (sym same), ap (λ x. x.currency) same ∙ baht)

reversed :
    (ports ports' : Ports) (dto dto' : CreateConversion) (user_id user_id' : ℕ) (s t s' : Market)
    {c r : CommerceConversion}
    → create_conversion ports dto user_id s ≡ (ok c, t)
    → create_conversion ports' dto' user_id' t ≡ (ok r, s')
    → dto'.reversal_of_id ≡ some c.id
    → dto'.commission_amount ≡ negate c.commission_amount
    → Reversed s s' c r
unfolding new_conversion linkage_of record_audit
reversed ports ports' dto dto' user_id user_id' s t s' {c} {r} h h' named amount =
    let a = create_conversion-Added ports dto user_id s t h in
    let b = create_conversion-Added ports' dto' user_id' t s' h' in
    let rows = ap (λ m. m.conversions) a.appended in
    let (target, channel, baht) =
      target_is t dto' c s.conversions b.reversal_of rows named b.reverses in
    let row : r ≡ new_conversion ports' dto' (some c) user_id' =
      b.row ∙ ap (λ o. new_conversion ports' dto' o user_id') target in
    record {
      rows = ap (λ m. m.conversions) b.appended ∙ ap (λ cs. r ∷ cs) rows;
      placements = ap (λ m. m.placements) b.appended ∙ ap (λ m. m.placements) a.appended;
      posts = ap (λ m. m.store.posts) b.appended ∙ ap (λ m. m.store.posts) a.appended;
      contents = ap (λ m. m.store.contents) b.appended ∙ ap (λ m. m.store.contents) a.appended;
      linked = record {
        channel = ap (λ x. x.channel) row ∙ channel;
        currency = ap (λ x. x.currency) row ∙ sym baht;
        post_id = ap (λ x. x.post_id) row;
        placement_id = ap (λ x. x.placement_id) row;
        product_id = ap (λ x. x.product_id) row;
        affiliate_link_id = ap (λ x. x.affiliate_link_id) row;
      };
      amount = ap (λ x. x.commission_amount) row ∙ amount;
    }

-- The totals of the summary of a content, none where the content is missing.
abbrev totals_in :
    Result (List (String × CommerceCurrencyTotal) × List CommerceConversion)
    → List (String × CommerceCurrencyTotal)
totals_in (ok (totals, rows)) = totals
totals_in (err e) = []

abbrev pub content_totals : ℕ → Market → List (String × CommerceCurrencyTotal)
content_totals content_id s = totals_in (content_summary content_id s).0

-- What a test on the attribution keeps, in one currency.
kept_sum :
    (p : CommerceConversion → Bool) (currency : String) (s s' : Market) (c r : CommerceConversion)
    → Reversed s s' c r
    → p r ≡ p c
    → sum_commission (keep (λ x. str_eq x.currency currency) (keep p s'.conversions))
      ≡ sum_commission (keep (λ x. str_eq x.currency currency) (keep p s.conversions))
unfolding sum_kept
kept_sum p currency s s' c r v same =
    ap sum_commission (keep-keep (λ x. str_eq x.currency currency) p s'.conversions)
    ∙ ap (λ cs. sum_kept (λ x. p x && str_eq x.currency currency) cs) v.rows
    ∙ cancels (λ x. p x && str_eq x.currency currency) r c s.conversions
        (rw (same, v.linked.currency) refl) v.amount
    ∙ ap sum_commission (sym (keep-keep (λ x. str_eq x.currency currency) p s.conversions))

abbrev in_targets : List ℕ → List ℕ → CommerceConversion → Bool
in_targets placement_ids post_ids c =
    in_ids placement_ids c.placement_id || in_ids post_ids c.post_id

targets_sum :
    (placement_ids post_ids : List ℕ) (currency : String) (cs : List CommerceConversion)
    → commission_in currency (by_currency (conversions_for_targets placement_ids post_ids cs))
      ≡ sum_commission
          (keep (λ x. str_eq x.currency currency) (keep (in_targets placement_ids post_ids) cs))
unfolding conversions_for_targets sum_kept
targets_sum placement_ids post_ids currency cs =
    commission_in-sum currency (newest_first (keep (in_targets placement_ids post_ids) cs))
    ∙ newest_first-sum (λ x. str_eq x.currency currency)
        (keep (in_targets placement_ids post_ids) cs)

abbrev placement_ids_of : ℕ → Market → List ℕ
placement_ids_of content_id s =
    map (λ p. p.id) (keep (λ p. p.content_id == content_id) s.placements)

abbrev post_ids_of : ℕ → Market → List ℕ
post_ids_of content_id s = map (λ p. p.id) (keep (λ p. p.content_id == content_id) s.store.posts)

totals_found :
    (content_id : ℕ) (s : Market) {content : Content}
    → find_content content_id s.store.contents ≡ some content
    → content_totals content_id s
      ≡ by_currency (
          conversions_for_targets
            (placement_ids_of content_id s)
            (post_ids_of content_id s)
            s.conversions)
unfolding content_summary
totals_found content_id s found = rw (found, content_summary) refl

totals_missing :
    (content_id : ℕ) (s : Market)
    → find_content content_id s.store.contents ≡ none
    → content_totals content_id s ≡ []
unfolding content_summary
totals_missing content_id s missing = rw (missing, content_summary) refl

kept_targets :
    (content_id : ℕ) (currency : String) (s s' : Market) (c r : CommerceConversion)
    → Reversed s s' c r
    → sum_commission (
        keep
          (λ x. str_eq x.currency currency)
          (keep
            (in_targets (placement_ids_of content_id s') (post_ids_of content_id s'))
            s'.conversions))
      ≡ sum_commission (
          keep
            (λ x. str_eq x.currency currency)
            (keep
              (in_targets (placement_ids_of content_id s) (post_ids_of content_id s))
              s.conversions))
kept_targets content_id currency s s' c r v =
    let ps = λ (rows : List CommercePlacement).
      map (λ p. p.id) (keep (λ p. p.content_id == content_id) rows) in
    let qs = λ (rows : List Post). map (λ p. p.id) (keep (λ p. p.content_id == content_id) rows) in
    let kept = λ (a b : List ℕ).
      sum_commission
        (keep (λ x. str_eq x.currency currency) (keep (in_targets a b) s'.conversions)) in
    ap (λ rows. kept (ps rows) (post_ids_of content_id s')) v.placements
    ∙ ap (λ rows. kept (placement_ids_of content_id s) (qs rows)) v.posts
    ∙ kept_sum (in_targets (placement_ids_of content_id s) (post_ids_of content_id s)) currency s s'
        c r v (rw (v.linked.placement_id, v.linked.post_id) refl)

content_commission :
    (content_id : ℕ) (currency : String) (s s' : Market) (c r : CommerceConversion)
    → Reversed s s' c r
    → commission_in currency (content_totals content_id s')
      ≡ commission_in currency (content_totals content_id s)
content_commission content_id currency s s' c r v =
    elim (Option-cases (find_content content_id s.store.contents)) [
      | inl missing ↦ ap (commission_in currency) (
          totals_missing content_id s' (ap (find_content content_id) v.contents ∙ missing)
          ∙ sym (totals_missing content_id s missing))
      | inr (content, found) ↦
          let ps = placement_ids_of content_id s in
          let qs = post_ids_of content_id s in
          ap (commission_in currency)
            (totals_found content_id s' (ap (find_content content_id) v.contents ∙ found))
          ∙ targets_sum (placement_ids_of content_id s') (post_ids_of content_id s') currency
              s'.conversions
          ∙ kept_targets content_id currency s s' c r v
          ∙ sym (targets_sum ps qs currency s.conversions)
          ∙ ap (commission_in currency) (sym (totals_found content_id s found))
    ]

-- A line and its reversal cancel: once a line was added and then a line that reverses it with the negated
-- commission, every summary whose query selects both or neither has the commission it had before, in each
-- currency, and so has the summary of every content.
pub reversal_cancels :
    (ports ports' : Ports) (dto dto' : CreateConversion) (user_id user_id' : ℕ) (s t s' : Market)
    {c r : CommerceConversion} (query : CommerceSummaryQuery) (currency : String) (content_id : ℕ)
    → create_conversion ports dto user_id s ≡ (ok c, t)
    → create_conversion ports' dto' user_id' t ≡ (ok r, s')
    → dto'.reversal_of_id ≡ some c.id
    → dto'.commission_amount ≡ negate c.commission_amount
    → summary_where query r ≡ summary_where query c
    → (commission_in currency (summary query s').totals
        ≡ commission_in currency (summary query s).totals)
      × (commission_in currency (content_totals content_id s')
          ≡ commission_in currency (content_totals content_id s))
unfolding summary
reversal_cancels ports ports' dto dto' user_id user_id' s t s' {c} {r} query currency content_id h
      h' named amount selected =
    let v = reversed ports ports' dto dto' user_id user_id' s t s' h h' named amount in
    (
      commission_in-sum currency (keep (summary_where query) s'.conversions)
          ∙ kept_sum (summary_where query) currency s s' c r v selected
          ∙ sym (commission_in-sum currency (keep (summary_where query) s.conversions)),
      content_commission content_id currency s s' c r v,
    )
