-- ===== src/Commerce/Conversion/Laws.antt =====
-- backend/src/modules/commerce/commerce-conversion.service.ts: what is written when a line is added, and what the check
-- on a double submission sees.
use content_hub.Base.{
  ℕ, ◌+◌, ◌≤◌, ◌≡◌, ◌↔◌, refl, sym, ap, ◌∙◌, inl, inr, Bool, true, false, not, List, [], ◌∷◌,
  Option, none, some, String, arith, any, Bool-cases,
}
use mathlib.Core.Path.{subst}
use content_hub.Base.Effects.{ok, err, conflict, ◌>>=◌, ◌>>◌, return, modify, bad_request, database}
use content_hub.Base.Effects.Passing.{passed, ensure_decides}
use content_hub.Base.Effects.Keeping.{decided}
use content_hub.Base.Tables.{insert_unique}
use text.Mathlib.TextEquality.{eq_iff}
use content_hub.Common.RefShape.{assert_ref_shape, is_ref_shape}
use content_hub.Content.Service.{is_null}
use content_hub.Publish.Store.{Ports, record_audit, audit_row, commerce_conversion_added}
use content_hub.Common.DateRange.{assert_valid_date_range}
use content_hub.Commerce.Market.{CommerceConversion, Market, note}
use content_hub.Commerce.Conversion.{
  CreateConversion, same_id, same_text, is_duplicate, assert_not_duplicate, idempotency_window_ms,
  linkage_of, new_conversion, references_hold, insert_conversion, create_conversion,
  load_reversal_target,
}
use content_hub.Commerce.Lawful.Conversions.{period_valid, not_duplicate, Reverses, target_loaded}

pub record Added (ports : Ports) (dto : CreateConversion) (user_id : ℕ) (s s' : Market)
    (c : CommerceConversion) : Type 0 where
  pub shaped : is_ref_shape dto.statement_ref ≡ true
  pub ordered : dto.period_start ≤ dto.period_end
  pub fresh : any (is_duplicate ports.now dto user_id) s.conversions ≡ false
  pub reversal_of : Option CommerceConversion
  pub reverses : Reverses s dto reversal_of
  pub row : c ≡ new_conversion ports dto reversal_of user_id
  pub referred : references_hold s c ≡ true
  pub appended : s' ≡ record s {
    conversions = c ∷ s.conversions;
    store = record_audit (audit_row user_id commerce_conversion_added true none) s.store;
  }

inserted :
    (c : CommerceConversion) (user_id : ℕ) (s s' : Market) {made : CommerceConversion}
    → ((insert_conversion c >>= λ made.
          (modify (note user_id commerce_conversion_added) >> return made))
        s)
      ≡ (ok made, s')
    → (made ≡ c)
      × (references_hold s made ≡ true)
      × (s' ≡ record s {
        conversions = made ∷ s.conversions;
        store = record_audit (audit_row user_id commerce_conversion_added true none) s.store;
      })
unfolding insert_conversion insert_unique note
inserted c user_id s s' h = ground arith

-- When create of the statement lines returns one, the reference has its shape, the period is in order, no line of the
-- user repeats the body within the window, and what the body reverses is a line on its channel in the currency of
-- the program; the line is the one that the body describes, a reversal with the attribution of its target,
-- all that it refers to is there, it is appended to the table, and one audit row is written.
pub create_conversion-Added :
    (ports : Ports) (dto : CreateConversion) (user_id : ℕ) (s s' : Market) {c : CommerceConversion}
    → create_conversion ports dto user_id s ≡ (ok c, s')
    → Added ports dto user_id s s' c
unfolding create_conversion assert_ref_shape
create_conversion-Added ports dto user_id s s' h =
    let shaped = passed (ensure_decides (is_ref_shape dto.statement_ref) bad_request s) h in
    let ordered =
      passed (decided (period_valid (λ _. Unit {0}) dto.period_start dto.period_end tt))
        shaped.rest in
    let fresh =
      passed (decided (not_duplicate (λ _. Unit {0}) ports.now dto user_id tt)) ordered.rest in
    let target = passed (decided (target_loaded (λ _. Unit {0}) dto tt)) fresh.rest in
    let priced =
      passed (ensure_decides (not (is_null dto.gross_sales_amount)) database s) target.rest in
    let made = inserted _ user_id s s' priced.rest in
    record {
      shaped = shaped.holds;
      ordered = ordered.holds;
      fresh = fresh.holds;
      reversal_of = target.value;
      reverses = target.holds;
      row = made.0;
      referred = made.1;
      appended = made.2;
    }

same_id_iff : (a b : Option ℕ) → (same_id a b ≡ true) ↔ (a ≡ b)
same_id_iff none none = ground arith
same_id_iff none (some b) = ground arith
same_id_iff (some a) none = ground arith
same_id_iff (some a) (some b) = ground arith

same_text_self : (a : Option String) → same_text a a ≡ true
same_text_self none = refl
same_text_self (some a) = (eq_iff a a).1 refl

-- The body names the attribution of the row itself.
pub record NamesLinkage (dto : CreateConversion) (c : CommerceConversion) : Type 0 where
  pub post_id : c.post_id ≡ dto.post_id
  pub placement_id : c.placement_id ≡ dto.placement_id
  pub product_id : c.product_id ≡ dto.product_id
  pub affiliate_link_id : c.affiliate_link_id ≡ dto.affiliate_link_id

-- The row of a body is a duplicate to the same body exactly if the body names the attribution of the row itself.
is_duplicate-NamesLinkage :
    (ports : Ports) (dto : CreateConversion) (user_id : ℕ) (reversal_of : Option CommerceConversion)
    (now : ℕ)
    → now ≤ ports.now + idempotency_window_ms
    → let c = new_conversion ports dto reversal_of user_id in
      (is_duplicate now dto user_id c ≡ true) ↔ NamesLinkage dto c
unfolding is_duplicate new_conversion
is_duplicate-NamesLinkage ports dto user_id reversal_of now h =
    let l = linkage_of dto reversal_of in
    (
      λ d. record {
        post_id = (same_id_iff l.post_id dto.post_id).0 (ground arith);
        placement_id = (same_id_iff l.placement_id dto.placement_id).0 (ground arith);
        product_id = (same_id_iff l.product_id dto.product_id).0 (ground arith);
        affiliate_link_id =
            (same_id_iff l.affiliate_link_id dto.affiliate_link_id).0 (ground arith);
      },
      λ n. ground (
        arith,
        (same_id_iff l.post_id dto.post_id).1 n.post_id,
        (same_id_iff l.placement_id dto.placement_id).1 n.placement_id,
        (same_id_iff l.product_id dto.product_id).1 n.product_id,
        (same_id_iff l.affiliate_link_id dto.affiliate_link_id).1 n.affiliate_link_id,
        same_text_self dto.statement_ref,
        (same_id_iff dto.orders_count dto.orders_count).1 refl,
        (same_id_iff dto.items_sold dto.items_sold).1 refl,
      ),
    )

later_window :
    (now now' : ℕ) (dto : CreateConversion) (user_id : ℕ) (c : CommerceConversion)
    → now ≤ now'
    → is_duplicate now dto user_id c ≡ false
    → is_duplicate now' dto user_id c ≡ false
unfolding is_duplicate
later_window now now' dto user_id c later h = ground arith

any_later :
    (now now' : ℕ) (dto : CreateConversion) (user_id : ℕ) (cs : List CommerceConversion)
    → now ≤ now'
    → any (is_duplicate now dto user_id) cs ≡ false
    → any (is_duplicate now' dto user_id) cs ≡ false
any_later now now' dto user_id [] later h = refl
any_later now now' dto user_id (c ∷ cs) later h =
    ground
      (arith, later_window now now' dto user_id c later, any_later now now' dto user_id cs later)

shape_passes :
    (ref : Option String) (s : Market)
    → is_ref_shape ref ≡ true
    → assert_ref_shape {S = Market} ref s ≡ (ok tt, s)
unfolding assert_ref_shape
shape_passes ref s h = ground arith

period_passes :
    (start end_ : ℕ) (s : Market)
    → start ≤ end_
    → assert_valid_date_range {S = Market} start (some end_) s ≡ (ok tt, s)
unfolding assert_valid_date_range
period_passes start end_ s h = ground arith

request_refused_iff :
    (ports : Ports) (dto : CreateConversion) (user_id : ℕ) (s : Market)
    → assert_ref_shape {S = Market} dto.statement_ref s ≡ (ok tt, s)
    → assert_valid_date_range {S = Market} dto.period_start (some dto.period_end) s ≡ (ok tt, s)
    → (create_conversion ports dto user_id s ≡ (err conflict, s))
      ↔ (any (is_duplicate ports.now dto user_id) s.conversions ≡ true)
unfolding create_conversion assert_not_duplicate load_reversal_target insert_conversion
request_refused_iff ports dto user_id s shape period =
    elim (Bool-cases (any (is_duplicate ports.now dto user_id) s.conversions)) [
      | inl again ↦ (λ h. again, λ h. ground (arith, shape, period, again))
      | inr new ↦ (λ h. absurd (ground (arith, shape, period, new, h)), λ h. cc (sym new ∙ h))
    ]

head_only :
    (p : CommerceConversion → Bool) (c : CommerceConversion) (cs : List CommerceConversion)
    → any p cs ≡ false
    → (any p (c ∷ cs) ≡ true) ↔ (p c ≡ true)
head_only p c cs h = (λ e. ground arith, λ e. ground arith)

-- After a line was added, the same request from the same user within the window is refused as a conflict exactly if
-- the body names the attribution of the line itself. A body that reverses a line and leaves out the attribution, which the
-- reversal takes from that line, is not recognised when it is sent again.
pub resubmitted_iff :
    (ports : Ports) (dto : CreateConversion) (user_id : ℕ) (s s' : Market) {c : CommerceConversion}
    (now new_id : ℕ)
    → create_conversion ports dto user_id s ≡ (ok c, s')
    → ports.now ≤ now
    → now ≤ ports.now + idempotency_window_ms
    → (create_conversion (record ports { now = now; new_id = new_id }) dto user_id s'
        ≡ (err conflict, s'))
      ↔ NamesLinkage dto c
resubmitted_iff ports dto user_id s s' {c} now new_id h later soon =
    let a = create_conversion-Added ports dto user_id s s' h in
    let old = any_later ports.now now dto user_id s.conversions later a.fresh in
    let rows = ap (λ m. any (is_duplicate now dto user_id) m.conversions) a.appended in
    let shape : assert_ref_shape {S = Market} dto.statement_ref s' ≡ (ok tt, s') =
      shape_passes dto.statement_ref s' a.shaped in
    let period = period_passes dto.period_start dto.period_end s' a.ordered in
    let refused =
      request_refused_iff (record ports { now = now; new_id = new_id }) dto user_id s' shape
        period in
    let head = head_only (is_duplicate now dto user_id) c s.conversions old in
    let recognised : (is_duplicate now dto user_id c ≡ true) ↔ NamesLinkage dto c =
      subst (λ r. (is_duplicate now dto user_id r ≡ true) ↔ NamesLinkage dto r) (sym a.row)
        (is_duplicate-NamesLinkage ports dto user_id a.reversal_of now soon) in
    (
      λ e. recognised.0 (head.0 (sym rows ∙ refused.0 e)),
      λ n. refused.1 (rows ∙ head.1 (recognised.1 n)),
    )
