-- ===== src/Commerce/Lawful/Conversions.antt =====
-- backend/src/modules/commerce/commerce-conversion.service.ts keeps the tables of the shop lawful.
use content_hub.Base.{
  ℕ, ◌≤◌, ◌≡◌, refl, sym, ap, ◌∙◌, inl, inr, true, false, not, Option, none, some, All-map, arith,
  any, Option-cases, Bool-cases, ◌==◌, ltb, List,
}
use text.Mathlib.Text.{◌==◌ as str_eq}
use text.Mathlib.TextEquality.{eq_iff}
use content_hub.Base.Effects.{bad_request, not_found, database, conflict}
use content_hub.Base.Effects.Keeping.{Guards, passes, throws, guarded, ensure_guards}
use content_hub.Base.Tables.{
  find_row, find_row-insert_unique, find_row_self, find_row-key, insert_unique, insert_unique-Apart,
  insert_unique-All,
}
use content_hub.Common.DateRange.{assert_valid_date_range}
use content_hub.Common.RefShape.{assert_ref_shape, is_ref_shape}
use content_hub.Common.Currency.{default_currency}
use content_hub.Content.Service.{is_null}
use content_hub.Publish.Store.{Ports, commerce_conversion_added}
use content_hub.Commerce.Duration.{CommerceChannel}
use content_hub.Commerce.Market.{
  CommerceConversion, conversion_keyed, Market, conversions_clash, channel_index, to_day,
}
use content_hub.Commerce.Conversion.{
  CreateConversion, is_duplicate, assert_not_duplicate, load_reversal_target, linkage_of,
  new_conversion, references_hold, insert_conversion, create_conversion,
}
use content_hub.Commerce.Lawful.{IsBacked, IsPeriod, IsLawful}
use content_hub.Commerce.Lawful.Steps.{noted}

pub period_valid :
    (I : Market → Type 0) (start end_ : ℕ) {s : Market}
    → I s
    → Guards I (assert_valid_date_range start (some end_)) s (λ _. start ≤ end_)
unfolding assert_valid_date_range
period_valid I start end_ {s} i = elim (Bool-cases (ltb end_ start)) [
  | inl reversed ↦ throws bad_request s (ground arith) i
  | inr ordered ↦ passes tt (ground arith) (ground arith)
]

pub not_duplicate :
    (I : Market → Type 0) (now : ℕ) (dto : CreateConversion) (user_id : ℕ) {s : Market}
    → I s
    → Guards I
        (assert_not_duplicate now dto user_id)
        s
        (λ _. any (is_duplicate now dto user_id) s.conversions ≡ false)
unfolding assert_not_duplicate
not_duplicate I now dto user_id {s} i =
    elim (Bool-cases (any (is_duplicate now dto user_id) s.conversions)) [
      | inl again ↦ throws conflict s (ground arith) i
      | inr new ↦ passes tt (ground arith) new
    ]

channel_same_iff : (a b : CommerceChannel) → (channel_index a == channel_index b) ≡ true → a ≡ b
channel_same_iff a b h = ground arith

-- What a body reverses: nothing, or a line of the table on its channel and in the currency of the program.
pub data Reverses (s : Market) (dto : CreateConversion) : Option CommerceConversion → Type 0 where
  nothing : dto.reversal_of_id ≡ none → Reverses s dto none
  line :
      (t : CommerceConversion)
      → dto.reversal_of_id ≡ some t.id
      → find_row t.id s.conversions ≡ some t
      → dto.channel ≡ t.channel
      → t.currency ≡ default_currency
      → Reverses s dto (some t)

pub target_loaded :
    (I : Market → Type 0) (dto : CreateConversion) {s : Market}
    → I s
    → Guards I (load_reversal_target dto) s (Reverses s dto)
unfolding load_reversal_target
target_loaded I dto {s} i = elim (Option-cases dto.reversal_of_id) [
  | inl e ↦ passes none (ground arith) (nothing e)
  | inr (id, e) ↦ elim (Option-cases (find_row id s.conversions)) [
    | inl missing ↦ throws not_found s (ground arith) i
    | inr (t, found) ↦ elim (Bool-cases (channel_index t.channel == channel_index dto.channel)) [
      | inr other ↦ throws bad_request s (ground arith) i
      | inl same ↦ elim (Bool-cases (str_eq t.currency default_currency)) [
        | inr foreign ↦ throws bad_request s (ground arith) i
        | inl baht ↦ passes (some t) (ground arith) (
            line t (e ∙ ap some (sym (find_row-key id s.conversions found)))
              (find_row_self id s.conversions found)
              (sym (channel_same_iff t.channel dto.channel same))
              ((eq_iff t.currency default_currency).0 baht))
      ]
    ]
  ]
]

to_day_mono : (a b : ℕ) → a ≤ b → to_day a ≤ to_day b
to_day_mono a b h = omega arith

conversions_cover :
    (c d : CommerceConversion) → (c.id == d.id) ≡ true → conversions_clash c d ≡ true
unfolding conversions_clash
conversions_cover c d same = same

IsBacked-still :
    (c : CommerceConversion) (s : Market) {rows : List CommerceConversion}
    → insert_unique conversions_clash c s.conversions ≡ some rows
    → (d : CommerceConversion) → IsBacked s.conversions d
    → IsBacked rows d
IsBacked-still c s made d backed id e =
    let (t, found, same) = backed id e in
    (
      t,
      find_row-insert_unique conversions_clash conversions_cover c s.conversions id made found,
      same,
    )

inserted :
    (c : CommerceConversion) (s : Market)
    → IsLawful s
    → IsPeriod c
    → IsBacked s.conversions c
    → IsLawful (insert_conversion c s).1
unfolding insert_conversion
inserted c s i period backed = elim (Bool-cases (references_hold s c)) [
  | inr dangling ↦ rw (dangling, insert_conversion) i
  | inl hold ↦ elim (Option-cases (insert_unique conversions_clash c s.conversions)) [
    | inl taken ↦ rw (hold, taken, insert_conversion) i
    | inr (rows, made) ↦
        rw (hold, made, insert_conversion)
          record {
            products_apart = i.products_apart;
            links_apart = i.links_apart;
            anchors_apart = i.anchors_apart;
            placements_apart = i.placements_apart;
            conversions_apart = insert_unique-Apart _ c s.conversions i.conversions_apart made;
            linked = i.linked;
            placeable = i.placeable;
            periods = insert_unique-All _ _ c s.conversions period i.periods made;
            backed =
                insert_unique-All _ _ c s.conversions (IsBacked-still c s made c backed)
                  (All-map (IsBacked-still c s made) s.conversions i.backed) made;
          }
  ]
]

new_row-IsPeriod :
    (ports : Ports) (dto : CreateConversion) (reversal_of : Option CommerceConversion) (user_id : ℕ)
    → dto.period_start ≤ dto.period_end
    → IsPeriod (new_conversion ports dto reversal_of user_id)
unfolding new_conversion
new_row-IsPeriod ports dto reversal_of user_id ordered =
    (to_day_mono dto.period_start dto.period_end ordered, refl)

new_row-IsBacked :
    (ports : Ports) (dto : CreateConversion) (reversal_of : Option CommerceConversion) (user_id : ℕ)
    (s : Market)
    → Reverses s dto reversal_of
    → IsBacked s.conversions (new_conversion ports dto reversal_of user_id)
unfolding new_conversion linkage_of
new_row-IsBacked ports dto _ user_id s (nothing e) id e' = absurd (ground arith)
new_row-IsBacked ports dto _ user_id s (line t named found channel baht) id e' = (
  t,
  ground arith,
  record {
    channel = channel;
    currency = sym baht;
    post_id = refl;
    placement_id = refl;
    product_id = refl;
    affiliate_link_id = refl;
  },
)

pub create_conversion-IsLawful :
    (ports : Ports) (dto : CreateConversion) (user_id : ℕ) (s : Market)
    → IsLawful s
    → IsLawful (create_conversion ports dto user_id s).1
unfolding create_conversion assert_ref_shape
create_conversion-IsLawful ports dto user_id s i =
    guarded _ (ensure_guards IsLawful (is_ref_shape dto.statement_ref) bad_request i) λ _ _.
      guarded _ (period_valid IsLawful dto.period_start dto.period_end i) λ _ ordered.
        guarded _ (not_duplicate IsLawful ports.now dto user_id i) λ _ _.
          guarded _ (target_loaded IsLawful dto i) λ reversal_of reverses.
            guarded _ (ensure_guards IsLawful (not (is_null dto.gross_sales_amount)) database i)
              λ _ _.
                let c = new_conversion ports dto reversal_of user_id in
                noted user_id commerce_conversion_added (insert_conversion c) s (
                  inserted c s i (new_row-IsPeriod ports dto reversal_of user_id ordered)
                    (new_row-IsBacked ports dto reversal_of user_id s reverses))
