-- ===== src/Comments/Retention/Laws.antt =====
-- The cutoff of the retention on the calendar.
use content_hub.Base.{
  ℕ, ◌+◌, ◌-◌, ◌*◌, ◌/◌, ◌%◌, ◌≤◌, ◌<◌, ◌≡◌, refl, ap, ◌∙◌, Bool, true, false, not, ◌&&◌, inl, inr,
  arith, ◌==◌, leb, if◌then◌else◌, Bool-cases, keep, length, List, [], ◌∷◌,
}
use mathlib.Core.Path.{subst}
use content_hub.Comments.Retention.{
  Civil, is_leap, days_in, land, subtract_months, retention_months, Calendar, cutoff_of, is_expired,
  purge_expired,
}
use content_hub.Base.Effects.{ok}
use content_hub.Comments.Records.{Comment}
use content_hub.Comments.Reply.{Inbox}

-- A date of the calendar.
pub record IsDate (d : Civil) : Type 0 where
  pub month_bound : d.month < 12
  pub day_bound : d.day ≤ days_in d.year d.month

-- 29 February.
abbrev pub is_leap_day : Civil → Bool
is_leap_day d = d.month == 1 && d.day == 29

-- The same day of the year before, or 1 March.
abbrev pub year_before : Civil → Civil
year_before d =
    if is_leap_day d
    then record { year = d.year - 1; month = 2; day = 1; time = d.time }
    else record d { year = d.year - 1 }

target_year : (y m : ℕ) → m < 12 → 1 ≤ y → (y * 12 + m - 12) / 12 ≡ y - 1
target_year y m h k = omega (arith, h, k)

target_month : (y m : ℕ) → m < 12 → 1 ≤ y → (y * 12 + m - 12) % 12 ≡ m
target_month y m h k = omega (arith, h, k)

-- No leap year follows another.
leap_before : (y : ℕ) → 1 ≤ y → is_leap y ≡ true → is_leap (y - 1) ≡ false
unfolding is_leap
leap_before y k h = ground (arith, h, k)

fits :
    (y m d : ℕ)
    → 1 ≤ y
    → d ≤ days_in y m
    → (m == 1 && d == 29) ≡ false
    → leb d (days_in (y - 1) m) ≡ true
unfolding days_in
fits y m d k h e = elim (Bool-cases (is_leap y)) [
  | inl leap ↦ ground (arith, leap, leap_before y k leap, h, e)
  | inr common ↦ ground (arith, common, h, e)
]

over : (y d : ℕ) → 1 ≤ y → d ≤ days_in y 1 → d ≡ 29 → days_in (y - 1) 1 ≡ 28
unfolding days_in
over y d k h e = elim (Bool-cases (is_leap y)) [
  | inl leap ↦ ground (arith, leap, leap_before y k leap)
  | inr common ↦ absurd (ground (arith, common, h, e))
]

land_leap :
    (d : Civil)
    → IsDate d
    → 1 ≤ d.year
    → is_leap_day d ≡ true
    → land d (d.year - 1) 1 ≡ year_before d
unfolding land
land_leap d h k e =
    let day : d.day ≡ 29 = ground (arith, e) in
    let month : d.month ≡ 1 = ground (arith, e) in
    let long = over d.year d.day k (subst (λ m. d.day ≤ days_in d.year m) month h.day_bound) day in
    rw (e, long, day) refl

land_other :
    (d : Civil)
    → IsDate d
    → 1 ≤ d.year
    → is_leap_day d ≡ false
    → land d (d.year - 1) d.month ≡ year_before d
unfolding land
land_other d h k e = rw (e, fits d.year d.month d.day k h.day_bound e) refl

-- Twelve months before a date of the calendar is the same day of the year before; twelve months before 29 February is
-- 1 March.
pub subtract_months-year_before :
    (d : Civil) → IsDate d → 1 ≤ d.year → subtract_months d retention_months ≡ year_before d
unfolding subtract_months
subtract_months-year_before d h k =
    ap (λ y. land d y ((d.year * 12 + d.month - 12) % 12))
      (target_year d.year d.month h.month_bound k)
    ∙ ap (land d (d.year - 1)) (target_month d.year d.month h.month_bound k)
    ∙ elim (Bool-cases (is_leap_day d)) [
      | inl leap ↦
          ap (land d (d.year - 1)) {x = d.month} {y = 1} (ground (arith, leap))
          ∙ land_leap d h k leap
      | inr other ↦ land_other d h k other
    ]

keep_none :
    (p : Comment → Bool) (cs : List Comment) → length (keep p (keep (λ c. not (p c)) cs)) ≡ 0
keep_none p [] = refl
keep_none p (c ∷ cs) = ground (arith, keep_none p cs)

keep_parts :
    (p : Comment → Bool) (cs : List Comment)
    → length (keep p cs) + length (keep (λ c. not (p c)) cs) ≡ length cs
keep_parts p [] = omega arith
keep_parts p (c ∷ cs) = ground (arith, keep_parts p cs)

-- The cutoff of a purge: twelve months ago.
abbrev pub year_ago : Calendar → ℕ → ℕ
year_ago calendar now = calendar.time_of (year_before (calendar.civil_of now))

-- What a purge has done.
pub record IsPurged (calendar : Calendar) (user_id now : ℕ) (s : Inbox) : Type 0 where
  pub deleted : ℕ
  pub returned : (purge_expired calendar user_id now s).0 ≡ ok (deleted, year_ago calendar now)
  pub rows :
      (purge_expired calendar user_id now s).1.comments
      ≡ keep (λ c. leb (year_ago calendar now) c.collected_at) s.comments
  pub counted :
      deleted + length (purge_expired calendar user_id now s).1.comments ≡ length s.comments
  pub again :
      (purge_expired calendar user_id now (purge_expired calendar user_id now s).1).0
      ≡ ok (0, year_ago calendar now)

keep_since :
    (cutoff : ℕ) (cs : List Comment)
    → keep (λ c. not (is_expired cutoff c)) cs ≡ keep (λ c. leb cutoff c.collected_at) cs
keep_since cutoff [] = refl
keep_since cutoff (c ∷ cs) = ground (arith, keep_since cutoff cs)

-- A purge deletes exactly the comments of which the time on the platform is before the same day and time a year
-- ago, or before 1 March where that day is 29 February; it returns their number, and a second purge at the same
-- time deletes none.
pub purge_expired-IsPurged :
    (calendar : Calendar) (user_id now : ℕ) (s : Inbox)
    → IsDate (calendar.civil_of now)
    → 1 ≤ (calendar.civil_of now).year
    → IsPurged calendar user_id now s
unfolding purge_expired cutoff_of
purge_expired-IsPurged calendar user_id now s h k =
    let cutoff = cutoff_of calendar now in
    let date : cutoff ≡ year_ago calendar now =
      ap calendar.time_of (subtract_months-year_before (calendar.civil_of now) h k) in
    record {
      deleted = length (keep (is_expired cutoff) s.comments);
      returned = ap (λ t. ok (length (keep (is_expired cutoff) s.comments), t)) date;
      rows =
          keep_since cutoff s.comments ∙ ap (λ t. keep (λ c. leb t c.collected_at) s.comments) date;
      counted = keep_parts (is_expired cutoff) s.comments;
      again =
          ap (λ n. ok (n, cutoff)) (keep_none (is_expired cutoff) s.comments)
          ∙ ap (λ t. ok (0, t)) date;
    }
