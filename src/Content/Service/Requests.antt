-- ===== src/Content/Service/Requests.antt =====
-- What the requests that change and archive content have written when they succeed; every request keeps
-- the table lawful.
use content_hub.Base.{
  ℕ, ◌≤◌, ◌≡◌, refl, ◌⊎◌, inl, inr, false, not, List, [], ◌∷◌, some, arith, All, Bool-cases, ◌==◌,
}
use mathlib.Core.Path.{subst}
use mathlib.Core.Option.{some-injective}
use content_hub.Base.Effects.{M, Result, ok, err, Exn, ◌>>=◌, ◌>>◌, return, modify, database}
use content_hub.Base.Effects.Passing.{passed, ensure_decides}
use content_hub.Schema.{is_ready}
use content_hub.Content.Records.{Content, find_content}
use content_hub.Content.Service.{
  Library, ContentAction, Clock, CreateContent, UpdateContent, or_else, assert_age_range_is_valid,
  assert_clearance_is_eligible, assert_ready_transition_allowed, record_audit, create,
  find_or_throw, merged_compliance, given_cleared, patched, nulls_a_required_column,
  update_contents, update_content, update, set_archived, archive, content_updated, content_archived,
}
use content_hub.Content.Service.Laws.{
  IsLawful, age_valid, IsAllowed, ready_transition, clearance_eligible, when_decides, row_found,
  gated_row, update_contents-IsLawful, create-CreatedContent, create_refused,
}

patched-IsLawful :
    (clock : Clock) (dto : UpdateContent) (c : Content)
    → or_else dto.target_age_min c.target_age_min ≤ or_else dto.target_age_max c.target_age_max
    → (is_ready (or_else dto.status c.status) ≡ false) ⊎ IsAllowed (merged_compliance dto c)
    → IsLawful (patched clock dto c)
unfolding patched
patched-IsLawful clock dto c ages allowed = record { ages = ages; gated = gated_row _ allowed }

-- The write of a row that was found, and its audit row.
rewritten :
    (id : ℕ) (data_ : Content → Content) (action : ContentAction) (user_id : ℕ) (s s' : Library)
    (c : Content) {made : Content}
    → find_content id s.contents ≡ some c
    → ((update_content id data_ >>= λ row. (modify (record_audit user_id action id) >> return row))
        s)
      ≡ (ok made, s')
    → (made ≡ data_ c)
      × (s'.contents ≡ update_contents id data_ s.contents)
      × (s'.audit ≡ record { actor = user_id; action = action; content_id = id } ∷ s.audit)
unfolding update_content record_audit
rewritten id data_ action user_id s s' c found h = ground arith

pub record UpdatedContent (clock : Clock) (id : ℕ) (dto : UpdateContent) (user_id : ℕ)
    (s s' : Library) (c : Content) : Type 0 where
  pub existing : Content
  pub found : find_content id s.contents ≡ some existing
  pub row : c ≡ patched clock dto existing
  pub lawful : IsLawful c
  pub persisted : s'.contents ≡ update_contents id (patched clock dto) s.contents
  pub audited :
      s'.audit ≡ record { actor = user_id; action = content_updated; content_id = id } ∷ s.audit

-- When update returns a row, it is the row that was found with the fields that the body gives, it is lawful
-- whatever the row was before, it alone is written, and one audit row says so.
pub update-UpdatedContent :
    (clock : Clock) (id : ℕ) (dto : UpdateContent) (user_id : ℕ) (s s' : Library) {c : Content}
    → update clock id dto user_id s ≡ (ok c, s')
    → UpdatedContent clock id dto user_id s s' c
unfolding update
update-UpdatedContent clock id dto user_id s s' h =
    let existing = passed (row_found id s) h in
    let row = existing.value in
    let ages =
      passed
        (age_valid (or_else dto.target_age_min row.target_age_min)
          (or_else dto.target_age_max row.target_age_max) s)
        existing.rest in
    let eligible =
      passed
        (when_decides (given_cleared dto.copyright_cleared)
          (clearance_eligible (merged_compliance dto row) s))
        ages.rest in
    let allowed =
      passed
        (when_decides (is_ready (or_else dto.status row.status))
          (ready_transition (merged_compliance dto row) s))
        eligible.rest in
    let stored =
      passed (ensure_decides (not (nulls_a_required_column dto)) database s) allowed.rest in
    let (same, persisted, audited) =
      rewritten id (patched clock dto) content_updated user_id s s' row existing.holds
        stored.rest in
    record {
      existing = row;
      found = existing.holds;
      row = same;
      lawful = rw same (patched-IsLawful clock dto row ages.holds allowed.holds);
      persisted = persisted;
      audited = audited;
    }

-- When update throws, nothing has changed.
pub update_refused :
    (clock : Clock) (id : ℕ) (dto : UpdateContent) (user_id : ℕ) (s s' : Library) {e : Exn}
    → update clock id dto user_id s ≡ (err e, s')
    → s' ≡ s
unfolding update find_or_throw assert_age_range_is_valid assert_clearance_is_eligible
    assert_ready_transition_allowed update_content
update_refused clock id dto user_id s s' h = ground arith

pub record ArchivedContent (id user_id : ℕ) (s s' : Library) (c : Content) : Type 0 where
  pub existing : Content
  pub found : find_content id s.contents ≡ some existing
  pub row : c ≡ set_archived existing
  pub persisted : s'.contents ≡ update_contents id set_archived s.contents
  pub audited :
      s'.audit ≡ record { actor = user_id; action = content_archived; content_id = id } ∷ s.audit

pub archive-ArchivedContent :
    (id user_id : ℕ) (s s' : Library) {c : Content}
    → archive id user_id s ≡ (ok c, s')
    → ArchivedContent id user_id s s' c
unfolding archive
archive-ArchivedContent id user_id s s' h =
    let existing = passed (row_found id s) h in
    let (same, persisted, audited) =
      rewritten id set_archived content_archived user_id s s' existing.value existing.holds
        existing.rest in
    record {
      existing = existing.value;
      found = existing.holds;
      row = same;
      persisted = persisted;
      audited = audited;
    }

archive_refused :
    (id user_id : ℕ) (s s' : Library) {e : Exn} → archive id user_id s ≡ (err e, s') → s' ≡ s
unfolding archive find_or_throw update_content
archive_refused id user_id s s' h = ground arith

pub found-IsLawful :
    (id : ℕ) (cs : List Content) {c : Content}
    → find_content id cs ≡ some c
    → All IsLawful cs
    → IsLawful c
unfolding find_content
found-IsLawful id [] found all = cc
found-IsLawful id (x ∷ cs) found (first, rest) = elim (Bool-cases (x.id == id)) [
  | inl hit ↦ subst IsLawful (some-injective _ _ (rw hit at found)) first
  | inr miss ↦ found-IsLawful id cs (rw miss at found) rest
]

archived-IsLawful : (c : Content) → IsLawful c → IsLawful (set_archived c)
unfolding set_archived
archived-IsLawful c lawful = record { ages = lawful.ages; gated = inl refl }

-- A request on the table of contents, with its user.
pub data ContentRequest : Type 0 where
  to_create : CreateContent → ℕ → ContentRequest
  to_update : ℕ → UpdateContent → ℕ → ContentRequest
  to_archive : ℕ → ℕ → ContentRequest

abbrev pub respond : Clock → ContentRequest → M Library Content
respond clock (to_create dto user_id) = create clock dto user_id
respond clock (to_update id dto user_id) = update clock id dto user_id
respond clock (to_archive id user_id) = archive id user_id

outcome :
    {A : Type 0} (r : Result A × Library)
    → ((a : A) × (r ≡ (ok a, r.1))) ⊎ ((e : Exn) × (r ≡ (err e, r.1)))
outcome (ok a, t) = inl (a, refl)
outcome (err e, t) = inr (e, refl)

unchanged-IsLawful : (s t : Library) → t ≡ s → All IsLawful s.contents → All IsLawful t.contents
unchanged-IsLawful s t same all = rw same all

-- Every request keeps the table lawful, whether it returns or throws: in each row the ages are in order, and
-- a row that is ready is cleared and has the evidence that its pillar asks.
pub respond-IsLawful :
    (clock : Clock) (request : ContentRequest) (s : Library)
    → All IsLawful s.contents
    → All IsLawful (respond clock request s).1.contents
respond-IsLawful clock (to_create dto user_id) s all = elim (outcome (create clock dto user_id s)) [
  | inl (c, e) ↦
      let done = create-CreatedContent clock dto user_id s _ e in
      rw done.persisted (done.lawful, all)
  | inr (e, h) ↦ unchanged-IsLawful s _ (create_refused clock dto user_id s _ h) all
]
respond-IsLawful clock (to_update id dto user_id) s all =
    elim (outcome (update clock id dto user_id s)) [
      | inl (c, e) ↦
          let done = update-UpdatedContent clock id dto user_id s _ e in
          rw done.persisted (
            update_contents-IsLawful id (patched clock dto) s.contents done.found
              (rw done.row at done.lawful) all)
      | inr (e, h) ↦ unchanged-IsLawful s _ (update_refused clock id dto user_id s _ h) all
    ]
respond-IsLawful clock (to_archive id user_id) s all = elim (outcome (archive id user_id s)) [
  | inl (c, e) ↦
      let done = archive-ArchivedContent id user_id s _ e in
      rw done.persisted (
        update_contents-IsLawful id set_archived s.contents done.found
          (archived-IsLawful done.existing (found-IsLawful id s.contents done.found all)) all)
  | inr (e, h) ↦ unchanged-IsLawful s _ (archive_refused id user_id s _ h) all
]
