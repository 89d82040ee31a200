-- ===== src/Content/Service/Laws.antt =====
-- The invariant of the table of contents: ages in order, and what is ready is publishable. Every request
-- keeps it.
use content_hub.Base.{
  ℕ, ◌≤◌, ◌≡◌, refl, sym, ◌⊎◌, inl, inr, Bool, true, false, List, [], ◌∷◌, Option, none, some,
  String, leb, leb→le, arith, All, Bool-cases, Option-cases, ◌==◌, if◌then◌else◌,
}
use mathlib.Core.Path.{subst}
use mathlib.Core.Option.{some-injective}
use content_hub.Base.Effects.{
  M, ok, err, Exn, ◌>>=◌, ◌>>◌, return, modify, bad_request, not_found, database,
}
use content_hub.Base.Effects.Passing.{Decides, passes, throws, passed, ensure_decides}
use content_hub.Schema.{is_ready, is_cleared, ready, draft}
use content_hub.Content.Records.{Content, find_content}
use content_hub.Content.Gate.{can_mark_copyright_cleared}
use content_hub.Content.Gate.Laws.{IsPublishable, can_mark_copyright_cleared_iff}
use content_hub.Content.MediaUrl.{is_owned_media_url, assert_media_url_is_owned}
use content_hub.Content.Service.{
  Field, Library, Clock, ComplianceState, CreateContent, assert_age_range_is_valid,
  assert_clearance_is_eligible, assert_ready_transition_allowed, when, record_audit, compliance_of,
  to_date, or_not_checked, file_size, new_content, insert_content, create, find_or_throw,
  update_contents, content_created,
}

-- What each row of the table is to be.
pub record IsLawful (c : Content) : Type 0 where
  pub ages : c.target_age_min ≤ c.target_age_max
  pub gated : (is_ready c.status ≡ false) ⊎ IsPublishable c

pub age_valid :
    (min max : ℕ) (s : Library) → Decides (assert_age_range_is_valid min max) s (λ _. min ≤ max)
unfolding assert_age_range_is_valid
age_valid min max s = elim (Bool-cases (leb min max)) [
  | inl ordered ↦ passes tt (ground arith) (leb→le min max ordered)
  | inr reversed ↦ throws bad_request s (ground arith)
]

abbrev pub IsAllowed : ComplianceState → Type 0
IsAllowed c =
    (is_cleared c.copyright_cleared ≡ true)
    × (can_mark_copyright_cleared c.content_pillar c.copyright_evidence_url ≡ true)

pub ready_transition :
    (c : ComplianceState) (s : Library)
    → Decides (assert_ready_transition_allowed c) s (λ _. IsAllowed c)
unfolding assert_ready_transition_allowed assert_clearance_is_eligible
ready_transition c s = elim (Bool-cases (is_cleared c.copyright_cleared)) [
  | inr uncleared ↦ throws bad_request s (ground arith)
  | inl cleared ↦
      elim (Bool-cases (can_mark_copyright_cleared c.content_pillar c.copyright_evidence_url)) [
        | inr unproven ↦ throws bad_request s (ground arith)
        | inl proven ↦ passes tt (ground arith) (cleared, proven)
      ]
]

pub clearance_eligible :
    (c : ComplianceState) (s : Library)
    → Decides
        (assert_clearance_is_eligible c)
        s
        (λ _. can_mark_copyright_cleared c.content_pillar c.copyright_evidence_url ≡ true)
unfolding assert_clearance_is_eligible
clearance_eligible c s = ensure_decides _ bad_request s

pub when_decides :
    (b : Bool) {m : M Library (Unit {0})} {s : Library} {P : Unit {0} → Type 0}
    → Decides m s P
    → Decides (when b m) s (λ u. (b ≡ false) ⊎ P u)
when_decides false d = passes tt refl (inl refl)
when_decides true (passes u runs p) = passes u runs (inr p)
when_decides true (throws e t refused) = throws e t refused

url_owned :
    (url : String) (s : Library)
    → Decides (assert_media_url_is_owned url) s (λ _. is_owned_media_url url ≡ true)
unfolding assert_media_url_is_owned
url_owned url s = ensure_decides _ bad_request s

-- The size of a body: none if it is left out, and never null.
abbrev pub Names : Field ℕ → Option ℕ → Type 0
Names Field.undefined size = size ≡ none
Names Field.null size = ⊥
Names (Field.given n) size = size ≡ some n

size_given : (f : Field ℕ) (s : Library) → Decides (file_size f) s (Names f)
size_given Field.undefined s = passes none refl refl
size_given Field.null s = throws database s refl
size_given (Field.given n) s = passes (some n) refl refl

pub row_found :
    (id : ℕ) (s : Library) → Decides (find_or_throw id) s (λ c. find_content id s.contents ≡ some c)
unfolding find_or_throw
row_found id s = elim (Option-cases (find_content id s.contents)) [
  | inl missing ↦ throws not_found s (ground arith)
  | inr (c, found) ↦ passes c (ground arith) found
]

-- A row that passed the ready gate, if it is ready.
pub gated_row :
    (c : Content)
    → (is_ready c.status ≡ false)
      ⊎ ((is_cleared c.copyright_cleared ≡ true)
          × (can_mark_copyright_cleared c.content_pillar c.copyright_evidence_url ≡ true))
    → (is_ready c.status ≡ false) ⊎ IsPublishable c
gated_row c (inl unready) = inl unready
gated_row c (inr (cleared, proven)) = elim (Bool-cases (is_ready c.status)) [
  | inr unready ↦ inl unready
  | inl at_ready ↦ inr record {
    is_ready = ground arith;
    is_cleared = ground arith;
    eligible = (can_mark_copyright_cleared_iff _ _).0 proven;
  }
]

pub update_contents-IsLawful :
    (id : ℕ) (data_ : Content → Content) (cs : List Content) {c : Content}
    → find_content id cs ≡ some c
    → IsLawful (data_ c)
    → All IsLawful cs
    → All IsLawful (update_contents id data_ cs)
unfolding find_content update_contents
update_contents-IsLawful id data_ [] found lawful all = tt
update_contents-IsLawful id data_ (x ∷ cs) {c} found lawful (first, rest) =
    elim (Bool-cases (x.id == id)) [
      | inl hit ↦ rw hit (
        subst (λ y. IsLawful (data_ y)) (sym (some-injective _ _ (rw hit at found))) lawful,
        rest,
      )
      | inr miss ↦
          rw miss (first, update_contents-IsLawful id data_ cs (rw miss at found) lawful rest)
    ]

new_content-IsLawful :
    (clock : Clock) (dto : CreateContent) (user_id : ℕ) (size : Option ℕ)
    → dto.target_age_min ≤ dto.target_age_max
    → (dto.mark_ready ≡ false) ⊎ IsAllowed (compliance_of dto)
    → IsLawful (new_content clock dto user_id size)
unfolding new_content
new_content-IsLawful clock dto user_id size ages (inl unmarked) = record {
  ages = ages;
  gated = inl (ground arith);
}
new_content-IsLawful clock dto user_id size ages (inr allowed) = record {
  ages = ages;
  gated = gated_row _ (inr allowed);
}

-- The insert and the audit row of `create`.
created :
    (c : Content) (user_id : ℕ) (s s' : Library) {made : Content}
    → ((insert_content c >>= λ row.
          (modify (record_audit user_id content_created row.id) >> return row))
        s)
      ≡ (ok made, s')
    → (made ≡ c)
      × (find_content c.id s.contents ≡ none)
      × (s'.contents ≡ c ∷ s.contents)
      × (s'.audit
          ≡ record { actor = user_id; action = content_created; content_id = c.id } ∷ s.audit)
unfolding insert_content record_audit
created c user_id s s' h = ground arith

pub record CreatedContent (clock : Clock) (dto : CreateContent) (user_id : ℕ) (s s' : Library)
    (c : Content) : Type 0 where
  pub owned : is_owned_media_url dto.media_url ≡ true
  pub size : Option ℕ
  pub size_named : Names dto.file_size_bytes size
  pub row : c ≡ record {
    id = clock.new_id;
    type = dto.type;
    title = dto.title;
    media_url = dto.media_url;
    caption = dto.caption;
    target_age_min = dto.target_age_min;
    target_age_max = dto.target_age_max;
    status = if dto.mark_ready then ready else draft;
    licensing_status = dto.licensing_status;
    license_notes = dto.license_notes;
    license_expires_at = to_date clock.parse_date dto.license_expires_at;
    file_size_bytes = size;
    mime_type = dto.mime_type;
    content_pillar = dto.content_pillar;
    copyright_cleared = or_not_checked dto.copyright_cleared;
    copyright_notes = dto.copyright_notes;
    copyright_evidence_url = dto.copyright_evidence_url;
    created_by = user_id;
    created_at = clock.now;
  }
  pub lawful : IsLawful c
  pub fresh : find_content c.id s.contents ≡ none
  pub persisted : s'.contents ≡ c ∷ s.contents
  pub audited :
      s'.audit ≡ record { actor = user_id; action = content_created; content_id = c.id } ∷ s.audit

-- When create returns a row, the media URL is one that the upload hands out, the row has column for column
-- what the body gives, its size included, it is lawful and its key is new, it is inserted and one audit row says so.
pub create-CreatedContent :
    (clock : Clock) (dto : CreateContent) (user_id : ℕ) (s s' : Library) {c : Content}
    → create clock dto user_id s ≡ (ok c, s')
    → CreatedContent clock dto user_id s s' c
unfolding create new_content
create-CreatedContent clock dto user_id s s' h =
    let ages = passed (age_valid dto.target_age_min dto.target_age_max s) h in
    let owned = passed (url_owned dto.media_url s) ages.rest in
    let eligible =
      passed
        (when_decides (is_cleared (compliance_of dto).copyright_cleared)
          (clearance_eligible (compliance_of dto) s))
        owned.rest in
    let allowed =
      passed (when_decides dto.mark_ready (ready_transition (compliance_of dto) s)) eligible.rest in
    let size = passed (size_given dto.file_size_bytes s) allowed.rest in
    let (same, fresh, persisted, audited) =
      created (new_content clock dto user_id size.value) user_id s s' size.rest in
    record {
      owned = owned.holds;
      size = size.value;
      size_named = size.holds;
      row = same;
      lawful = rw same (new_content-IsLawful clock dto user_id size.value ages.holds allowed.holds);
      fresh = rw same fresh;
      persisted = rw same persisted;
      audited = rw same audited;
    }

-- When create throws, nothing has changed.
pub create_refused :
    (clock : Clock) (dto : CreateContent) (user_id : ℕ) (s s' : Library) {e : Exn}
    → create clock dto user_id s ≡ (err e, s')
    → s' ≡ s
unfolding create assert_age_range_is_valid assert_media_url_is_owned assert_clearance_is_eligible
    assert_ready_transition_allowed insert_content
create_refused clock dto user_id s s' h = ground arith
