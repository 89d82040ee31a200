-- ===== src/Publish/Interleaving/Invariant.antt =====
-- The invariant of the publish system: who holds which post, in what state, and how often each post
-- was created on the platform; with the two ways in which a step can leave it intact.
use content_hub.Base.{
  ℕ, ◌≤◌, ◌≡◌, ◌≢◌, refl, sym, ◌∙◌, ◌⊎◌, inl, inr, true, List, Option, none, some, ◌==◌, arith,
  Bool-cases, ==_iff,
}
use native.Mathlib.Decide.{ℕ_discrete}
use content_hub.Publish.Posts.{
  Post, PostStatus, scheduled, posted, posted_unconfirmed, index_holds, find_post,
}
use content_hub.Publish.Execution.{
  Stage, fetching, opening, dispatching, recording, failing, unconfirming,
}
use content_hub.Publish.Interleaving.{assign, published_count}

abbrev pub status_of : Option Post → Option PostStatus
status_of none = none
status_of (some p) = some p.status

abbrev pub version_of : Option Post → Option ℕ
version_of none = none
version_of (some p) = some p.version

-- The post that a run has claimed and not yet let go.
abbrev pub holder : Stage → Option ℕ
holder (fetching job post version) = some post.id
holder (opening job post version token) = some post.id
holder (dispatching job post version) = some post.id
holder (recording job post version id) = some post.id
holder (failing job post_id version) = some post_id
holder (unconfirming job post_id id) = some post_id
holder _ = none

-- What a run that holds a post knows of it: its status, its version, how often it was created.
abbrev pub Fits : Option PostStatus → Option ℕ → ℕ → Stage → Type 0
Fits st v n (fetching job post version) = (st ≡ some scheduled) × (v ≡ some version) × (n ≡ 0)
Fits st v n (opening job post version token) = (st ≡ some scheduled) × (v ≡ some version) × (n ≡ 0)
Fits st v n (dispatching job post version) = (st ≡ some scheduled) × (v ≡ some version) × (n ≡ 0)
Fits st v n (recording job post version id) = (st ≡ some scheduled) × (v ≡ some version) × (n ≤ 1)
Fits st v n (failing job post_id version) = (st ≡ some scheduled) × (v ≡ some version) × (n ≡ 0)
Fits st v n (unconfirming job post_id id) = ((st ≡ some scheduled) ⊎ (st ≡ some posted)) × (n ≤ 1)
Fits st v n _ = Unit

-- The statuses of a post that may be on the platform.
abbrev pub MayBeLive : Option PostStatus → Type 0
MayBeLive st = (st ≡ some scheduled) ⊎ (st ≡ some posted) ⊎ (st ≡ some posted_unconfirmed)

pub record Inv (posts : List Post) (live : List ℕ) (stages : ℕ → Stage) : Type 0 where
  pub index : index_holds posts ≡ true
  pub once : (k : ℕ) → published_count k live ≤ 1
  pub row : (k : ℕ) → published_count k live ≡ 1 → MayBeLive (status_of (find_post k posts))
  pub held :
      (i k : ℕ)
      → holder (stages i) ≡ some k
      → Fits
          (status_of (find_post k posts))
          (version_of (find_post k posts))
          (published_count k live)
          (stages i)
  pub alone : (i j k : ℕ) → holder (stages i) ≡ some k → holder (stages j) ≡ some k → i ≡ j

-- A stage of `assign` is the new one or an old one.
assign_cases :
    (stages : ℕ → Stage) (i : ℕ) (stage : Stage) (j : ℕ)
    → ((j ≡ i) × (assign stages i stage j ≡ stage))
      ⊎ ((j ≢ i) × (assign stages i stage j ≡ stages j))
assign_cases stages i stage j = elim (Bool-cases (i == j)) [
  | inl hit ↦ inl (sym ((==_iff i j).0 hit), rw hit refl)
  | inr miss ↦ inr ((λ e. ground arith), rw miss refl)
]

module _ {posts : List Post} {live : List ℕ} {stages : ℕ → Stage}
    (inv : Inv posts live stages) where
  -- A run that lets go of its post, or never had one.
  pub drop-Inv :
      (i : ℕ) (stage : Stage) → holder stage ≡ none → Inv posts live (assign stages i stage)
  drop-Inv i stage empty = record {
    index = inv.index;
    once = inv.once;
    row = inv.row;
    held = λ j k e. elim (assign_cases stages i stage j) [
      | inl (_, new) ↦ absurd (lost (rw new at e))
      | inr (_, old) ↦ rw old (inv.held j k (rw old at e))
    ];
    alone = λ j j' k e e'. elim (assign_cases stages i stage j) [
      | inl (_, new) ↦ absurd (lost (rw new at e))
      | inr (_, old) ↦ elim (assign_cases stages i stage j') [
        | inl (_, new) ↦ absurd (lost (rw new at e'))
        | inr (_, old') ↦ inv.alone j j' k (rw old at e) (rw old' at e')
      ]
    ];
  }
    where
      lost : {k : ℕ} → holder stage ≡ some k → ⊥
      lost e = cc

  -- Rows that look alike.
  pub view-Inv :
      (rows : List Post)
      → index_holds rows ≡ true
      → ((k : ℕ) → status_of (find_post k rows) ≡ status_of (find_post k posts))
      → ((k : ℕ) → version_of (find_post k rows) ≡ version_of (find_post k posts))
      → Inv rows live stages
  view-Inv rows index same_status same_version = record {
    index = index;
    once = inv.once;
    row = λ k e. rw (same_status k) (inv.row k e);
    held = λ i k e. rw (same_status k, same_version k) (inv.held i k e);
    alone = inv.alone;
  }

-- What a step on the row of `k`, by run `i`, has to leave behind.
pub record Local (posts : List Post) (live : List ℕ) (stages : ℕ → Stage) (k i : ℕ)
    (rows : List Post) (live' : List ℕ) (stage : Stage) : Type 0 where
  pub indexed : index_holds rows ≡ true
  pub other_rows : (j : ℕ) → j ≢ k → find_post j rows ≡ find_post j posts
  pub other_live : (j : ℕ) → j ≢ k → published_count j live' ≡ published_count j live
  pub free : (j : ℕ) → j ≢ i → holder (stages j) ≢ some k
  pub own : (m : ℕ) → holder stage ≡ some m → m ≡ k
  pub fits :
      holder stage ≡ some k
      → Fits
          (status_of (find_post k rows))
          (version_of (find_post k rows))
          (published_count k live')
          stage
  pub once : published_count k live' ≤ 1
  pub row : published_count k live' ≡ 1 → MayBeLive (status_of (find_post k rows))

module _ {posts : List Post} {live : List ℕ} {stages : ℕ → Stage} (inv : Inv posts live stages)
    {k i : ℕ} {rows : List Post} {live' : List ℕ} {stage : Stage}
    (step : Local posts live stages k i rows live' stage) where
  pub local-Inv : Inv rows live' (assign stages i stage)
  local-Inv = record {
    index = step.indexed;
    once = λ m. elim (ℕ_discrete m k) [
      | yes e ↦ rw e step.once
      | no ne ↦ rw (step.other_live m ne) (inv.once m)
    ];
    row = λ m e. elim (ℕ_discrete m k) [
      | yes same ↦ rw same (step.row (rw same at e))
      | no ne ↦ rw (step.other_rows m ne) (inv.row m (rw (step.other_live m ne) at e))
    ];
    held = λ j m e. elim (assign_cases stages i stage j) [
      | inl (_, new) ↦ rw new (own_fits m (rw new at e))
      | inr (ne, old) ↦ rw old (old_fits j m ne (rw old at e))
    ];
    alone = λ j j' m e e'. elim (assign_cases stages i stage j) [
      | inl (here, new) ↦ elim (assign_cases stages i stage j') [
        | inl (here', _) ↦ here ∙ sym here'
        | inr (ne, old) ↦ absurd (step.free j' ne (rw (← step.own m (rw new at e)) (rw old at e')))
      ]
      | inr (ne, old) ↦ elim (assign_cases stages i stage j') [
        | inl (_, new) ↦ absurd (step.free j ne (rw (← step.own m (rw new at e')) (rw old at e)))
        | inr (_, old') ↦ inv.alone j j' m (rw old at e) (rw old' at e')
      ]
    ];
  }
    where
      own_fits :
          (m : ℕ)
          → holder stage ≡ some m
          → Fits
              (status_of (find_post m rows))
              (version_of (find_post m rows))
              (published_count m live')
              stage
      own_fits m e = let same = step.own m e in rw same (step.fits (rw same at e))

      old_fits :
          (j m : ℕ)
          → j ≢ i
          → holder (stages j) ≡ some m
          → Fits
              (status_of (find_post m rows))
              (version_of (find_post m rows))
              (published_count m live')
              (stages j)
      old_fits j m ne e =
          let apart : m ≢ k = λ same. step.free j ne (rw same at e) in
          rw (step.other_rows m apart, step.other_live m apart) (inv.held j m e)

module _ {posts : List Post} {live : List ℕ} {stages : ℕ → Stage}
    (inv : Inv posts live stages) where
  -- A step of a request on the row of a post that nobody holds.
  pub free-Inv :
      (k : ℕ) (rows : List Post)
      → index_holds rows ≡ true
      → ((j : ℕ) → j ≢ k → find_post j rows ≡ find_post j posts)
      → ((j : ℕ) → holder (stages j) ≢ some k)
      → (published_count k live ≡ 1 → MayBeLive (status_of (find_post k rows)))
      → Inv rows live stages
  free-Inv k rows indexed others free row = record {
    index = indexed;
    once = inv.once;
    row = λ m one. elim (ℕ_discrete m k) [
      | yes same ↦ rw same (row (rw same at one))
      | no ne ↦ rw (others m ne) (inv.row m one)
    ];
    held = λ i m e. rw (others m (λ same. free i (rw same at e))) (inv.held i m e);
    alone = inv.alone;
  }
