-- ===== src/Comments/Ingestion/Laws.antt =====
-- What the loop over the snapshots of a post does, and what it does over snapshots that were seen.
pub mod Posts
pub mod Resync
pub mod Shown
use content_hub.Base.{
  ℕ, ◌+◌, ◌≡◌, refl, sym, ap, ◌∙◌, inl, inr, ◌⊎◌, Bool, true, false, not, ◌&&◌, ◌||◌, List, [], ◌∷◌,
  Option, none, some, String, arith, any, All, ◌==◌, if◌then◌else◌, length, keep, includes, find,
  Option-cases, Bool-cases,
}
use mathlib.Core.Path.{subst}
use content_hub.Base.Effects.{ok, err}
use content_hub.Base.Tables.{insert_unique}
use text.Mathlib.Text.{◌==◌ as str_eq}
use text.Mathlib.TextEquality.{eq_iff}
use content_hub.Schema.{Platform, platform_index}
use content_hub.Publish.Posts.{Post}
use content_hub.Publish.Store.{Store, ConnectedAccount, record_audit}
use content_hub.Comments.Records.{Comment, Sentiment}
use content_hub.Comments.Escalation.{evaluate}
use content_hub.Comments.Ingestion.{
  CommentSnapshot, SyncEnv, Feed, same_external, comments_clash, new_comment, with_comments,
  append_comment, persist_snapshot, persist_loop, SyncOutcome, synced, skipped, failed, outcome_of,
  account_of, sync_one_post, eligible_posts, sync_loop, total_inserted, CommentSyncResult,
  result_of, conclude_sync, run_sync, sync_comments,
}

-- A row with the external key of a snapshot on the platform of a post.
abbrev pub has_key : Post → CommentSnapshot → Comment → Bool
has_key post x d =
    platform_index post.platform == platform_index d.platform
    && same_external (some x.external_comment_id) d.external_comment_id

abbrev pub IsPresent : Post → CommentSnapshot → List Comment → Type 0
IsPresent post x comments = any (has_key post x) comments ≡ true

-- The index looks for the key of the snapshot.
clash_key :
    (id : ℕ) (post : Post) (x : CommentSnapshot) (sentiment : Sentiment) (cs : List Comment)
    → any (comments_clash (new_comment id post x sentiment)) cs ≡ any (has_key post x) cs
unfolding comments_clash new_comment
clash_key id post x sentiment cs = refl

own_key :
    (id : ℕ) (post : Post) (x : CommentSnapshot) (sentiment : Sentiment)
    → has_key post x (new_comment id post x sentiment) ≡ true
unfolding new_comment
own_key id post x sentiment =
    ground (arith, (eq_iff x.external_comment_id x.external_comment_id).1 refl)

-- The rows only become more, and the publish flow is left alone.
pub record Grows (s t : Feed) : Type 0 where
  pub rows : (p : Comment → Bool) → any p s.desk.comments ≡ true → any p t.desk.comments ≡ true
  pub store : t.store ≡ s.store

pub Grows-refl : (s : Feed) → Grows s s
Grows-refl s = record { rows = λ p h. h; store = refl }

pub Grows-trans : {s t u : Feed} → Grows s t → Grows t u → Grows s u
Grows-trans g h = record { rows = λ p e. h.rows p (g.rows p e); store = h.store ∙ g.store }

-- A snapshot that is classified and stored.
abbrev pub persists : SyncEnv → CommentSnapshot → Bool
persists env x = elim (env.classify x.text) [ none ↦ false | some sentiment ↦ env.stores x ]

-- What one snapshot does to the table.
data Persisted (env : SyncEnv) (post : Post) (x : CommentSnapshot) (s : Feed) : Type 0 where
  thrown :
      persists env x ≡ false → persist_snapshot env post x s ≡ (none, s) → Persisted env post x s
  stored :
      (n : ℕ) (t : Feed)
      → persists env x ≡ true
      → persist_snapshot env post x s ≡ (some n, t)
      → IsPresent post x t.desk.comments
      → Grows s t
      → (IsPresent post x s.desk.comments → (n ≡ 0) × (t ≡ s))
      → Persisted env post x s

appended :
    (env : SyncEnv) (post : Post) (x : CommentSnapshot) (sentiment : Sentiment) (s : Feed)
    → env.classify x.text ≡ some sentiment
    → env.stores x ≡ true
    → persist_snapshot env post x s ≡ (
      some (append_comment (new_comment s.next_id post x sentiment) s).0,
      (append_comment (new_comment s.next_id post x sentiment) s).1,
    )
unfolding persist_snapshot
appended env post x sentiment s known goes = rw (known, goes, persist_snapshot) refl

not_classified :
    (env : SyncEnv) (post : Post) (x : CommentSnapshot) (s : Feed)
    → env.classify x.text ≡ none
    → persist_snapshot env post x s ≡ (none, s)
unfolding persist_snapshot
not_classified env post x s unknown = rw (unknown, persist_snapshot) refl

not_stored :
    (env : SyncEnv) (post : Post) (x : CommentSnapshot) (sentiment : Sentiment) (s : Feed)
    → env.classify x.text ≡ some sentiment
    → env.stores x ≡ false
    → persist_snapshot env post x s ≡ (none, s)
unfolding persist_snapshot
not_stored env post x sentiment s known refused = rw (known, refused, persist_snapshot) refl

skipped_row :
    (c : Comment) (s : Feed)
    → any (comments_clash c) s.desk.comments ≡ true
    → append_comment c s ≡ (0, s)
unfolding append_comment insert_unique
skipped_row c s taken = ground arith

added_row :
    (c : Comment) (s : Feed)
    → any (comments_clash c) s.desk.comments ≡ false
    → append_comment c s ≡ (1, with_comments (c ∷ s.desk.comments) s)
unfolding append_comment insert_unique
added_row c s free = ground arith

added-Grows : (c : Comment) (s : Feed) → Grows s (with_comments (c ∷ s.desk.comments) s)
unfolding with_comments
added-Grows c s = record { rows = λ p h. ground arith; store = refl }

added-IsPresent :
    (post : Post) (x : CommentSnapshot) (c : Comment) (s : Feed)
    → has_key post x c ≡ true
    → IsPresent post x (with_comments (c ∷ s.desk.comments) s).desk.comments
unfolding with_comments
added-IsPresent post x c s own = rw own refl

persisted : (env : SyncEnv) (post : Post) (x : CommentSnapshot) (s : Feed) → Persisted env post x s
persisted env post x s = elim (Option-cases (env.classify x.text)) [
  | inl unknown ↦ thrown (ground arith) (not_classified env post x s unknown)
  | inr (sentiment, known) ↦ elim (Bool-cases (env.stores x)) [
    | inr refused ↦ thrown (ground arith) (not_stored env post x sentiment s known refused)
    | inl goes ↦
        let c = new_comment s.next_id post x sentiment in
        let key = clash_key s.next_id post x sentiment s.desk.comments in
        elim (Bool-cases (any (comments_clash c) s.desk.comments)) [
          | inl taken ↦
              stored 0 s (ground arith)
                (appended env post x sentiment s known goes
                  ∙ ap (λ r. (some r.0, r.1)) (skipped_row c s taken))
                (sym key ∙ taken) (Grows-refl s) (λ h. (refl, refl))
          | inr free ↦
              stored 1 (with_comments (c ∷ s.desk.comments) s) (ground arith)
                (appended env post x sentiment s known goes
                  ∙ ap (λ r. (some r.0, r.1)) (added_row c s free))
                (added-IsPresent post x c s (own_key s.next_id post x sentiment)) (added-Grows c s)
                (λ h. cc (sym h ∙ sym key ∙ free))
        ]
  ]
]

loop_continues :
    (env : SyncEnv) (post : Post) (x : CommentSnapshot) (xs : List CommentSnapshot) (i n : ℕ)
    (s t : Feed)
    → persist_snapshot env post x s ≡ (some n, t)
    → persist_loop env post (x ∷ xs) i s ≡ persist_loop env post xs (i + n) t
unfolding persist_loop
loop_continues env post x xs i n s t e =
    ap (λ r. elim r.0 [ none ↦ (none, r.1) | some m ↦ persist_loop env post xs (i + m) r.1 ]) e

loop_stops :
    (env : SyncEnv) (post : Post) (x : CommentSnapshot) (xs : List CommentSnapshot) (i : ℕ)
    (s t : Feed)
    → persist_snapshot env post x s ≡ (none, t)
    → persist_loop env post (x ∷ xs) i s ≡ (none, t)
unfolding persist_loop
loop_stops env post x xs i s t e =
    ap (λ r. elim r.0 [ none ↦ (none, r.1) | some m ↦ persist_loop env post xs (i + m) r.1 ]) e

-- The snapshots up to the first that fails are present.
abbrev pub Seen : SyncEnv → Post → List CommentSnapshot → List Comment → Type 0
Seen env post [] comments = Unit
Seen env post (x ∷ xs) comments =
    (persists env x ≡ true) → IsPresent post x comments × Seen env post xs comments

pub Seen-Grows :
    (env : SyncEnv) (post : Post) (xs : List CommentSnapshot) (s t : Feed)
    → Grows s t
    → Seen env post xs s.desk.comments
    → Seen env post xs t.desk.comments
Seen-Grows env post [] s t g h = tt
Seen-Grows env post (x ∷ xs) s t g h =
    λ goes. (g.rows (has_key post x) (h goes).0, Seen-Grows env post xs s t g (h goes).1)

-- The loop makes the table grow, and has seen its snapshots.
pub loop-Seen :
    (env : SyncEnv) (post : Post) (xs : List CommentSnapshot) (i : ℕ) (s : Feed)
    → let t = (persist_loop env post xs i s).1 in Grows s t × Seen env post xs t.desk.comments
unfolding persist_loop
loop-Seen env post [] i s = (Grows-refl s, tt)
loop-Seen env post (x ∷ xs) i s = elim (persisted env post x s) [
  | thrown fails e ↦
      subst (λ r. Grows s r.1 × Seen env post (x ∷ xs) r.1.desk.comments)
        (sym (loop_stops env post x xs i s s e)) (Grows-refl s, λ goes. cc (sym goes ∙ fails))
  | stored n t goes e here grows again ↦
      let (g, seen) = loop-Seen env post xs (i + n) t in
      subst (λ r. Grows s r.1 × Seen env post (x ∷ xs) r.1.desk.comments)
        (sym (loop_continues env post x xs i n s t e))
        (Grows-trans grows g, λ _. (g.rows (has_key post x) here, seen))
]

-- A loop over what was seen adds nothing.
pub loop_again :
    (env : SyncEnv) (post : Post) (xs : List CommentSnapshot) (i : ℕ) (s : Feed)
    → Seen env post xs s.desk.comments
    → (persist_loop env post xs i s ≡ (some i, s)) ⊎ (persist_loop env post xs i s ≡ (none, s))
unfolding persist_loop
loop_again env post [] i s h = inl refl
loop_again env post (x ∷ xs) i s h = elim (persisted env post x s) [
  | thrown fails e ↦ inr (loop_stops env post x xs i s s e)
  | stored n t goes e here grows again ↦
      let (none_new, same) = again (h goes).0 in
      let step : persist_loop env post (x ∷ xs) i s ≡ persist_loop env post xs i s =
        loop_continues env post x xs i n s t e
        ∙ ap (λ m. persist_loop env post xs m t) (omega arith)
        ∙ ap (λ u. persist_loop env post xs i u) same in
      elim (loop_again env post xs i s (h goes).1) [
        | inl quiet ↦ inl (step ∙ quiet)
        | inr quiet ↦ inr (step ∙ quiet)
      ]
]
