-- ===== src/Comments/Ingestion/Laws/Posts.antt =====
-- What the loop over the posts has seen, and what it does over posts that were seen.
use content_hub.Base.{
  ℕ, ◌≡◌, refl, sym, ap, ◌∙◌, inl, inr, List, [], ◌∷◌, Option, none, some, arith, Option-cases,
}
use mathlib.Core.Path.{subst}
use content_hub.Publish.Posts.{Post}
use content_hub.Publish.Store.{ConnectedAccount}
use content_hub.Comments.Records.{Comment}
use content_hub.Comments.Ingestion.{
  CommentSnapshot, SyncEnv, Feed, persist_loop, SyncOutcome, skipped, failed, outcome_of,
  account_of, sync_one_post, sync_loop, total_inserted,
}
use content_hub.Comments.Ingestion.Laws.{
  Grows, Grows-refl, Grows-trans, Seen, Seen-Grows, loop-Seen, loop_again,
}

-- The same world at a later time.
abbrev pub later : SyncEnv → ℕ → ℕ → SyncEnv
later env a n = record env { alert_id = a; now = n }

Seen-later :
    (env : SyncEnv) (post : Post) (xs : List CommentSnapshot) (cs : List Comment) (a n : ℕ)
    → Seen env post xs cs
    → Seen (later env a n) post xs cs
Seen-later env post [] cs a n h = tt
Seen-later env post (x ∷ xs) cs a n h =
    λ goes. ((h goes).0, Seen-later env post xs cs a n (h goes).1)

-- What the fetch of a post shows was seen, if there is an account for it.
abbrev pub SeenPost : SyncEnv → Option ConnectedAccount → Post → List Comment → Type 0
SeenPost env none post cs = Unit
SeenPost env (some account) post cs =
    (xs : List CommentSnapshot) → env.fetch post ≡ some xs → Seen env post xs cs

SeenPost-Grows :
    (env : SyncEnv) (account : Option ConnectedAccount) (post : Post) (s t : Feed)
    → Grows s t
    → SeenPost env account post s.desk.comments
    → SeenPost env account post t.desk.comments
SeenPost-Grows env none post s t g h = tt
SeenPost-Grows env (some account) post s t g h = λ xs e. Seen-Grows env post xs s t g (h xs e)

pub SeenPost-later :
    (env : SyncEnv) (account : Option ConnectedAccount) (post : Post) (cs : List Comment) (a n : ℕ)
    → SeenPost env account post cs
    → SeenPost (later env a n) account post cs
SeenPost-later env none post cs a n h = tt
SeenPost-later env (some account) post cs a n h = λ xs e. Seen-later env post xs cs a n (h xs e)

abbrev pub SeenAll : SyncEnv → List Post → ℕ → List ConnectedAccount → List Comment → Type 0
SeenAll env [] user_id accounts cs = Unit
SeenAll env (p ∷ ps) user_id accounts cs =
    SeenPost env (account_of p user_id accounts) p cs × SeenAll env ps user_id accounts cs

outcome_of-feed : (r : Option ℕ × Feed) → (outcome_of r).1 ≡ r.1
outcome_of-feed (none, s) = refl
outcome_of-feed (some n, s) = refl

-- The body of `sync_one_post`.
abbrev attempt :
    SyncEnv
    → Post
    → Feed
    → Option ConnectedAccount
    → Option (List CommentSnapshot)
    → SyncOutcome × Feed
attempt env post s account snapshots = elim account [
  | none ↦ (skipped, s)
  | some account ↦ elim snapshots [
    | none ↦ (failed, s)
    | some xs ↦ outcome_of (persist_loop env post xs 0 s)
  ]
]

attempted :
    (env : SyncEnv) (post : Post) (user_id : ℕ) (s : Feed) {account : Option ConnectedAccount}
    {snapshots : Option (List CommentSnapshot)}
    → account_of post user_id s.store.accounts ≡ account
    → env.fetch post ≡ snapshots
    → sync_one_post env post user_id s ≡ attempt env post s account snapshots
unfolding sync_one_post
attempted env post user_id s {account} {snapshots} e f =
    ap (λ o. attempt env post s o (env.fetch post)) e ∙ ap (λ o. attempt env post s account o) f

-- One post: the table has grown, and the post was seen.
record Visited (env : SyncEnv) (post : Post) (user_id : ℕ) (s t : Feed) : Type 0 where
  pub grows : Grows s t
  pub seen : SeenPost env (account_of post user_id s.store.accounts) post t.desk.comments

one_seen :
    (env : SyncEnv) (post : Post) (user_id : ℕ) (s : Feed)
    → Visited env post user_id s (sync_one_post env post user_id s).1
one_seen env post user_id s = elim (Option-cases (account_of post user_id s.store.accounts)) [
  | inl missing ↦ record {
    grows =
        subst (λ r. Grows s r.1) (sym (attempted env post user_id s missing refl)) (Grows-refl s);
    seen =
        subst (λ o. SeenPost env o post (sync_one_post env post user_id s).1.desk.comments)
          (sym missing) tt;
  }
  | inr (account, found) ↦ elim (Option-cases (env.fetch post)) [
    | inl silent ↦ record {
      grows =
          subst (λ r. Grows s r.1) (sym (attempted env post user_id s found silent)) (Grows-refl s);
      seen =
          subst (λ o. SeenPost env o post (sync_one_post env post user_id s).1.desk.comments)
            (sym found) (λ xs e. absurd (ground (arith, silent, e)));
    }
    | inr (xs, shown) ↦
        let (g, h) = loop-Seen env post xs 0 s in
        let same : (sync_one_post env post user_id s).1 ≡ (persist_loop env post xs 0 s).1 =
          ap (λ r. r.1) (attempted env post user_id s found shown)
          ∙ outcome_of-feed (persist_loop env post xs 0 s) in
        record {
          grows = subst (λ t. Grows s t) (sym same) g;
          seen =
              subst (λ o. SeenPost env o post (sync_one_post env post user_id s).1.desk.comments)
                (sym found)
                (λ ys e.
                  subst (λ t. Seen env post ys t.desk.comments) (sym same)
                    (subst (λ zs. Seen env post zs (persist_loop env post xs 0 s).1.desk.comments)
                      (ground (arith, shown, e)) h));
        }
  ]
]

-- A post that was seen adds nothing.
record Quiet (r : SyncOutcome × Feed) (s : Feed) : Type 0 where
  pub same : r.1 ≡ s
  pub none_new : (items : List SyncOutcome) → total_inserted (r.0 ∷ items) ≡ total_inserted items

one_again :
    (env : SyncEnv) (post : Post) (user_id : ℕ) (s : Feed)
    → SeenPost env (account_of post user_id s.store.accounts) post s.desk.comments
    → Quiet (sync_one_post env post user_id s) s
one_again env post user_id s h = elim (Option-cases (account_of post user_id s.store.accounts)) [
  | inl missing ↦
      subst (λ r. Quiet r s) (sym (attempted env post user_id s missing refl))
        (record { same = refl; none_new = λ items. refl })
  | inr (account, found) ↦ elim (Option-cases (env.fetch post)) [
    | inl silent ↦
        subst (λ r. Quiet r s) (sym (attempted env post user_id s found silent))
          (record { same = refl; none_new = λ items. refl })
    | inr (xs, shown) ↦
        let seen : Seen env post xs s.desk.comments =
          subst (λ o. SeenPost env o post s.desk.comments) found h xs shown in
        subst (λ r. Quiet r s) (sym (attempted env post user_id s found shown))
          (elim (loop_again env post xs 0 s seen) [
            | inl quiet ↦
                subst (λ r. Quiet (outcome_of r) s) (sym quiet)
                  (record { same = refl; none_new = λ items. omega arith })
            | inr quiet ↦
                subst (λ r. Quiet (outcome_of r) s) (sym quiet)
                  (record { same = refl; none_new = λ items. refl })
          ])
  ]
]

SeenAll-Grows :
    (env : SyncEnv) (posts : List Post) (user_id : ℕ) (accounts : List ConnectedAccount)
    (s t : Feed)
    → Grows s t
    → SeenAll env posts user_id accounts s.desk.comments
    → SeenAll env posts user_id accounts t.desk.comments
SeenAll-Grows env [] user_id accounts s t g h = tt
SeenAll-Grows env (p ∷ ps) user_id accounts s t g (h, hs) = (
  SeenPost-Grows env (account_of p user_id accounts) p s t g h,
  SeenAll-Grows env ps user_id accounts s t g hs,
)

-- After the loop over the posts all of them were seen.
pub posts_seen :
    (env : SyncEnv) (posts : List Post) (user_id : ℕ) (s : Feed)
    → let t = (sync_loop env posts user_id s).1 in
      Grows s t × SeenAll env posts user_id s.store.accounts t.desk.comments
unfolding sync_loop
posts_seen env [] user_id s = (Grows-refl s, tt)
posts_seen env (p ∷ ps) user_id s =
    let t = (sync_one_post env p user_id s).1 in
    let u = (sync_loop env ps user_id t).1 in
    let visited = one_seen env p user_id s in
    let (g, hs) = posts_seen env ps user_id t in
    (
      Grows-trans visited.grows g,
      (
        SeenPost-Grows env (account_of p user_id s.store.accounts) p t u g visited.seen,
        subst (λ store. SeenAll env ps user_id store.accounts u.desk.comments) visited.grows.store
            hs,
      ),
    )

-- The loop over posts that were seen adds nothing.
pub posts_again :
    (env : SyncEnv) (posts : List Post) (user_id : ℕ) (s : Feed)
    → SeenAll env posts user_id s.store.accounts s.desk.comments
    → let r = sync_loop env posts user_id s in (r.1 ≡ s) × (total_inserted r.0 ≡ 0)
unfolding sync_loop
posts_again env [] user_id s h = (refl, refl)
posts_again env (p ∷ ps) user_id s (h, hs) =
    let one = one_again env p user_id s h in
    let (same, none_new) = posts_again env ps user_id s hs in
    let next : sync_loop env ps user_id (sync_one_post env p user_id s).1
        ≡ sync_loop env ps user_id s =
      ap (λ t. sync_loop env ps user_id t) one.same in
    (
      ap (λ r. r.1) next ∙ same,
      one.none_new (sync_loop env ps user_id (sync_one_post env p user_id s).1).0
          ∙ ap (λ r. total_inserted r.0) next
          ∙ none_new,
    )
