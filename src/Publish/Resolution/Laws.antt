-- ===== src/Publish/Resolution/Laws.antt =====
-- What a resolution has found and written when it succeeds, and that a post is resolved once.
use content_hub.Base.{
  ℕ, ◌≡◌, refl, ◌∙◌, ap, true, false, ◌∷◌, some, String, arith, inl, inr, Option-cases, Bool-cases,
  ==_refl, ◌+◌,
}
use content_hub.Base.Effects.{ok, err, ◌>>=◌, ◌>>◌, Exn, conflict, not_found}
use content_hub.Base.Effects.Passing.{Decides, passes, throws, passed}
use content_hub.Publish.Posts.{Post, posted, posted_unconfirmed, find_post, update_many}
use content_hub.Publish.Posts.Laws.{find_post-id, find_post-update_rows_hit, update_count_one}
use content_hub.Publish.Store.{Store, audit_row, publish_ambiguity_resolved, record_audit}
use content_hub.Publish.Resolution.{
  is_unconfirmed, resolvable, set_resolved_posted, set_resolved_failed, load_unconfirmed_or_throw,
  conditional_resolve, record_resolution, resolve_as_posted, resolve_as_not_posted,
}

-- What a resolution has done: the row was of unknown outcome, it is as the data makes it, and one audit
-- row says who resolved it.
pub record Resolved (post_id admin_id : ℕ) (data_ : Post → Post) (s s' : Store) (post : Post)
    : Type 0 where
  pub before : Post
  pub found : find_post post_id s.posts ≡ some before
  pub unconfirmed : before.status ≡ posted_unconfirmed
  pub row : post ≡ data_ before
  pub written : update_many before.id (resolvable before.version) data_ s.posts ≡ some (1, s'.posts)
  pub persisted : find_post post_id s'.posts ≡ some post
  pub audited :
      s'.audit ≡ audit_row admin_id publish_ambiguity_resolved true (some post_id) ∷ s.audit

unconfirmed_found :
    (post_id : ℕ) (s : Store)
    → Decides
        (load_unconfirmed_or_throw post_id)
        s
        (λ p. (find_post post_id s.posts ≡ some p) × (is_unconfirmed p.status ≡ true))
unfolding load_unconfirmed_or_throw
unconfirmed_found post_id s = elim (Option-cases (find_post post_id s.posts)) [
  | inl missing ↦ throws not_found s (ground arith)
  | inr (post, found) ↦ elim (Bool-cases (is_unconfirmed post.status)) [
    | inr settled ↦ throws conflict s (ground arith)
    | inl open_case ↦ passes post (ground arith) (found, open_case)
  ]
]

is_unconfirmed-status : (p : Post) → is_unconfirmed p.status ≡ true → p.status ≡ posted_unconfirmed
is_unconfirmed-status p h = ground arith

resolvable_self : (p : Post) → is_unconfirmed p.status ≡ true → resolvable p.version p ≡ true
unfolding resolvable
resolvable_self p h = ground (arith, ==_refl p.version)

-- The write and the audit row of a resolution.
resolving :
    (post_id admin_id : ℕ) (data_ : Post → Post) (s s' : Store) (before : Post) {post : Post}
    → ((p : Post) → (data_ p).id ≡ p.id)
    → find_post post_id s.posts ≡ some before
    → is_unconfirmed before.status ≡ true
    → ((conditional_resolve before data_ >> record_resolution post_id admin_id) s) ≡ (ok post, s')
    → Resolved post_id admin_id data_ s s' post
unfolding conditional_resolve record_resolution update_many record_audit
resolving post_id admin_id data_ s s' before keeps found open_case h =
    let same = find_post-id post_id s.posts found in
    let here = ap (λ k. find_post k s.posts) same ∙ found in
    let hit = resolvable_self before open_case in
    let after =
      find_post-update_rows_hit before.id (resolvable before.version) data_ keeps s.posts here
        hit in
    let one = update_count_one before.id (resolvable before.version) s.posts here hit in
    record {
      before = before;
      found = found;
      unconfirmed = is_unconfirmed-status before open_case;
      row = ground arith;
      written = ground arith;
      persisted = ground arith;
      audited = ground arith;
    }

-- What resolveAsPosted has done: the row is what it was but for the columns that are named here.
pub record ResolvedAsPosted (now post_id : ℕ) (external_id : String) (admin_id : ℕ) (s s' : Store)
    (post : Post) : Type 0 where
  pub resolved : Resolved post_id admin_id (set_resolved_posted now admin_id external_id) s s' post
  pub columns : post ≡ record resolved.before {
    status = posted;
    external_post_id = some external_id;
    posted_at = some now;
    executed_by = some admin_id;
    version = resolved.before.version + 1;
  }

-- When resolveAsPosted returns a post, the row was of unknown outcome; it is now posted, with the given
-- external id, the time and the admin and the next version, all else is as it was, the table has that row,
-- and one audit row is written.
pub resolve_as_posted-Resolved :
    (now post_id : ℕ) (external_post_id : String) (admin_id : ℕ) (s s' : Store) {post : Post}
    → resolve_as_posted now post_id external_post_id admin_id s ≡ (ok post, s')
    → ResolvedAsPosted now post_id external_post_id admin_id s s' post
unfolding resolve_as_posted set_resolved_posted
resolve_as_posted-Resolved now post_id external_post_id admin_id s s' h =
    let before = passed (unconfirmed_found post_id s) h in
    let resolved =
      resolving post_id admin_id (set_resolved_posted now admin_id external_post_id) s s'
        before.value (λ p. refl) before.holds.0 before.holds.1 before.rest in
    record { resolved = resolved; columns = resolved.row }

-- When resolveAsNotPosted returns a post, the row was of unknown outcome; it is now failed, and one audit
-- row is written.
pub resolve_as_not_posted-Resolved :
    (post_id admin_id : ℕ) (s s' : Store) {post : Post}
    → resolve_as_not_posted post_id admin_id s ≡ (ok post, s')
    → Resolved post_id admin_id (set_resolved_failed admin_id) s s' post
unfolding resolve_as_not_posted set_resolved_failed
resolve_as_not_posted-Resolved post_id admin_id s s' h =
    let before = passed (unconfirmed_found post_id s) h in
    resolving post_id admin_id (set_resolved_failed admin_id) s s' before.value (λ p. refl)
      before.holds.0 before.holds.1 before.rest

-- A post that is not of unknown outcome is not resolved.
refused_posted :
    (now post_id : ℕ) (external_post_id : String) (admin_id : ℕ) (s : Store) {p : Post}
    → find_post post_id s.posts ≡ some p
    → is_unconfirmed p.status ≡ false
    → resolve_as_posted now post_id external_post_id admin_id s ≡ (err conflict, s)
unfolding resolve_as_posted load_unconfirmed_or_throw
refused_posted now post_id external_post_id admin_id s found settled = ground arith

refused_not_posted :
    (post_id admin_id : ℕ) (s : Store) {p : Post}
    → find_post post_id s.posts ≡ some p
    → is_unconfirmed p.status ≡ false
    → resolve_as_not_posted post_id admin_id s ≡ (err conflict, s)
unfolding resolve_as_not_posted load_unconfirmed_or_throw
refused_not_posted post_id admin_id s found settled = ground arith

-- Both resolutions of the post are refused with a conflict, and change nothing.
abbrev pub IsSettled : ℕ → Store → Type 0
IsSettled post_id s =
    ((now : ℕ) (external_post_id : String) (admin_id : ℕ)
      → resolve_as_posted now post_id external_post_id admin_id s ≡ (err conflict, s))
    × ((admin_id : ℕ) → resolve_as_not_posted post_id admin_id s ≡ (err conflict, s))

settled :
    (post_id admin_id : ℕ) (data_ : Post → Post) (s s' : Store) {post : Post}
    → ((p : Post) → is_unconfirmed (data_ p).status ≡ false)
    → Resolved post_id admin_id data_ s s' post
    → IsSettled post_id s'
settled post_id admin_id data_ s s' leaves done = (
  λ now external by.
      refused_posted now post_id external by s' done.persisted
        (ap (λ q. is_unconfirmed q.status) done.row ∙ leaves done.before),
  λ by.
      refused_not_posted post_id by s' done.persisted
        (ap (λ q. is_unconfirmed q.status) done.row ∙ leaves done.before),
)

-- A post that was resolved as posted is not resolved again, in either way.
pub resolve_as_posted-IsSettled :
    (now post_id : ℕ) (external_post_id : String) (admin_id : ℕ) (s s' : Store) {post : Post}
    → resolve_as_posted now post_id external_post_id admin_id s ≡ (ok post, s')
    → IsSettled post_id s'
unfolding set_resolved_posted
resolve_as_posted-IsSettled now post_id external_post_id admin_id s s' h =
    settled post_id admin_id (set_resolved_posted now admin_id external_post_id) s s' (λ p. refl)
      (resolve_as_posted-Resolved now post_id external_post_id admin_id s s' h).resolved

-- A post that was resolved as not posted is not resolved again, in either way.
pub resolve_as_not_posted-IsSettled :
    (post_id admin_id : ℕ) (s s' : Store) {post : Post}
    → resolve_as_not_posted post_id admin_id s ≡ (ok post, s')
    → IsSettled post_id s'
unfolding set_resolved_failed
resolve_as_not_posted-IsSettled post_id admin_id s s' h =
    settled post_id admin_id (set_resolved_failed admin_id) s s' (λ p. refl)
      (resolve_as_not_posted-Resolved post_id admin_id s s' h)

-- A resolution that throws.
unresolved :
    (post_id admin_id : ℕ) (data_ : Post → Post) (s s' : Store) {e : Exn}
    → ((p : Post) → (data_ p).id ≡ p.id)
    → ((load_unconfirmed_or_throw post_id >>= λ before.
          (conditional_resolve before data_ >> record_resolution post_id admin_id))
        s)
      ≡ (err e, s')
    → (s'.posts ≡ s.posts) × (s'.queue ≡ s.queue)
unfolding load_unconfirmed_or_throw conditional_resolve record_resolution update_many record_audit
unresolved post_id admin_id data_ s s' keeps h = elim (Option-cases (find_post post_id s.posts)) [
  | inl missing ↦ (ground arith, ground arith)
  | inr (p, found) ↦ elim (Bool-cases (is_unconfirmed p.status)) [
    | inr closed ↦ (ground arith, ground arith)
    | inl open_case ↦
        let same = find_post-id post_id s.posts found in
        let hit = resolvable_self p open_case in
        let here = ap (λ k. find_post k s.posts) same ∙ found in
        let after =
          find_post-update_rows_hit p.id (resolvable p.version) data_ keeps s.posts here hit in
        let one = update_count_one p.id (resolvable p.version) s.posts here hit in
        (ground arith, ground arith)
  ]
]

-- When resolveAsPosted throws, the posts and the queue are as they were.
pub resolve_as_posted_refused :
    (now post_id : ℕ) (external_post_id : String) (admin_id : ℕ) (s s' : Store) {e : Exn}
    → resolve_as_posted now post_id external_post_id admin_id s ≡ (err e, s')
    → (s'.posts ≡ s.posts) × (s'.queue ≡ s.queue)
unfolding resolve_as_posted set_resolved_posted
resolve_as_posted_refused now post_id external_post_id admin_id s s' h =
    unresolved post_id admin_id (set_resolved_posted now admin_id external_post_id) s s' (λ p. refl)
      h

-- When resolveAsNotPosted throws, the posts and the queue are as they were.
pub resolve_as_not_posted_refused :
    (post_id admin_id : ℕ) (s s' : Store) {e : Exn}
    → resolve_as_not_posted post_id admin_id s ≡ (err e, s')
    → (s'.posts ≡ s.posts) × (s'.queue ≡ s.queue)
unfolding resolve_as_not_posted set_resolved_failed
resolve_as_not_posted_refused post_id admin_id s s' h =
    unresolved post_id admin_id (set_resolved_failed admin_id) s s' (λ p. refl) h
