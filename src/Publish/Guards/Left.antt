-- ===== src/Publish/Guards/Left.antt =====
-- backend/src/modules/publish/publish-orchestrator.service.ts: what `createAndDispatch` and `redispatch` leave behind when
-- they throw.
use content_hub.Base.{ℕ, ◌≡◌, sym, ap, ◌∙◌, ◌⊎◌, inl, inr, true, false, ◌∷◌, some, String}
use content_hub.Base.Effects.{err, Exn}
use content_hub.Publish.Posts.{
  Post, PostStatus, create_post, find_post, update_many, is_dispatchable,
}
use content_hub.Publish.Store.{Store, Ports, audit_row, publish_attempt_started}
use content_hub.Publish.Orchestrator.{
  CreatePost, Recommendation, recompute_recommendation, new_post, set_recommendation, create_intent,
  redispatch_intent, create_and_dispatch, redispatch,
}
use content_hub.Publish.Guards.Queued.{dispatch_intent_refused}
use content_hub.Publish.Guards.{create_intent_refused, create_intent-Intended}
use content_hub.Publish.Guards.Redispatch.{redispatch_intent_refused, redispatch_intent-Reintended}

abbrev pub Unchanged : Store → Store → Type 0
Unchanged s s' = (s'.posts ≡ s.posts) × (s'.queue ≡ s.queue)

-- The queue did not take the job: the new row stands in the table as a draft without a job, and the audit log says
-- that an attempt has started.
pub record Drafted (ports : Ports) (user_id : ℕ) (s s' : Store) : Type 0 where
  pub down : ports.queue_up ≡ false
  pub post : Post
  pub drafted : post.status ≡ PostStatus.draft
  pub stored : create_post post s.posts ≡ some s'.posts
  pub persisted : s'.posts ≡ post ∷ s.posts
  pub unqueued : s'.queue ≡ s.queue
  pub audited : s'.audit ≡ audit_row user_id publish_attempt_started true (some post.id) ∷ s.audit

-- The queue did not take the job: the row is still one to dispatch, with a recommendation that was written.
pub record Recommended (ports : Ports) (user_id post_id : ℕ) (s s' : Store) : Type 0 where
  pub down : ports.queue_up ≡ false
  pub before : Post
  pub found : find_post post_id s.posts ≡ some before
  pub dispatchable : is_dispatchable before.status ≡ true
  pub facts : Recommendation
  pub written :
      update_many before.id (λ _. true) (set_recommendation facts) s.posts ≡ some (1, s'.posts)
  pub persisted : find_post post_id s'.posts ≡ some (set_recommendation facts before)
  pub unqueued : s'.queue ≡ s.queue
  pub audited : s'.audit ≡ audit_row user_id publish_attempt_started true (some before.id) ∷ s.audit

pub create_and_dispatch_left :
    (ports : Ports) (dto : CreatePost) (user_id : ℕ) (s s' : Store) {e : Exn}
    → create_and_dispatch ports dto user_id s ≡ (err e, s')
    → Unchanged s s' ⊎ Drafted ports user_id s s'
unfolding create_and_dispatch new_post
create_and_dispatch_left ports dto user_id s s' h =
    elim (dispatch_intent_refused ports user_id (create_intent ports dto user_id) s s' h) [
      | inl threw ↦ inl (create_intent_refused ports dto user_id s s' threw)
      | inr u ↦
          let i = create_intent-Intended ports dto user_id s u.between u.persists in
          inr record {
            down = u.down;
            post = u.intent.post;
            drafted = ap (λ p. p.status) i.row;
            stored = rw u.kept i.stored;
            persisted = rw u.kept i.persisted;
            unqueued = u.unqueued ∙ i.unqueued;
            audited = rw (sym i.unaudited) u.audited;
          }
    ]

pub redispatch_left :
    (ports : Ports) (post_id : ℕ) (password : String) (user_id : ℕ) (s s' : Store) {e : Exn}
    → redispatch ports post_id password user_id s ≡ (err e, s')
    → Unchanged s s' ⊎ Recommended ports user_id post_id s s'
unfolding redispatch set_recommendation
redispatch_left ports post_id password user_id s s' h =
    elim (dispatch_intent_refused ports user_id (redispatch_intent ports post_id password user_id) s
      s' h) [
        | inl threw ↦ inl (redispatch_intent_refused ports post_id password user_id s s' threw)
        | inr u ↦
            let i =
              redispatch_intent-Reintended ports post_id password user_id s u.between u.persists in
            inr record {
              down = u.down;
              before = i.before;
              found = i.found;
              dispatchable = i.dispatchable;
              facts = recompute_recommendation ports i.before.content_id i.platform s.scores;
              written = rw u.kept i.written;
              persisted = rw u.kept (i.persisted ∙ ap some i.row);
              unqueued = u.unqueued ∙ i.unqueued;
              audited = rw (sym i.unaudited, sym (ap (λ p. p.id) i.row)) u.audited;
            }
      ]
