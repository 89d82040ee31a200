-- ===== src/Comments/Reply/Laws.antt =====
-- What a reply leaves behind: a comment that was replied to is not replied to again, and a reply that
-- throws leaves the comment open.
use content_hub.Base.{
  ℕ, ◌≡◌, refl, ◌∙◌, ap, inl, inr, Bool, true, List, [], ◌∷◌, Option, none, some, String,
  if◌then◌else◌, arith, Bool-cases,
}
use content_hub.Base.Effects.{Result, ok, err, Exn, conflict}
use content_hub.Base.Effects.Passing.{onward, ensure_passes}
use content_hub.Comments.Records.{Comment}
use content_hub.Publish.Store.{Ports, find_user, comment_reply_failed}
use content_hub.Publish.StepUp.{assert_fresh_password, password_matches}
use content_hub.Comments.Reply.{
  Inbox, ReplyEnv, find_comment, update_comments, unreplied, set_replied, clear_replied, on_store,
  load_comment, claim_reply, store_reply, dispatch_reply, conclude, reply,
}

-- When the comment was replied to, if it is there.
abbrev pub replied_at_of : Option Comment → Option (Option ℕ)
replied_at_of none = none
replied_at_of (some c) = some c.replied_at

abbrev patched : (Comment → Bool) → (Comment → Comment) → Option Comment → Option Comment
patched where_ data_ none = none
patched where_ data_ (some c) = some (if where_ c then data_ c else c)

find_comment-update_comments :
    (k : ℕ) (where_ : Comment → Bool) (data_ : Comment → Comment) (cs : List Comment)
    → ((c : Comment) → (data_ c).id ≡ c.id)
    → find_comment k (update_comments k where_ data_ cs) ≡ patched where_ data_ (find_comment k cs)
unfolding find_comment update_comments
find_comment-update_comments k where_ data_ [] keeps = refl
find_comment-update_comments k where_ data_ (c ∷ cs) keeps =
    ground (arith, keeps c, find_comment-update_comments k where_ data_ cs keeps)

set_replied_keeps : (now by : ℕ) (c : Comment) → (set_replied now by c).id ≡ c.id
unfolding set_replied
set_replied_keeps now by c = refl

clear_replied_keeps : (c : Comment) → (clear_replied c).id ≡ c.id
unfolding clear_replied
clear_replied_keeps c = refl

-- The dispatch that throws has not touched the comments.
dispatch_reply_refused :
    (env : ReplyEnv) (comment : Comment) (message : String) (user_id : ℕ) (s s' : Inbox) {e : Exn}
    → dispatch_reply env comment message user_id s ≡ (err e, s')
    → s'.comments ≡ s.comments
unfolding dispatch_reply store_reply
dispatch_reply_refused env comment message user_id s s' h = ground arith

-- A comment that was replied to is not replied to again: the request leaves the comments as they were, and
-- the platform gets nothing.
pub replied_once :
    (ports : Ports) (env : ReplyEnv) (comment_id : ℕ) (message password : String) (user_id : ℕ)
    (s : Inbox) {c : Comment} {t : ℕ}
    → find_comment comment_id s.comments ≡ some c
    → c.replied_at ≡ some t
    → let s' = (reply ports env comment_id message password user_id s).1 in
      (s'.comments ≡ s.comments) × (s'.sent ≡ s.sent)
unfolding reply load_comment unreplied assert_fresh_password
replied_once ports env comment_id message password user_id s found replied =
    (ground arith, ground arith)

unreplied_iff : (c : Comment) → unreplied c ≡ true → c.replied_at ≡ none
unfolding unreplied
unreplied_iff c h = ground arith

-- The rollback undoes the claim.
rollback-claim :
    (k now by : ℕ) (cs : List Comment) {c : Comment}
    → find_comment k cs ≡ some c
    → replied_at_of (
        find_comment k (
          update_comments k
            (λ _. true)
            clear_replied
            (update_comments k unreplied (set_replied now by) cs)))
      ≡ some none
unfolding clear_replied set_replied
rollback-claim k now by cs found =
    ap replied_at_of (
      find_comment-update_comments k (λ _. true) clear_replied _ clear_replied_keeps
      ∙ ap (patched (λ _. true) clear_replied) (
          find_comment-update_comments k unreplied (set_replied now by) cs
            (set_replied_keeps now by)))
    ∙ rw found refl

-- A conclusion that throws has rolled the claim back, if the rollback goes through.
conclude_refused :
    (env : ReplyEnv) (comment_id user_id : ℕ) (r : Result Comment × Inbox) (s' : Inbox) {e : Exn}
    → env.rolls_back ≡ true
    → conclude env comment_id user_id r ≡ (err e, s')
    → (r.0 ≡ err e)
      × (s'.comments ≡ update_comments comment_id (λ _. true) clear_replied r.1.comments)
unfolding conclude
conclude_refused env comment_id user_id (ok c, t) s' up h = absurd (ground arith)
conclude_refused env comment_id user_id (err e, t) s' up h = (ground arith, ground arith)

abbrev claimed : ℕ → ℕ → ℕ → Inbox → Inbox
claimed now comment_id user_id s = record s {
  comments = update_comments comment_id unreplied (set_replied now user_id) s.comments;
}

claim_reply_won :
    (now comment_id user_id : ℕ) (s : Inbox) {c : Comment}
    → find_comment comment_id s.comments ≡ some c
    → unreplied c ≡ true
    → claim_reply now comment_id user_id s ≡ (ok tt, claimed now comment_id user_id s)
unfolding claim_reply
claim_reply_won now comment_id user_id s found open_one = rw (found, open_one) refl

-- A dispatch that throws after the claim leaves the comment open.
dispatched_refused :
    (now : ℕ) (env : ReplyEnv) (comment_id : ℕ) (message : String) (user_id : ℕ) (s s' : Inbox)
    {c : Comment} {e : Exn}
    → env.rolls_back ≡ true
    → find_comment comment_id s.comments ≡ some c
    → conclude env comment_id user_id
        (dispatch_reply env c message user_id (claimed now comment_id user_id s))
      ≡ (err e, s')
    → replied_at_of (find_comment comment_id s'.comments) ≡ some none
dispatched_refused now env comment_id message user_id s s' {c} up found h =
    let (threw, same) =
      conclude_refused env comment_id user_id
        (dispatch_reply env c message user_id (claimed now comment_id user_id s)) s' up h in
    let kept = dispatch_reply_refused env c message user_id (claimed now comment_id user_id s) _ (
      ap (λ r. (r, (dispatch_reply env c message user_id (claimed now comment_id user_id s)).1))
        threw) in
    ap (λ cs. replied_at_of (find_comment comment_id cs))
      (same ∙ ap (update_comments comment_id (λ _. true) clear_replied) kept)
    ∙ rollback-claim comment_id now user_id s.comments found

open_stays :
    (comment_id : ℕ) (s s' : Inbox) {c : Comment}
    → find_comment comment_id s.comments ≡ some c
    → unreplied c ≡ true
    → s'.comments ≡ s.comments
    → replied_at_of (find_comment comment_id s'.comments) ≡ some none
open_stays comment_id s s' {c} found open_one same =
    ap (λ cs. replied_at_of (find_comment comment_id cs)) same
    ∙ ap replied_at_of found
    ∙ ap some (unreplied_iff c open_one)

load_comment_found :
    (id : ℕ) (s : Inbox) {c : Comment}
    → find_comment id s.comments ≡ some c
    → load_comment id s ≡ (ok c, s)
unfolding load_comment
load_comment_found id s found = ground arith

fresh_password_granted :
    (ports : Ports) (user_id : ℕ) (password : String) (s : Inbox)
    → password_matches ports (find_user user_id s.store.users) password ≡ true
    → on_store (assert_fresh_password ports user_id password comment_reply_failed) s ≡ (ok tt, s)
unfolding assert_fresh_password
fresh_password_granted ports user_id password s granted = rw granted refl

-- When reply throws, and the update goes through that rolls the claim back, a comment that is open stays open: it can be
-- replied to again, whether or not the platform has taken this reply.
pub reply_refused :
    (ports : Ports) (env : ReplyEnv) (comment_id : ℕ) (message password : String) (user_id : ℕ)
    (s s' : Inbox) {c : Comment} {e : Exn}
    → env.rolls_back ≡ true
    → find_comment comment_id s.comments ≡ some c
    → unreplied c ≡ true
    → reply ports env comment_id message password user_id s ≡ (err e, s')
    → replied_at_of (find_comment comment_id s'.comments) ≡ some none
unfolding reply load_comment assert_fresh_password
reply_refused ports env comment_id message password user_id s s' {c} {e} up found open_one h =
    elim (Bool-cases (password_matches ports (find_user user_id s.store.users) password)) [
      | inr denied ↦ open_stays comment_id s s' found open_one (ground arith)
      | inl granted ↦ elim (Bool-cases c.replyable) [
        | inr closed ↦ open_stays comment_id s s' found open_one (ground arith)
        | inl replyable ↦
            dispatched_refused ports.now env comment_id message user_id s s' {e = e} up found (
              let h1 = onward _ (fresh_password_granted ports user_id password s granted) h in
              let h2 = onward _ (load_comment_found comment_id s found) h1 in
              let h3 = onward _ (ensure_passes conflict s replyable) h2 in
              let h4 = onward _ (ensure_passes conflict s open_one) h3 in
              onward _ (claim_reply_won ports.now comment_id user_id s found open_one) h4)
      ]
    ]
