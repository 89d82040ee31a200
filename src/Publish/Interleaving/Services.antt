-- ===== src/Publish/Interleaving/Services.antt =====
-- The requests as steps of the system: what a service method does to the store, the system can do.
use content_hub.Base.{ℕ, ◌≡◌, refl, ◌∙◌, ap, ◌⊎◌, inl, inr, String, some}
use content_hub.Base.Effects.{Result, ok, err, Exn}
use content_hub.Publish.Posts.{Post, create_post}
use content_hub.Publish.Posts.Laws.{find_post-id}
use content_hub.Publish.Store.{Store, Ports}
use content_hub.Publish.Orchestrator.{
  CreatePost, RecordManualExternal, create_and_dispatch, redispatch, record_manual_external,
}
use content_hub.Publish.Guards.{create_and_dispatch-Created}
use content_hub.Publish.Guards.Redispatch.{redispatch-Redispatched}
use content_hub.Publish.Guards.Left.{create_and_dispatch_left, redispatch_left}
use content_hub.Publish.Guards.Manual.{
  record_manual_external-Recorded, record_manual_external_refused,
}
use content_hub.Publish.Resolution.{resolve_as_posted, resolve_as_not_posted}
use content_hub.Publish.Resolution.Laws.{
  resolve_as_posted-Resolved, resolve_as_not_posted-Resolved, resolve_as_posted_refused,
  resolve_as_not_posted_refused,
}
use content_hub.Publish.Interleaving.{
  System, Step, insert, recommend, confirm_posted, confirm_not_posted, elsewhere, published_count,
}

-- Any number of steps.
pub data Steps (s : System) : System → Type 0 where
  stay : Steps s s
  then_step : {t u : System} → Steps s t → Step t u → Steps s u

-- The system with the store that a method leaves.
abbrev pub leaves : System → Store → System
leaves s store = record s { store = store }

two : {s t u : System} → Step s t → Step t u → Steps s u
two first second = then_step (then_step stay first) second

result_cases :
    {A : Type 0} (r : Result A × Store)
    → ((a : A) × (r ≡ (ok a, r.1))) ⊎ ((e : Exn) × (r ≡ (err e, r.1)))
result_cases (ok a, t) = inl (a, refl)
result_cases (err e, t) = inr (e, refl)

-- An insert, and what else the method writes.
inserting :
    (s : System) (p : Post) (store : Store)
    → create_post p s.store.posts ≡ some store.posts
    → Steps s (leaves s store)
inserting s p store e = two (insert p store.posts e) (elsewhere store refl)

create_and_dispatch-Steps :
    (ports : Ports) (dto : CreatePost) (user_id : ℕ) (s : System)
    → Steps s (leaves s (create_and_dispatch ports dto user_id s.store).1)
create_and_dispatch-Steps ports dto user_id s =
    elim (result_cases (create_and_dispatch ports dto user_id s.store)) [
      | inl (post, e) ↦
          inserting s post _ (create_and_dispatch-Created ports dto user_id s.store _ e).stored
      | inr (e, h) ↦ elim (create_and_dispatch_left ports dto user_id s.store _ h) [
        | inl u ↦ then_step stay (elsewhere _ u.0)
        | inr i ↦ inserting s i.post _ i.stored
      ]
    ]

record_manual_external-Steps :
    (ports : Ports) (dto : RecordManualExternal) (user_id : ℕ) (s : System)
    → Steps s (leaves s (record_manual_external ports dto user_id s.store).1)
record_manual_external-Steps ports dto user_id s =
    elim (result_cases (record_manual_external ports dto user_id s.store)) [
      | inl (post, e) ↦
          inserting s post _ (record_manual_external-Recorded ports dto user_id s.store _ e).stored
      | inr (e, h) ↦
          then_step stay
            (elsewhere _ (record_manual_external_refused ports dto user_id s.store _ h).0)
    ]

redispatch-Steps :
    (ports : Ports) (post_id : ℕ) (password : String) (user_id : ℕ) (s : System)
    → Steps s (leaves s (redispatch ports post_id password user_id s.store).1)
redispatch-Steps ports post_id password user_id s =
    elim (result_cases (redispatch ports post_id password user_id s.store)) [
      | inl (post, e) ↦
          let done = redispatch-Redispatched ports post_id password user_id s.store _ e in
          two (recommend done.before.id 1 _ _ done.written) (elsewhere _ refl)
      | inr (e, h) ↦ elim (redispatch_left ports post_id password user_id s.store _ h) [
        | inl u ↦ then_step stay (elsewhere _ u.0)
        | inr i ↦ two (recommend i.before.id 1 _ _ i.written) (elsewhere _ refl)
      ]
    ]

resolve_as_posted-Steps :
    (now post_id : ℕ) (external_post_id : String) (admin_id : ℕ) (s : System)
    → Steps s (leaves s (resolve_as_posted now post_id external_post_id admin_id s.store).1)
resolve_as_posted-Steps now post_id external_post_id admin_id s =
    elim (result_cases (resolve_as_posted now post_id external_post_id admin_id s.store)) [
      | inl (post, e) ↦
          let done =
            (resolve_as_posted-Resolved now post_id external_post_id admin_id s.store _
              e).resolved in
          two
            (confirm_posted done.before.id 1 done.before.version now admin_id external_post_id _
              done.written)
            (elsewhere _ refl)
      | inr (e, h) ↦ then_step stay (
          elsewhere _
            (resolve_as_posted_refused now post_id external_post_id admin_id s.store _ h).0)
    ]

-- The admin is right that the platform has no such post.
resolve_as_not_posted-Steps :
    (post_id admin_id : ℕ) (s : System)
    → published_count post_id s.live ≡ 0
    → Steps s (leaves s (resolve_as_not_posted post_id admin_id s.store).1)
resolve_as_not_posted-Steps post_id admin_id s right =
    elim (result_cases (resolve_as_not_posted post_id admin_id s.store)) [
      | inl (post, e) ↦
          let done = resolve_as_not_posted-Resolved post_id admin_id s.store _ e in
          two
            (confirm_not_posted done.before.id 1 done.before.version admin_id _ done.written (
              ap (λ k. published_count k s.live) (find_post-id post_id s.store.posts done.found)
              ∙ right))
            (elsewhere _ refl)
      | inr (e, h) ↦
          then_step stay
            (elsewhere _ (resolve_as_not_posted_refused post_id admin_id s.store _ h).0)
    ]

-- A request, with its user.
pub data Request : Type 0 where
  to_create : CreatePost → ℕ → Request
  to_redispatch : ℕ → String → ℕ → Request
  to_record : RecordManualExternal → ℕ → Request
  to_resolve_posted : ℕ → String → ℕ → Request
  to_resolve_not_posted : ℕ → ℕ → Request

-- The store that the request leaves, whether its method returns or throws.
abbrev pub serve : Ports → Request → Store → Store
serve ports (to_create dto user_id) s = (create_and_dispatch ports dto user_id s).1
serve ports (to_redispatch post_id password user_id) s =
    (redispatch ports post_id password user_id s).1
serve ports (to_record dto user_id) s = (record_manual_external ports dto user_id s).1
serve ports (to_resolve_posted post_id external_post_id admin_id) s =
    (resolve_as_posted ports.now post_id external_post_id admin_id s).1
serve ports (to_resolve_not_posted post_id admin_id) s =
    (resolve_as_not_posted post_id admin_id s).1

-- An admin who says that nothing was posted is right.
abbrev pub IsRight : Request → System → Type 0
IsRight (to_resolve_not_posted post_id admin_id) s = published_count post_id s.live ≡ 0
IsRight _ s = Unit

-- What a request does to the store, whether its method returns or throws, the system does in steps, if an
-- admin who says that nothing was posted is right.
pub serve-Steps :
    (ports : Ports) (request : Request) (s : System)
    → IsRight request s
    → Steps s (leaves s (serve ports request s.store))
serve-Steps ports (to_create dto user_id) s right = create_and_dispatch-Steps ports dto user_id s
serve-Steps ports (to_redispatch post_id password user_id) s right =
    redispatch-Steps ports post_id password user_id s
serve-Steps ports (to_record dto user_id) s right = record_manual_external-Steps ports dto user_id s
serve-Steps ports (to_resolve_posted post_id external_post_id admin_id) s right =
    resolve_as_posted-Steps ports.now post_id external_post_id admin_id s
serve-Steps ports (to_resolve_not_posted post_id admin_id) s right =
    resolve_as_not_posted-Steps post_id admin_id s right
