-- ===== src/Publish/Interleaving/Requests.antt =====
-- The statements that the requests run on the posts keep the invariant.
use content_hub.Base.{ℕ, ◌≡◌, ◌≢◌, refl, ap, inl, inr, true, List, ◌∷◌, none, some, arith}
use content_hub.Publish.Posts.{
  Post, scheduled, posted, index_holds, find_post, update_many, create_post,
}
use content_hub.Publish.Posts.Laws.{
  find_post-update_rows_ne, find_post-update_rows_idle, find_post-update_rows_hit, update_many-some,
  create_post-some, row_cases, find_post-cons, view-update_rows,
}
use content_hub.Publish.Orchestrator.{Recommendation, set_recommendation}
use content_hub.Publish.Resolution.{resolvable}
use content_hub.Publish.Execution.{Stage}
use content_hub.Publish.Interleaving.{published_count}
use content_hub.Publish.Interleaving.Invariant.{
  Inv, MayBeLive, holder, status_of, version_of, view-Inv, free-Inv,
}
use content_hub.Publish.Interleaving.Claim.{held_status, unheld}

resolvable_ne :
    (version : ℕ) (p : Post)
    → resolvable version p ≡ true
    → (p.status ≢ scheduled) × (p.status ≢ posted)
unfolding resolvable
resolvable_ne version p hit = (ground arith, ground arith)

module _ {posts : List Post} {live : List ℕ} {stages : ℕ → Stage}
    (inv : Inv posts live stages) where
  view_idle :
      (rows : List Post)
      → index_holds rows ≡ true
      → ((j : ℕ) → find_post j rows ≡ find_post j posts)
      → Inv rows live stages
  view_idle rows indexed same =
      view-Inv inv rows indexed (λ j. ap status_of (same j)) (λ j. ap version_of (same j))

  pub insert-Inv :
      (p : Post) (rows : List Post) → create_post p posts ≡ some rows → Inv rows live stages
  insert-Inv p rows e =
      let (fresh, same, indexed) = create_post-some p posts e in
      free-Inv inv p.id rows indexed (λ j ne. rw same (skip j ne)) (unheld_missing fresh)
        (λ one. absurd (missing fresh one))
    where
      skip : (j : ℕ) → j ≢ p.id → find_post j (p ∷ posts) ≡ find_post j posts
      skip j ne = find_post-cons p posts j ne

      unheld_missing : find_post p.id posts ≡ none → (j : ℕ) → holder (stages j) ≢ some p.id
      unheld_missing fresh j h =
          ground (arith, held_status _ _ _ (stages j) h (inv.held j p.id h), fresh)

      missing : find_post p.id posts ≡ none → published_count p.id live ≡ 1 → ⊥
      missing fresh one = ground (arith, inv.row p.id one, fresh)

  pub resolve-Inv :
      (id n version : ℕ) (data_ : Post → Post) (rows : List Post)
      → ((p : Post) → (data_ p).id ≡ p.id)
      → ((p : Post) → published_count id live ≡ 1 → MayBeLive (some (data_ p).status))
      → update_many id (resolvable version) data_ posts ≡ some (n, rows)
      → Inv rows live stages
  resolve-Inv id n version data_ rows keeps row e =
      let (same, indexed, _) = update_many-some id (resolvable version) data_ posts e in
      rw same (elim (row_cases (resolvable version) (find_post id posts)) [
        | inl (p, found, hit) ↦
            free-Inv inv id _ (rw same at indexed)
              (λ j ne. find_post-update_rows_ne id _ data_ keeps j posts ne)
              (unheld inv id p found (resolvable_ne version p hit).0
                (resolvable_ne version p hit).1)
              (λ one. rw (find_post-update_rows_hit id _ data_ keeps posts found hit) (row p one))
        | inr never ↦
            view_idle _ (rw same at indexed)
              (λ j. find_post-update_rows_idle id _ data_ keeps j posts never)
      ])

  pub recommend-Inv :
      (id n : ℕ) (r : Recommendation) (rows : List Post)
      → update_many id (λ _. true) (set_recommendation r) posts ≡ some (n, rows)
      → Inv rows live stages
  unfolding set_recommendation
  recommend-Inv id n r rows e =
      let (same, indexed, _) = update_many-some id (λ _. true) (set_recommendation r) posts e in
      rw same (
        view-Inv inv _ (rw same at indexed)
          (λ j.
            view-update_rows status_of id _ (set_recommendation r) (λ p. refl) (λ p. refl) j posts)
          (λ j.
            view-update_rows version_of id _ (set_recommendation r) (λ p. refl) (λ p. refl) j
              posts))
