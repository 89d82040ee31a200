-- ===== src/Publish/Tests.antt =====
-- Runs of the publish system on small tables, and the theorems about it at concrete inputs.
use content_hub.Base.{ℕ, ◌≤◌, ◌≡◌, refl, inl, true, false, [], ◌∷◌, none, some}
use content_hub.Schema.{AssetPlatform, Platform}
use content_hub.Publish.Posts.{
  Post, PostStatus, adapter, index_holds, find_post, update_rows, update_count, update_many,
}
use content_hub.Publish.Store.{Store, Job, connected, find_account}
use content_hub.Publish.Execution.{
  Env, published, raised, Fate, Stage, ExecutionOutcome, done, advance, write, run, execute,
  claimable, set_claimed, at_version, set_posted, dispatched, is_confirmed_not_posted, idle,
  loading,
}
use content_hub.Publish.Execution.Outcome.{Told, execute-Told}
use content_hub.Publish.Interleaving.{
  System, deliver, work, Reach, start, next, assign, published_count, IsHonest,
}
use content_hub.Publish.Interleaving.Safety.{published_once, published_apart, Step-Inv, Reach-Inv}
use content_hub.Publish.Interleaving.Invariant.{Inv}

abbrev draft_post : Post
draft_post = record {
  id = 7;
  content_id = 3;
  platform = Platform.facebook;
  priority_score = none;
  recommended_at = none;
  scheduled_at = none;
  posted_at = none;
  status = PostStatus.draft;
  executed_by = none;
  external_post_id = none;
  version = 0;
  external_post_url = none;
  publish_method = adapter;
  recommended_platform = none;
  selected_platform = some AssetPlatform.facebook;
  was_override = false;
  override_reason = none;
  ranking_score_id = none;
  created_at = 100;
}

abbrev job : Job
job = record { post_id = 7; requested_by = 1; connected_account_id = 5; job_version = 0 }

abbrev store : Store
store = record {
  posts = draft_post ∷ [];
  contents = [];
  users = [];
  accounts =
      record {
        id = 5;
        user_id = 1;
        platform = Platform.facebook;
        status = connected;
        connected_at = 9;
      }
      ∷ [];
  scores = [];
  audit = [];
  queue = job ∷ [];
}

abbrev env : Env
env = record {
  now = 200;
  token = some "token";
  reply = record { answer = published "fb-1"; created = true };
  fate = Fate.applied;
}

honest : IsHonest env.reply
honest e answer confirmed = absurd (no_raise answer)
  where
    no_raise : published "fb-1" ≡ raised e → ⊥
    no_raise h = cc

machine : Unit {0}
unfolding run advance write find_post update_many update_rows update_count index_holds
    published_count claimable find_account set_claimed at_version set_posted dispatched
    is_confirmed_not_posted
machine = tt

machine_index : index_holds (draft_post ∷ []) ≡ true
unfolding machine
machine_index = refl

-- A job that meets no obstacle posts its post.
execute_posts :
    (execute (env ∷ env ∷ env ∷ env ∷ env ∷ env ∷ []) job store).0 ≡ done ExecutionOutcome.posted
unfolding machine
execute_posts = refl

-- The system after run 0 has taken the job and gone through all of its stages.
abbrev begin : System
begin = record { store = store; live = []; stages = λ _. Stage.idle }

step_of : {s : System} → Reach (draft_post ∷ []) s → (t : System) × Reach (draft_post ∷ []) t
unfolding machine
step_of r = (_, next r (work 0 env honest))

started : (t : System) × Reach (draft_post ∷ []) t
started = (_, next (start store refl) (deliver 0 job refl (inl refl)))

finished : (t : System) × Reach (draft_post ∷ []) t
unfolding step_of started
finished = step_of (step_of (step_of (step_of (step_of (step_of started.1).1).1).1).1).1

finished_live : finished.0.live ≡ 7 ∷ []
unfolding finished machine
finished_live = refl

published_once_example : published_count 7 finished.0.live ≤ 1
unfolding machine
published_once_example = published_once machine_index finished.1 7

published_apart_example : ◌≡◌ {A = ℕ} 7 7
unfolding machine finished
published_apart_example = published_apart machine_index finished.1 7 7 refl refl refl refl refl refl

Step-Inv_example : Inv store.posts [] (assign (λ _. idle) 0 (loading job))
Step-Inv_example =
    Step-Inv {s = begin} (deliver 0 job refl (inl refl))
      (Reach-Inv machine_index (start store refl))

execute-Told_example :
    Told job store ExecutionOutcome.posted
      (execute (env ∷ env ∷ env ∷ env ∷ env ∷ env ∷ []) job store).1
execute-Told_example = execute-Told (env ∷ env ∷ env ∷ env ∷ env ∷ env ∷ []) job store execute_posts
