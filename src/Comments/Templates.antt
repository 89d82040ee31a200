-- ===== src/Comments/Templates.antt =====
-- backend/src/modules/comments/comment-templates.service.ts: the canned replies. A field of an update is given
-- or left out; a null, which the driver refuses, is not modelled.
pub mod Laws
mod Tests
use content_hub.Base.{ℕ, List, [], ◌∷◌, Option, none, some, String, ◌==◌, if◌then◌else◌}
use content_hub.Base.Effects.{M, ok, err, feed, ◌>>=◌, ◌>>◌, return, modify, not_found, database}

pub record CommentReplyTemplate : Type 0 where
  pub id : ℕ
  pub title : String
  pub body : String
  pub created_by : ℕ

pub data TemplateAction : Type 0 where
  comment_template_created comment_template_updated comment_template_deleted : TemplateAction

pub record TemplateAudit : Type 0 where
  pub actor : ℕ
  pub action : TemplateAction
  pub template_id : ℕ

pub record Templates : Type 0 where
  pub rows : List CommentReplyTemplate
  pub audit : List TemplateAudit

unfoldable pub find_template : ℕ → List CommentReplyTemplate → Option CommentReplyTemplate
find_template id [] = none
find_template id (t ∷ ts) = if t.id == id then some t else find_template id ts

abbrev pub note : ℕ → TemplateAction → ℕ → Templates → Templates
note actor action template_id s = record s {
  audit = record { actor = actor; action = action; template_id = template_id } ∷ s.audit;
}

-- `create`, with the fresh key of the row; a key that is taken raises.
unfoldable pub create_template : ℕ → String → String → ℕ → M Templates CommentReplyTemplate
create_template id title body user_id s = elim (find_template id s.rows) [
  | some _ ↦ (err database, s)
  | none ↦
      let t : CommentReplyTemplate = record {
        id = id;
        title = title;
        body = body;
        created_by = user_id;
      } in
      (ok t, note user_id comment_template_created id (record s { rows = t ∷ s.rows }))
]

-- `getOrThrow`
unfoldable pub get_or_throw : ℕ → M Templates CommentReplyTemplate
get_or_throw id s = elim (find_template id s.rows) [
  | none ↦ (err not_found, s)
  | some t ↦ (ok t, s)
]

abbrev pub or_old : Option String → String → String
or_old none old = old
or_old (some new) old = new

-- The data of `update`.
unfoldable pub edited : Option String → Option String → CommentReplyTemplate → CommentReplyTemplate
edited title body t = record t { title = or_old title t.title; body = or_old body t.body }

unfoldable pub update_templates :
    ℕ
    → (CommentReplyTemplate → CommentReplyTemplate)
    → List CommentReplyTemplate
    → List CommentReplyTemplate
update_templates id data_ [] = []
update_templates id data_ (t ∷ ts) =
    if t.id == id then data_ t ∷ ts else t ∷ update_templates id data_ ts

-- `update`
unfoldable pub update_template :
    ℕ → Option String → Option String → ℕ → M Templates CommentReplyTemplate
update_template id title body user_id = do
  t ← get_or_throw id
  modify (λ s. record s { rows = update_templates id (edited title body) s.rows })
  modify (note user_id comment_template_updated id)
  return (edited title body t)

unfoldable pub delete_templates : ℕ → List CommentReplyTemplate → List CommentReplyTemplate
delete_templates id [] = []
delete_templates id (t ∷ ts) = if t.id == id then ts else t ∷ delete_templates id ts

-- `remove`
unfoldable pub remove_template : ℕ → ℕ → M Templates (Unit {0})
remove_template id user_id = do
  get_or_throw id
  modify (λ s. record s { rows = delete_templates id s.rows })
  modify (note user_id comment_template_deleted id)
