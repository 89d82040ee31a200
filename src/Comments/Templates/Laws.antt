-- ===== src/Comments/Templates/Laws.antt =====
-- What a lookup finds after a request.
use content_hub.Base.{
  ℕ, ◌≡◌, refl, inl, inr, List, [], ◌∷◌, Option, none, some, String, arith, Option-cases,
}
use content_hub.Base.Effects.{ok}
use content_hub.Comments.Templates.{
  CommentReplyTemplate, Templates, find_template, get_or_throw, edited, update_templates,
  update_template, delete_templates, remove_template,
}

-- No two rows have one key.
abbrev pub KeysApart : List CommentReplyTemplate → Type 0
KeysApart [] = Unit
KeysApart (t ∷ ts) = (find_template t.id ts ≡ none) × KeysApart ts

find_template-delete_templates :
    (id : ℕ) (ts : List CommentReplyTemplate)
    → KeysApart ts
    → find_template id (delete_templates id ts) ≡ none
unfolding find_template delete_templates
find_template-delete_templates id [] h = refl
find_template-delete_templates id (t ∷ ts) (fresh, h) =
    ground (arith, find_template-delete_templates id ts h)

-- In a table whose keys are unique, a template that was removed is not found afterwards.
pub remove_template-find :
    (id user_id : ℕ) (s s' : Templates) {u : Unit {0}}
    → KeysApart s.rows
    → remove_template id user_id s ≡ (ok u, s')
    → find_template id s'.rows ≡ none
unfolding remove_template get_or_throw
remove_template-find id user_id s s' apart h =
    ground (arith, find_template-delete_templates id s.rows apart)

find_template-update_templates :
    (id : ℕ) (data_ : CommentReplyTemplate → CommentReplyTemplate) (ts : List CommentReplyTemplate)
    {t : CommentReplyTemplate}
    → ((x : CommentReplyTemplate) → (data_ x).id ≡ x.id)
    → find_template id ts ≡ some t
    → find_template id (update_templates id data_ ts) ≡ some (data_ t)
unfolding find_template update_templates
find_template-update_templates id data_ [] keeps e = cc
find_template-update_templates id data_ (x ∷ ts) {t} keeps e =
    ground (arith, keeps x, find_template-update_templates id data_ ts {t = t} keeps)

edited_keeps :
    (title body : Option String) (t : CommentReplyTemplate) → (edited title body t).id ≡ t.id
unfolding edited
edited_keeps title body t = refl

-- The row that update returns is the row that a lookup finds afterwards.
pub update_template-find :
    (id : ℕ) (title body : Option String) (user_id : ℕ) (s s' : Templates)
    {t : CommentReplyTemplate}
    → update_template id title body user_id s ≡ (ok t, s')
    → find_template id s'.rows ≡ some t
unfolding update_template get_or_throw
update_template-find id title body user_id s s' {t} h =
    elim (Option-cases (find_template id s.rows)) [
      | inl missing ↦ absurd (ground arith)
      | inr (old, found) ↦
          let after =
            find_template-update_templates id (edited title body) s.rows {t = old}
              (edited_keeps title body) found in
          ground arith
    ]
