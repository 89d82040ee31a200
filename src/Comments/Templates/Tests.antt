-- ===== src/Comments/Templates/Tests.antt =====
-- One template, edited and removed.
use content_hub.Base.{◌≡◌, refl, [], ◌∷◌, none}
use content_hub.Comments.Templates.{
  CommentReplyTemplate, Templates, find_template, get_or_throw, edited, update_templates,
  update_template, delete_templates, remove_template,
}

abbrev thanks : CommentReplyTemplate
thanks = record { id = 1; title = "Thanks"; body = "Thank you"; created_by = 9 }

abbrev shelf : Templates
shelf = record { rows = thanks ∷ []; audit = [] }

editing : Unit {0}
unfolding find_template get_or_throw edited update_templates update_template delete_templates
    remove_template
editing = tt

removed : find_template 1 (remove_template 1 9 shelf).1.rows ≡ none
unfolding editing
removed = refl
