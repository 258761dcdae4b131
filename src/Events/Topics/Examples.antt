-- ===== src/Events/Topics/Examples.antt =====
-- The forms of topics at concrete texts.
use fastapi_viewsets.Prelude.{text, ◌≡◌, refl, some, true, false}
use fastapi_viewsets.Events.Topics.{
  ok, value_error, str, int, scope_key_text, scoped_topic, split_scoped_topic, split_custom_topic,
  is_scoped_topic, is_valid_topic, validate_topic, topics_program,
}
use fastapi_viewsets.Events.Topics.Forms.{scoped_not_valid}

key_of_seven : scope_key_text (int (text "7")) ≡ ok (text "7")
unfolding topics_program
key_of_seven = refl

tenant_topic : scoped_topic (text "tenant") (int (text "7")) ≡ ok (text "@tenant:7")
unfolding topics_program
tenant_topic = refl

tenant_split : split_scoped_topic (text "@tenant:7") ≡ some (text "tenant", text "7")
unfolding topics_program
tenant_split = refl

tenant_scoped : is_scoped_topic (text "@tenant:7") ≡ true
unfolding topics_program
tenant_scoped = refl

-- a source topic keeps the colons of its key; a scope name holds none
forms_run :
    (split_custom_topic (text "orders:a:b") ≡ some (text "orders", some (text "a:b")))
    × ((validate_topic (text "/items/1") ≡ ok (text "/items/1"))
        × ((validate_topic (text "Orders") ≡ value_error)
            × (scoped_topic (text "a:b") (str (text "7")) ≡ value_error)))
unfolding topics_program
forms_run = (refl, (refl, (refl, refl)))

scoped_not_valid_example : is_valid_topic (text "@tenant:7") ≡ false
scoped_not_valid_example = scoped_not_valid (text "@tenant:7") tenant_scoped
