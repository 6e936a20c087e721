-- ===== src/Json.antt =====
-- What the code uses of `serde_json::Value`, a third-party type: indexing by a key, look-up of a key,
-- the views of a value as a text, as a Boolean and as an array, comparison with a text, and the object that
-- `json!({"role": role, "content": content})` builds.
use open_mind_ai.Base.{Bool, Option, some, List, ◌≡◌}
use open_mind_ai.Base.Text.{Text, text, text_eq}

pub record Json : Type 1 where
  pub Value : Type 0
  pub index : Value → Text → Value
  pub get : Value → Text → Option Value
  pub as_str : Value → Option Text
  pub as_bool : Value → Option Bool
  pub as_array : Value → Option (List Value)
  pub eq_str : Value → Text → Bool
  pub message : Text → Text → Value
  -- The fields of a built message read back.
  pub content_of_message :
      (role content : Text) → as_str (index (message role content) (text "content")) ≡ some content
  pub role_of_message :
      (role content t : Text)
      → eq_str (index (message role content) (text "role")) t ≡ text_eq role t
