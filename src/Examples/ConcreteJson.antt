-- ===== src/Examples/ConcreteJson.antt =====
-- An instance of the interface to JSON values, over a small type of values.
use open_mind_ai.Base.{Bool, false, Option, none, some, List, [], ◌∷◌, refl, if◌then◌else◌}
use open_mind_ai.Base.Text.{Text, text, text_eq}
use open_mind_ai.Json.{Json}

mutual
  pub data Doc : Type 0 where
    null : Doc
    bool : Bool → Doc
    str : Text → Doc
    arr : Docs → Doc
    object : Fields → Doc

  pub data Docs : Type 0 where
    nil : Docs
    cons : Doc → Docs → Docs

  pub data Fields : Type 0 where
    end : Fields
    field : Text → Doc → Fields → Fields

abbrev pub lookup : Fields → Text → Doc
lookup end k = null
lookup (field j d fs) k = if text_eq j k then d else lookup fs k

abbrev pub index : Doc → Text → Doc
index (object fs) k = lookup fs k
index null k = null
index (bool b) k = null
index (str s) k = null
index (arr ds) k = null

abbrev pub as_str : Doc → Option Text
as_str (str s) = some s
as_str null = none
as_str (bool b) = none
as_str (arr ds) = none
as_str (object fs) = none

abbrev pub find_field : Fields → Text → Option Doc
find_field end k = none
find_field (field j d fs) k = if text_eq j k then some d else find_field fs k

abbrev pub get : Doc → Text → Option Doc
get (object fs) k = find_field fs k
get _ k = none

abbrev pub as_bool : Doc → Option Bool
as_bool (bool b) = some b
as_bool _ = none

abbrev pub to_list : Docs → List Doc
to_list nil = []
to_list (cons d ds) = d ∷ to_list ds

abbrev pub as_array : Doc → Option (List Doc)
as_array (arr ds) = some (to_list ds)
as_array null = none
as_array (bool b) = none
as_array (str s) = none
as_array (object fs) = none

abbrev pub eq_str : Doc → Text → Bool
eq_str (str s) t = text_eq s t
eq_str null t = false
eq_str (bool b) t = false
eq_str (arr ds) t = false
eq_str (object fs) t = false

abbrev pub message : Text → Text → Doc
message role content =
    object (field (text "role") (str role) (field (text "content") (str content) end))

abbrev pub docs : Json
docs = record {
  Value = Doc;
  index = index;
  get = get;
  as_str = as_str;
  as_bool = as_bool;
  as_array = as_array;
  eq_str = eq_str;
  message = message;
  content_of_message = λ role content. refl;
  role_of_message = λ role content t. refl;
}
