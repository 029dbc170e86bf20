-- ===== src/Json.antt =====
-- JSON values, as `json.loads` returns them and as the code builds them: dicts with text keys, lists,
-- texts, numbers, truth values and `None`. `F` is the type of the numbers.
use gis_vector_map_changes.Prelude.{
  String, List, [], ◌∷◌, Bool, Option, none, some, Result, ok, err, key_error, type_error, traverse,
  ◌>>=◌, ◌==◌, if◌then◌else◌, ◌≡◌, refl, ap,
}

mutual
  pub data Json (F : Type 0) : Type 0 where
    null : Json F
    bool : Bool → Json F
    num : F → Json F
    str : String → Json F
    arr : Items F → Json F
    obj : Fields F → Json F

  pub data Items (F : Type 0) : Type 0 where
    nil : Items F
    cons : Json F → Items F → Items F

  pub data Fields (F : Type 0) : Type 0 where
    end : Fields F
    field : String → Json F → Fields F → Fields F

module _ {F : Type 0} where
  -- `d.get(k)`, where `none` means that the key is missing
  unfoldable pub find : String → Fields F → Option (Json F)
  find k end = none
  find k (field j v d) = if k == j then some v else find k d

  -- `j[k]`
  unfoldable pub index : Json F → String → Result (Json F)
  unfolding find
  index (obj d) k = elim (find k d) [ none ↦ err (key_error k) | some v ↦ ok v ]
  index j k = err (type_error "not a dict")

  -- `j.get(k)`
  unfoldable pub get : Json F → String → Result (Option (Json F))
  unfolding find
  get (obj d) k = ok (find k d)
  get j k = err (type_error "not a dict")

  -- `j.get(k, default)`
  unfoldable pub get_or : Json F → String → Json F → Result (Json F)
  unfolding find
  get_or (obj d) k default = elim (find k d) [ none ↦ ok default | some v ↦ ok v ]
  get_or j k default = err (type_error "not a dict")

  -- A value that the code annotates as `str`.
  unfoldable pub as_str : Json F → Result String
  as_str (str s) = ok s
  as_str j = err (type_error "not a text")

  -- A value that the code annotates as `bool`.
  unfoldable pub as_bool : Json F → Result Bool
  as_bool (bool b) = ok b
  as_bool j = err (type_error "not a truth value")

  -- `j.get(k)` of a value that the code annotates as `str | None`
  unfoldable pub as_optional_str : Option (Json F) → Result (Option String)
  as_optional_str none = ok none
  as_optional_str (some null) = ok none
  as_optional_str (some (str s)) = ok (some s)
  as_optional_str (some j) = err (type_error "not a text")

  unfoldable pub items : Items F → List (Json F)
  items nil = []
  items (cons j js) = j ∷ items js

  -- the values that a `for` over `j` meets, where `j` is annotated as a list
  unfoldable pub as_list : Json F → Result (List (Json F))
  unfolding items
  as_list (arr js) = ok (items js)
  as_list j = err (type_error "not a list")

  -- a list of values
  unfoldable pub arr_of : List (Json F) → Items F
  arr_of [] = nil
  arr_of (j ∷ js) = cons j (arr_of js)

  -- a dict display
  unfoldable pub obj_of : List (String × Json F) → Fields F
  obj_of [] = end
  obj_of ((k, v) ∷ d) = field k v (obj_of d)

  -- `text or None`
  unfoldable pub optional_str : Option String → Json F
  optional_str none = null
  optional_str (some s) = str s

  pub items-arr_of : (js : List (Json F)) → items (arr_of js) ≡ js
  unfolding items arr_of
  items-arr_of [] = refl
  items-arr_of (j ∷ js) = ap (λ r. j ∷ r) (items-arr_of js)

  -- `j.get(k)` of a number or `None`
  unfoldable pub as_optional_num : Option (Json F) → Result (Option F)
  as_optional_num none = ok none
  as_optional_num (some null) = ok none
  as_optional_num (some (num f)) = ok (some f)
  as_optional_num (some j) = err (type_error "not a number")

  -- a list of texts
  unfoldable pub as_strs : Json F → Result (List String)
  unfolding as_list as_str
  as_strs j = do js ← as_list j; traverse as_str js
