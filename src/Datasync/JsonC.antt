-- ===== src/Datasync/JsonC.antt =====
-- What lib/datasync/message.c, lib/datasync/parser.c and lib/auth/auth.c use of json-c, which is not in the repository: the
-- values and their functions are a parameter, and what the code relies on is `IsLawful`.
use webcom_sdk_c.Path.{str_eq}
use webcom_sdk_c.Prelude.{ℕ, ◌≡◌, Bool, true, Option, none, some, List, if◌then◌else◌}

-- The functions are called as those of json-c without `json_`. An `int64_t` is the number that its bits
-- write, and a C string the list of its bytes.
pub record JsonC : Type 1 where
  pub Value : Type 0
  pub null_value : Value
  pub new_object : Value
  pub object_add : Value → List ℕ → Value → Value
  pub object_get_ex : Value → List ℕ → Option Value
  pub entries : Value → List (List ℕ × Value)
  pub is_object : Value → Bool
  pub is_string : Value → Bool
  pub is_int : Value → Bool
  pub is_boolean : Value → Bool
  pub new_string : List ℕ → Value
  pub get_string : Value → List ℕ
  pub new_int64 : ℕ → Value
  pub get_int64 : Value → ℕ
  pub get_boolean : Value → Bool
  pub tokener_parse : List ℕ → Value
  pub to_json_string : Value → List ℕ

-- An object gives the last value that was added under a key; strings and integers are read as they were
-- made.
pub record IsLawful (j : JsonC) : Type 0 where
  pub get-new : (q : List ℕ) → j.object_get_ex j.new_object q ≡ none
  pub get-add :
      (v x : j.Value) (k q : List ℕ)
      → j.is_object v ≡ true
      → j.object_get_ex (j.object_add v k x) q
        ≡ (if str_eq q k then some x else j.object_get_ex v q)
  pub is_object-new : j.is_object j.new_object ≡ true
  pub is_object-add :
      (v x : j.Value) (k : List ℕ) → j.is_object v ≡ true → j.is_object (j.object_add v k x) ≡ true
  pub is_string-new : (s : List ℕ) → j.is_string (j.new_string s) ≡ true
  pub get_string-new : (s : List ℕ) → j.get_string (j.new_string s) ≡ s
  pub is_int-new : (r : ℕ) → j.is_int (j.new_int64 r) ≡ true
  pub get_int64-new : (r : ℕ) → j.get_int64 (j.new_int64 r) ≡ r
