-- ===== src/Python.antt =====
-- What the scripts use of Python: exceptions, the values that `json.load` returns, and the built-in
-- conversions on them. Floating point numbers are a parameter: a type and the few operations that
-- the scripts apply to them, with what is documented of these as fields.
mod Results
pub use Results.*
use scheduler_simulator.Prelude.{
  ◌≡◌, refl, Bool, true, false, not, Option, none, some, List, [], ◌∷◌, String, Text, ℤ, pos, eq_ℤ,
  codes, text_eq, contains, show_ℤ, is_empty, if◌then◌else◌,
}
use package.text.Mathlib.Text.{◌==◌ as str_eq}

mutual
  pub data Value (F : Type 0) : Type 0 where
    null : Value F
    bool : Bool → Value F
    int : ℤ → Value F
    float : F → Value F
    text : Text → Value F
    list : Items F → Value F
    dict : Fields F → Value F

  pub data Items (F : Type 0) : Type 0 where
    nil : Items F
    cons : Value F → Items F → Items F

  pub data Fields (F : Type 0) : Type 0 where
    end : Fields F
    field : String → Value F → Fields F → Fields F

-- The floating point numbers, and how numbers are read from and printed as text.
pub record Runtime (F : Type 0) : Type 0 where
  -- int(x); an infinity or a NaN raises
  pub truncate : F → Result ℤ
  -- float(n); a number that is too large raises
  pub widen : ℤ → Result F
  -- not (x <= 0.0)
  pub positive : F → Bool
  -- x != 0.0
  pub nonzero : F → Bool
  -- 0.0
  pub float_zero : F
  -- x == y, and n == x for an integer n
  pub same_float : F → F → Bool
  pub same_mixed : ℤ → F → Bool
  -- int(s) and float(s) of a text
  pub int_of_text : Text → Result ℤ
  pub float_of_text : Text → Result F
  -- str(v) of what is no text, boolean, integer or None
  pub show_value : Value F → Text
  pub float_zero-not_positive : positive float_zero ≡ false

abbrev pub is_prefix : Text → Text → Bool
is_prefix [] t = true
is_prefix (a ∷ s) [] = false
is_prefix (a ∷ s) (b ∷ t) = if text_eq (a ∷ []) (b ∷ []) then is_prefix s t else false

abbrev pub is_infix : Text → Text → Bool
is_infix s [] = is_empty s
is_infix s (b ∷ t) = if is_prefix s (b ∷ t) then true else is_infix s t

module _ {F : Type 0} where
  abbrev pub find_field : String → Fields F → Option (Value F)
  find_field k end = none
  find_field k (field j v fs) = if str_eq j k then some v else find_field k fs

  -- v.get(k)
  unfoldable pub get : String → Value F → Result (Option (Value F))
  get k (dict fs) = ok (find_field k fs)
  get k _ = err attribute_error

  -- v.get(k, d)
  unfoldable pub get_or : String → Value F → Value F → Result (Value F)
  get_or k (dict fs) d = ok (default_to (find_field k fs) d)
  get_or k _ d = err attribute_error

  -- v[k]
  unfoldable pub index : String → Value F → Result (Value F)
  index k (dict fs) = require key_error (find_field k fs)
  index k _ = err type_error

  abbrev pub is_text : String → Value F → Bool
  is_text s (text t) = text_eq t (codes s)
  is_text s _ = false

  abbrev pub any_item : (Value F → Bool) → Items F → Bool
  any_item p nil = false
  any_item p (cons v vs) = if p v then true else any_item p vs

  -- k in v
  unfoldable pub has_key : String → Value F → Result Bool
  has_key k (dict fs) = ok (is_some (find_field k fs))
  has_key k (list vs) = ok (any_item (is_text k) vs)
  has_key k (text t) = ok (is_infix (codes k) t)
  has_key k _ = err type_error

  abbrev pub is_list : Value F → Bool
  is_list (list vs) = true
  is_list _ = false

  abbrev pub is_hashable : Value F → Bool
  is_hashable (list vs) = false
  is_hashable (dict fs) = false
  is_hashable _ = true

  -- v in {…}, for a set of texts
  unfoldable pub member_of : List Text → Value F → Result Bool
  member_of ts (text t) = ok (contains ts t)
  member_of ts (list vs) = err type_error
  member_of ts (dict fs) = err type_error
  member_of ts _ = ok false

  abbrev pub to_list : Items F → List (Value F)
  to_list nil = []
  to_list (cons v vs) = v ∷ to_list vs

  abbrev pub field_names : Fields F → List (Value F)
  field_names end = []
  field_names (field k v fs) = text (codes k) ∷ field_names fs

  abbrev pub characters : Text → List (Value F)
  characters [] = []
  characters (c ∷ s) = text (c ∷ []) ∷ characters s

  -- for x in v
  unfoldable pub iterate : Value F → Result (List (Value F))
  iterate (list vs) = ok (to_list vs)
  iterate (dict fs) = ok (field_names fs)
  iterate (text t) = ok (characters t)
  iterate _ = err type_error

  module _ (R : Runtime F) where
    open R use {
      truncate, widen, nonzero, same_float, same_mixed, int_of_text, float_of_text, show_value,
    }

    -- str(v)
    unfoldable pub to_text : Value F → Text
    to_text null = codes "None"
    to_text (bool true) = codes "True"
    to_text (bool false) = codes "False"
    to_text (int n) = show_ℤ n
    to_text (text t) = t
    to_text v = show_value v

    abbrev pub int_of_bool : Bool → ℤ
    int_of_bool true = pos 1
    int_of_bool false = pos 0

    -- int(v)
    unfoldable pub to_int : Value F → Result ℤ
    to_int (bool b) = ok (int_of_bool b)
    to_int (int n) = ok n
    to_int (float x) = truncate x
    to_int (text t) = int_of_text t
    to_int _ = err type_error

    -- float(v)
    unfoldable pub to_float : Value F → Result F
    to_float (bool b) = widen (int_of_bool b)
    to_float (int n) = widen n
    to_float (float x) = ok x
    to_float (text t) = float_of_text t
    to_float _ = err type_error

    -- bool(v)
    unfoldable pub truthy : Value F → Bool
    truthy null = false
    truthy (bool b) = b
    truthy (int n) = not (eq_ℤ n (pos 0))
    truthy (float x) = nonzero x
    truthy (text t) = not (is_empty t)
    truthy (list nil) = false
    truthy (list (cons v vs)) = true
    truthy (dict end) = false
    truthy (dict (field k v fs)) = true

    -- a == b, for hashable values
    unfoldable pub same_value : Value F → Value F → Bool
    same_value null null = true
    same_value (text s) (text t) = text_eq s t
    same_value (bool a) (bool b) = eq_ℤ (int_of_bool a) (int_of_bool b)
    same_value (bool a) (int n) = eq_ℤ (int_of_bool a) n
    same_value (bool a) (float x) = same_mixed (int_of_bool a) x
    same_value (int n) (bool b) = eq_ℤ n (int_of_bool b)
    same_value (int m) (int n) = eq_ℤ m n
    same_value (int n) (float x) = same_mixed n x
    same_value (float x) (bool b) = same_mixed (int_of_bool b) x
    same_value (float x) (int n) = same_mixed n x
    same_value (float x) (float y) = same_float x y
    same_value _ _ = false
