-- ===== src/Service/Schema.antt =====
-- host/service/src/service.rs: `validate_calls` and `validate_schema`. The JSON library is outside:
-- a value shows what it is made of by `view`. The recursion is on fuel.
use text.Mathlib.Text.{◌==◌ as ◌=ˢ◌}
use scufris.Base.{
  ℕ, zero, suc, String, Bool, true, false, not, ◌&&◌, ◌||◌, Option, none, some, List, [], ◌∷◌,
  if◌then◌else◌,
}
use scufris.Base.Text.{◌⋅◌}
use scufris.Base.Result.{Result, ok, err, ◌>>◌}
use scufris.Control.Message.{WidgetCall}
use scufris.Control.Surface.{WidgetDefinition}

-- `number true` is a number that is an `i64` or a `u64`.
pub data View (Value : Type 0) : Type 0 where
  null : View Value
  boolean number : Bool → View Value
  string : String → View Value
  array : List Value → View Value
  object : List (String × Value) → View Value

pub record Tree (Value : Type 0) : Type 0 where
  pub view : Value → View Value
  pub same : Value → Value → Bool

abbrev pub Outcome : Type 0
Outcome = Result String (Unit {0})

unfoldable pub find_member {ℓ} : {A : Type ℓ} → String → List (String × A) → Option A
find_member name [] = none
find_member name ((key, value) ∷ rest) = if key =ˢ name then some value else find_member name rest

abbrev pub is_found {ℓ} : {A : Type ℓ} → Option A → Bool
is_found none = false
is_found (some a) = true

unfoldable pub first_error {ℓ} : {A : Type ℓ} → (A → Outcome) → List A → Outcome
first_error check [] = ok tt
first_error check (x ∷ xs) = check x >> first_error check xs

abbrev pub if_some {ℓ} : {A : Type ℓ} → (A → Outcome) → Option A → Outcome
if_some check none = ok tt
if_some check (some a) = check a

module _ {Value : Type 0} where
  abbrev pub as_str : View Value → Option String
  as_str (string s) = some s
  as_str _ = none

  abbrev pub as_array : View Value → Option (List Value)
  as_array (array values) = some values
  as_array _ = none

  abbrev pub as_object : View Value → Option (List (String × Value))
  as_object (object members) = some members
  as_object _ = none

  abbrev pub get_in : String → View Value → Option Value
  get_in key (object members) = find_member key members
  get_in key _ = none

  abbrev is_null : View Value → Bool
  is_null null = true
  is_null _ = false

  abbrev is_boolean : View Value → Bool
  is_boolean (boolean b) = true
  is_boolean _ = false

  abbrev is_number : View Value → Bool
  is_number (number integral) = true
  is_number _ = false

  abbrev is_integer : View Value → Bool
  is_integer (number integral) = integral
  is_integer _ = false

  has_type : String → View Value → Bool
  has_type expected v =
      if expected =ˢ "object"
      then is_found (as_object v)
      else if expected =ˢ "array"
      then is_found (as_array v)
      else if expected =ˢ "string"
      then is_found (as_str v)
      else if expected =ˢ "integer"
      then is_integer v
      else if expected =ˢ "number"
      then is_number v
      else if expected =ˢ "boolean"
      then is_boolean v
      else expected =ˢ "null" && is_null v

  unfoldable pub check_type : View Value → String → Outcome
  unfolding has_type
  check_type v expected = if has_type expected v then ok tt else err ("expected " ⋅ expected)

module _ {Value : Type 0} (tree : Tree Value) where
  unfoldable pub and_then {ℓ} : {A : Type ℓ} → (View Value → Option A) → Option Value → Option A
  and_then view_as none = none
  and_then view_as (some value) = view_as (tree.view value)

  unfoldable pub holds_value : Value → List Value → Bool
  holds_value value [] = false
  holds_value value (other ∷ rest) = tree.same other value || holds_value value rest

  unfoldable pub check_enum : Value → List Value → Outcome
  unfolding holds_value
  check_enum value allowed = if holds_value value allowed then ok tt else err "value is not in enum"

  -- The names among the values that are strings, each of which must be a member.
  unfoldable pub check_required : List (String × Value) → List Value → Outcome
  unfolding find_member
  check_required members [] = ok tt
  check_required members (value ∷ rest) = elim (as_str (tree.view value)) [
    | none ↦ check_required members rest
    | some name ↦
        if is_found (find_member name members)
        then check_required members rest
        else err ("missing required property " ⋅ name)
  ]

  abbrev pub is_false : Option (View Value) → Bool
  is_false (some (boolean b)) = not b
  is_false _ = false

  abbrev pub view_some : Option Value → Option (View Value)
  view_some none = none
  view_some (some value) = some (tree.view value)

  unfoldable pub check_known : List (String × Value) → List (String × Value) → Outcome
  unfolding find_member first_error
  check_known properties members =
      first_error
        (λ member.
          if is_found (find_member member.0 properties)
          then ok tt
          else err ("unknown property " ⋅ member.0))
        members

  unfoldable pub check_closed : List (String × Value) → List (String × Value) → Bool → Outcome
  unfolding check_known
  check_closed properties members closed = if closed then check_known properties members else ok tt

  unfoldable pub check_members :
      (Value → Value → Outcome) → List (String × Value) → List (String × Value) → Outcome
  unfolding find_member
  check_members check properties [] = ok tt
  check_members check properties ((name, child) ∷ rest) =
      if_some (check child) (find_member name properties) >> check_members check properties rest

  unfoldable pub check_object :
      (Value → Value → Outcome)
      → View Value
      → List (String × Value)
      → List (String × Value)
      → Outcome
  unfolding and_then check_required check_closed check_members
  check_object check schema members properties = do
    if_some (check_required members) (and_then as_array (get_in "required" schema))
    check_closed properties members (is_false (view_some (get_in "additionalProperties" schema)))
    check_members check properties members

  unfoldable pub check_children : (Value → Value → Outcome) → View Value → View Value → Outcome
  unfolding and_then check_object first_error
  check_children check v schema = do
    if_some
        (λ members.
          if_some (check_object check schema members)
            (and_then as_object (get_in "properties" schema)))
        (as_object v)
    if_some
        (λ values.
          if_some (λ items. first_error (λ child. check child items) values)
            (get_in "items" schema))
        (as_array v)

  unfoldable pub validate_schema : ℕ → Value → Value → Outcome
  unfolding check_type check_enum check_children and_then
  validate_schema zero value schema = err "out of fuel"
  validate_schema (suc fuel) value schema = do
    if_some (check_type (tree.view value)) (and_then as_str (get_in "type" (tree.view schema)))
    if_some (check_enum value) (and_then as_array (get_in "enum" (tree.view schema)))
    check_children (validate_schema fuel) (tree.view value) (tree.view schema)

  unfoldable pub find_definition :
      String → List (WidgetDefinition Value) → Option (WidgetDefinition Value)
  find_definition name [] = none
  find_definition name (definition ∷ rest) =
      if definition.name =ˢ name then some definition else find_definition name rest

  abbrev named_error : String → Outcome → Outcome
  named_error name (ok _) = ok tt
  named_error name (err detail) = err (name ⋅ (": " ⋅ detail))

  abbrev check_call : (Value → ℕ) → WidgetCall Value → Option (WidgetDefinition Value) → Outcome
  unfolding validate_schema
  check_call depth call none = err ("No registered widget is named " ⋅ (call.name ⋅ "."))
  check_call depth call (some definition) =
      named_error call.name
        (validate_schema (suc (depth call.arguments)) call.arguments definition.input_schema)

  -- `depth` is how deep the arguments of a call are nested, and one more is the fuel.
  unfoldable pub validate_calls :
      (Value → ℕ) → List (WidgetCall Value) → List (WidgetDefinition Value) → Outcome
  unfolding find_definition check_call first_error
  validate_calls depth calls definitions =
      first_error (λ call. check_call depth call (find_definition call.name definitions)) calls
