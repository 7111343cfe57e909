-- ===== src/Service/Depth.antt =====
-- host/service/src/service.rs: `validate_schema` ends: its recursion goes no deeper than the value.
use scufris.Base.{
  ℕ, zero, suc, ◌<◌, String, Option, none, some, List, [], ◌∷◌, All, ◌≡◌, refl, ap, arith,
}
use scufris.Base.Result.{ok, ◌>>◌}
use scufris.Service.Schema.{
  View, null, boolean, number, string, array, object, Tree, Outcome, first_error, find_member,
  if_some, as_object, get_in, and_then, check_members, check_object, check_children,
  validate_schema,
}

first_error-same :
    {A : Type 0} (f g : A → Outcome) (xs : List A)
    → All (λ x. f x ≡ g x) xs
    → first_error f xs ≡ first_error g xs
unfolding first_error
first_error-same f g [] h = refl
first_error-same f g (x ∷ xs) (e, h) = rw (e, first_error-same f g xs h) refl

module _ {Value : Type 0} (nesting : Value → ℕ) where
  -- What is in a value is less deep than the value.
  abbrev pub IsDeeper : ℕ → View Value → Type 0
  IsDeeper depth null = Unit
  IsDeeper depth (boolean b) = Unit
  IsDeeper depth (number b) = Unit
  IsDeeper depth (string s) = Unit
  IsDeeper depth (array values) = All (λ child. nesting child < depth) values
  IsDeeper depth (object members) = All (λ member. nesting member.1 < depth) members

module _ {Value : Type 0} (tree : Tree Value) (f g : Value → Value → Outcome) where
  abbrev Agrees : Value → Type 0
  Agrees v = (schema : Value) → f v schema ≡ g v schema

  if_some-same : (v : Value) (o : Option Value) → Agrees v → if_some (f v) o ≡ if_some (g v) o
  if_some-same v none h = refl
  if_some-same v (some schema) h = h schema

  check_members-same :
      (properties members : List (String × Value))
      → All (λ member. Agrees member.1) members
      → check_members tree f properties members ≡ check_members tree g properties members
  unfolding check_members
  check_members-same properties [] h = refl
  check_members-same properties ((name, child) ∷ rest) (e, h) =
      rw (if_some-same child (find_member name properties) e, check_members-same properties rest h)
        refl

  abbrev AllAgree : View Value → Type 0
  AllAgree null = Unit
  AllAgree (boolean b) = Unit
  AllAgree (number b) = Unit
  AllAgree (string s) = Unit
  AllAgree (array values) = All Agrees values
  AllAgree (object members) = All (λ member. Agrees member.1) members

  object-same :
      (schema : View Value) (members : List (String × Value)) (o : Option (List (String × Value)))
      → All (λ member. Agrees member.1) members
      → if_some (check_object tree f schema members) o
        ≡ if_some (check_object tree g schema members) o
  unfolding check_object
  object-same schema members none h = refl
  object-same schema members (some properties) h = rw (check_members-same properties members h) refl

  All-at :
      (items : Value) (values : List Value)
      → All Agrees values
      → All (λ child. f child items ≡ g child items) values
  All-at items [] h = tt
  All-at items (v ∷ vs) (e, h) = (e items, All-at items vs h)

  array-same :
      (values : List Value) (o : Option Value)
      → All Agrees values
      → if_some (λ items. first_error (λ child. f child items) values) o
        ≡ if_some (λ items. first_error (λ child. g child items) values) o
  array-same values none h = refl
  array-same values (some items) h = first_error-same _ _ values (All-at items values h)

  check_children-same :
      (v schema : View Value)
      → AllAgree v
      → check_children tree f v schema ≡ check_children tree g v schema
  unfolding check_children
  check_children-same null schema h = refl
  check_children-same (boolean b) schema h = refl
  check_children-same (number b) schema h = refl
  check_children-same (string s) schema h = refl
  check_children-same (array values) schema h = array-same values (get_in "items" schema) h
  check_children-same (object members) schema h =
      ap (λ r. r >> ok tt)
        (object-same schema members (and_then tree as_object (get_in "properties" schema)) h)

module _ {Value : Type 0} (tree : Tree Value) (nesting : Value → ℕ)
    (deeper : (v : Value) → IsDeeper nesting (nesting v) (tree.view v)) where
  below-All :
      {A : Type 0} (P : A → Type 0) (depth : A → ℕ) (n : ℕ) (xs : List A)
      → ((x : A) → depth x < n → P x)
      → All (λ x. depth x < n) xs
      → All P xs
  below-All P depth n [] k h = tt
  below-All P depth n (x ∷ xs) k (b, h) = (k x b, below-All P depth n xs k h)

  AllAgree-below :
      (f g : Value → Value → Outcome) (n : ℕ) (v : View Value)
      → ((x : Value) → nesting x < n → (schema : Value) → f x schema ≡ g x schema)
      → IsDeeper nesting n v
      → AllAgree tree f g v
  AllAgree-below f g n null k d = tt
  AllAgree-below f g n (boolean b) k d = tt
  AllAgree-below f g n (number b) k d = tt
  AllAgree-below f g n (string s) k d = tt
  AllAgree-below f g n (array values) k d = below-All _ nesting n values k d
  AllAgree-below f g n (object members) k d =
      below-All _ (λ member. nesting member.1) n members (λ m b. k m.1 b) d

  -- Where what is in a value is less deep than the value, any two amounts of fuel above the depth of
  -- a value give the same verdict on it: the recursion has come to its end with either.
  pub validate_schema-ends :
      (fuel more : ℕ) (value schema : Value)
      → nesting value < fuel
      → nesting value < more
      → validate_schema tree fuel value schema ≡ validate_schema tree more value schema
  unfolding validate_schema
  validate_schema-ends zero more value schema h k = absurd (ground arith)
  validate_schema-ends (suc fuel) zero value schema h k = absurd (ground arith)
  validate_schema-ends (suc fuel) (suc more) value schema h k =
      rw
        (check_children-same tree (validate_schema tree fuel) (validate_schema tree more)
          (tree.view value) (tree.view schema)
          (AllAgree-below (validate_schema tree fuel) (validate_schema tree more) (nesting value)
            (tree.view value)
            (λ x b s. validate_schema-ends fuel more x s (omega arith) (omega arith))
            (deeper value)))
        refl
