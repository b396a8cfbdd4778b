-- ===== src/Graphql.antt =====
-- The GraphQL schema, src/schema.ts: its object, input and enum types, and when an object that a
-- resolver returns has what its type promises. Each field is resolved by the property of its name.
pub mod Inputs
pub mod Outputs
pub mod Answers
use transaction_service.Shared.{
  ℕ, String, ℤ, Option, none, some, List, [], ◌∷◌, Bool, true, false, not, ◌&&◌, ◌||◌, ◌==◌,
  is_some, if◌then◌else◌,
}

pub data Kind : Type 0 where
  identifier string float int boolean date_time : Kind
  choice : List String → Kind
  -- An object of the type, and a list of such.
  object objects : String → Kind

-- A field, an argument or a field of an input: `non_null` is the mark `!`.
pub record Field : Type 0 where
  pub name : String
  pub kind : Kind
  pub non_null : Bool

abbrev pub required : String → Kind → Field
required name kind = record { name = name; kind = kind; non_null = true }

abbrev pub nullable : String → Kind → Field
nullable name kind = record { name = name; kind = kind; non_null = false }

-- A query or a mutation.
pub record Endpoint : Type 0 where
  pub arguments : List Field
  pub result : Field

-- A property of an object as the code returns it; `none` is an undefined or a null one.
pub data Value : Type 0 where
  text : Option String → Value
  number : Option ℤ → Value
  quotient : ℤ × ℕ → Value
  whole : ℕ → Value
  date : Option ℕ → Value
  list_of : String → Value

abbrev pub Object : Type 0
Object = List (String × Value)

abbrev pub property : String → Object → Option Value
property n [] = none
property n ((m, v) ∷ o) = if n == m then some v else property n o

abbrev pub among : String → List String → Bool
among s [] = false
among s (t ∷ ts) = if s == t then true else among s ts

abbrev pub is_choice : List String → Option String → Bool
is_choice vs none = true
is_choice vs (some s) = among s vs

abbrev pub is_given : Value → Bool
is_given (text o) = is_some o
is_given (number o) = is_some o
is_given (date o) = is_some o
is_given _ = true

abbrev pub fits : Kind → Value → Bool
fits identifier (text _) = true
fits string (text _) = true
fits float (number _) = true
fits float (quotient _) = true
fits int (whole _) = true
fits date_time (date _) = true
fits (choice vs) (text o) = is_choice vs o
fits (objects t) (list_of u) = t == u
fits _ _ = false

abbrev pub accepts : Field → Option Value → Bool
accepts f none = not f.non_null
accepts f (some v) = fits f.kind v && (not f.non_null || is_given v)

-- The fields of a type that an object does not have as the type promises.
abbrev pub refused_fields : List Field → Object → List String
refused_fields [] o = []
refused_fields (f ∷ fs) o =
    if accepts f (property f.name o) then refused_fields fs o else f.name ∷ refused_fields fs o
