-- ===== src/Transaction/Resolver/DateTime.antt =====
-- The scalar `DateTime` of src/transaction/resolver/transaction.resolver.ts. JavaScript's `Date` is
-- a time in milliseconds, or invalid; how a text is read as one and written from one are
-- parameters.
use transaction_service.Shared.{ℕ, String, Option, none, some}
use transaction_service.Driver.Errors.{Result, ok, err, exception, plain_error}

-- `none` is an invalid date.
abbrev pub Date : Type 0
Date = Option ℕ

pub data DateValue : Type 0 where
  date : Date → DateValue
  text : String → DateValue
  number : ℕ → DateValue

-- The kinds of literal that the scalar tells apart.
pub data Literal : Type 0 where
  string_literal : String → Literal
  other_literal : Literal

-- `toISOString` throws for an invalid date.
abbrev pub iso_string : (ℕ → String) → Date → Result String
iso_string iso none = err (exception plain_error "Invalid time value")
iso_string iso (some t) = ok (iso t)

unfoldable pub parse_value : (String → Date) → DateValue → Date
parse_value read (date d) = d
parse_value read (text s) = read s
parse_value read (number n) = some n

unfoldable pub serialize : (String → Date) → (ℕ → String) → DateValue → Result String
unfolding parse_value
serialize read iso (date d) = iso_string iso d
serialize read iso value = iso_string iso (parse_value read value)

-- A literal that is no string is null.
unfoldable pub parse_literal : (String → Date) → Literal → Option Date
parse_literal read (string_literal s) = some (read s)
parse_literal read other_literal = none
