-- ===== src/Transaction/Validation.antt =====
-- The validators of src/transaction/dto/create-transfer.dto.ts and of
-- src/transaction/dto/history.query.ts.
use transaction_service.Shared.{
  ℕ, String, ℤ, pos, ltb_ℤ, leb_ℤ, Option, none, some, Bool, true, false, ◌&&◌, ◌==◌, leb, or_else,
  List, [], ◌∷◌, if◌then◌else◌,
}

-- `length_of` is how class-validator counts the characters of a text.
pub record CreateTransfer : Type 0 where
  pub from_account : Option String
  pub to_account : Option String
  pub amount : Option ℤ
  pub currency : Option String
  pub description : Option String
  pub reference_no : Option String

-- `@IsString() @MinLength(5)`
abbrev has_length : (String → ℕ) → Option String → Bool
has_length length_of none = false
has_length length_of (some s) = leb 5 (length_of s)

-- `@IsNumber() @IsPositive()`
abbrev is_positive : Option ℤ → Bool
is_positive none = false
is_positive (some k) = ltb_ℤ (pos 0) k

abbrev given : Option String → Bool
given none = false
given (some s) = true

-- The optional fields are texts by their type.
unfoldable pub is_valid_transfer : (String → ℕ) → CreateTransfer → Bool
is_valid_transfer length_of d =
    has_length length_of d.from_account
    && has_length length_of d.to_account
    && is_positive d.amount
    && given d.currency

-- A query as it comes, its numbers whole: a field that is absent takes its default.
pub record HistoryQuery : Type 0 where
  pub limit : Option ℤ
  pub offset : Option ℤ
  pub status : Option String
  pub type : Option String
  pub start_date : Option String
  pub end_date : Option String

abbrev pub query_limit : HistoryQuery → ℤ
query_limit q = or_else q.limit (pos 50)

abbrev pub query_offset : HistoryQuery → ℤ
query_offset q = or_else q.offset (pos 0)

-- `@IsEnum(…)` with the enum's values, and `@IsDateString()`, which is a parameter.
abbrev is_among : List String → Option String → Bool
is_among vs none = true
is_among [] (some s) = false
is_among (v ∷ vs) (some s) = if v == s then true else is_among vs (some s)

abbrev is_date : (String → Bool) → Option String → Bool
is_date date_string none = true
is_date date_string (some s) = date_string s

abbrev statuses : List String
statuses = "PENDING" ∷ "SUCCESS" ∷ "FAILED" ∷ "REVERSED" ∷ "PROCESSING" ∷ []

abbrev types : List String
types = "TRANSFER" ∷ "BILL_PAYMENT" ∷ "DEPOSIT" ∷ "WITHDRAWAL" ∷ "REFUND" ∷ []

unfoldable pub is_valid_query : (String → Bool) → HistoryQuery → Bool
is_valid_query date_string q =
    leb_ℤ (pos 1) (query_limit q)
    && leb_ℤ (query_limit q) (pos 100)
    && leb_ℤ (pos 0) (query_offset q)
    && is_among statuses q.status
    && is_among types q.type
    && is_date date_string q.start_date
    && is_date date_string q.end_date
