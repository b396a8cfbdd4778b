-- ===== src/Transaction/Service/Requests.antt =====
-- How src/transaction/service/transaction.service.ts reads the optional fields of a request.
use transaction_service.Shared.{
  String, zero, ℤ, pos, ltb_ℤ, Option, none, some, ◌==◌, if◌then◌else◌,
}

-- `a || b` on whole numbers: absent and zero are falsy.
abbrev pub int_or : Option ℤ → ℤ → ℤ
int_or none d = d
int_or (some (pos zero)) d = d
int_or (some a) d = a

-- `Math.min(a, b)`
abbrev pub min_ℤ : ℤ → ℤ → ℤ
min_ℤ a b = if ltb_ℤ b a then b else a

-- A text under `if`: absent and empty are falsy.
abbrev pub truthy_text : Option String → Option String
truthy_text none = none
truthy_text (some s) = if s == "" then none else some s
