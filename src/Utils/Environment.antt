-- ===== src/Utils/Environment.antt =====
-- What src/utils reads of `process.env`: texts that may be missing, and numbers by `Number(…)`,
-- whose answer is a parameter of the definitions that use it.
use Prim.Native.String.{◌++◌}
use transaction_service.Shared.{String, Option, none, some, Bool, false, not, ◌==◌, if◌then◌else◌}

-- `process.env.X || fallback`
abbrev pub env_or : Option String → String → String
env_or none fallback = fallback
env_or (some s) fallback = if s == "" then fallback else s

-- `process.env.X || undefined`
abbrev pub env_or_none : Option String → Option String
env_or_none none = none
env_or_none (some s) = if s == "" then none else some s

-- `if (process.env.X)`
abbrev pub is_set : Option String → Bool
is_set none = false
is_set (some s) = not (s == "")

-- A template of two texts
abbrev pub followed : String → String → String
followed a b = a ++ b
