-- ===== src/Middleware/Auth/Words.antt =====
-- The words of a header of two words: src/utils/middleware/auth.ts.
use Prim.Native.Char.{code}
use Prim.Native.String.{◌++◌ as ◌<>◌}
use text.Mathlib.TextLemmas.{nil-append, cons-append}
use transaction_service.Shared.{
  String, [], ◌∷◌, Bool, true, false, ◌||◌, ◌≡◌, refl, ◌∙◌, ap, nat_eq,
}
use transaction_service.Middleware.Auth.{split_space}

abbrev pub has_space : String → Bool
has_space String.[] = false
has_space (String.◌∷◌ c s) = nat_eq (code c) b' ' || has_space s

neither : (x y : Bool) → (x || y) ≡ false → (x ≡ false) × (y ≡ false)
neither true y h = cc
neither false y h = (refl, h)

split_whole : (s : String) → has_space s ≡ false → split_space s ≡ s ∷ []
unfolding split_space
split_whole String.[] h = refl
split_whole (String.◌∷◌ c s) h =
    let (other, rest) = neither (nat_eq (code c) b' ') (has_space s) h in
    rw (other, split_whole s rest) refl

split_first :
    (p t : String) → has_space p ≡ false → split_space (p <> (" " <> t)) ≡ p ∷ split_space t
unfolding split_space
split_first String.[] t h =
    ap split_space (nil-append (" " <> t) ∙ cons-append " " "" t)
    ∙ ap (λ x. "" ∷ split_space x) (nil-append t)
split_first (String.◌∷◌ c p) t h =
    let (other, rest) = neither (nat_eq (code c) b' ') (has_space p) h in
    ap split_space (cons-append c p (" " <> t)) ∙ rw (other, split_first p t rest) refl

-- Two words without spaces, with a space between them.
pub split_two :
    (p t : String)
    → has_space p ≡ false
    → has_space t ≡ false
    → split_space (p <> (" " <> t)) ≡ p ∷ t ∷ []
split_two p t h k = split_first p t h ∙ ap (λ ts. p ∷ ts) (split_whole t k)
