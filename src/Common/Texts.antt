-- ===== src/Common/Texts.antt =====
-- Go's `==` on strings, and concatenation.
use Prim.Native.String
use Prim.Native.String.{String}
use mathlib.Core.Path.{◌≡◌}
use mathlib.Core.Logic.{◌≢◌}
use mathlib.Core.Bool.{Bool, true, false}
use native.Mathlib.Omega.{arith}
use text.Mathlib.Text.{◌==◌}
use text.Mathlib.TextEquality.{eq_iff}
use text.Mathlib.TextLemmas.{append_cancel_left}
use text.Mathlib.TextPositions.{eq_refl}

unfoldable pub same : String → String → Bool
same a b = a == b

infixr 65 ◌<>◌
unfoldable pub ◌<>◌ : String → String → String
a <> b = String.◌++◌ a b

pub same_iff : (a b : String) → ((same a b ≡ true) → a ≡ b) × (a ≡ b → same a b ≡ true)
unfolding same
same_iff a b = eq_iff a b

pub same_self : (a : String) → same a a ≡ true
unfolding same
same_self a = eq_refl a

pub same→eq : (a b : String) → same a b ≡ true → a ≡ b
same→eq a b h = (same_iff a b).0 h

pub same-false : (a b : String) → same a b ≡ false → a ≢ b
same-false a b h e = ground (arith, same_iff a b)

pub ne→same : (a b : String) → a ≢ b → same a b ≡ false
ne→same a b h = ground (arith, same_iff a b)

pub <>_cancel : (a b c : String) → a <> b ≡ a <> c → b ≡ c
unfolding ◌<>◌
<>_cancel a b c h = append_cancel_left a b c h
