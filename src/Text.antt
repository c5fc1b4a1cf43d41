-- ===== src/Text.antt =====
-- What the program uses of Go's `strings`, `strconv` and `net`: a string is its list of bytes
-- (a list of code points after `[]rune(s)`). Each child models one group of functions.
pub mod Search
pub mod Case
pub mod Space
pub mod Decimal
pub mod Fields
use Prim.Native.Char.{code}
use Prim.Native.String.{String}
use opengpm.Base.{ℕ, List, [], ◌∷◌, ◌≡◌, ◌≢◌, ◌↔◌, Bool, true, false, ◌&&◌, ◌==◌, arith, refl, All}

abbrev pub Bytes : Type 0
Bytes = List ℕ

-- The bytes of a literal, which is ASCII wherever this is used.
abbrev pub codes : String → Bytes
codes String.[] = []
codes (String.◌∷◌ c s) = code c ∷ codes s

-- `s == t` on strings.
unfoldable pub equal : Bytes → Bytes → Bool
equal [] [] = true
equal (x ∷ s) (y ∷ t) = x == y && equal s t
equal _ _ = false

pub equal_iff : (s t : Bytes) → (equal s t ≡ true) ↔ (s ≡ t)
unfolding equal
equal_iff (x ∷ s) (y ∷ t) = ground (arith, equal_iff s t)
equal_iff _ _ = ground arith

pub equal_self : (s : Bytes) → equal s s ≡ true
equal_self s = (equal_iff s s).1 refl

-- The text holds no byte `b`.
abbrev pub Lacks : ℕ → Bytes → Type 0
Lacks b = All (λ c. c ≢ b)
