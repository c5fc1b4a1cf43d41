-- ===== src/Text/Space.antt =====
-- `strings.TrimSpace`.
use opengpm.Base.{
  ℕ, zero, suc, List, [], ◌∷◌, ◌++◌, map, reverse, ◌≡◌, refl, ◌==◌, Option, none, some,
  if◌then◌else◌, length, reverse-append, reverse-reverse, ap, ◌∙◌,
}
use opengpm.Text.{Bytes}

-- The UTF-8 encodings of the white space of `unicode.IsSpace`.
abbrev spaces : List Bytes
spaces =
    (0x09 ∷ [])
    ∷ (0x0a ∷ [])
    ∷ (0x0b ∷ [])
    ∷ (0x0c ∷ [])
    ∷ (0x0d ∷ [])
    ∷ (0x20 ∷ [])
    ∷ (0xc2 ∷ 0x85 ∷ [])
    ∷ (0xc2 ∷ 0xa0 ∷ [])
    ∷ (0xe1 ∷ 0x9a ∷ 0x80 ∷ [])
    ∷ (0xe2 ∷ 0x80 ∷ 0x80 ∷ [])
    ∷ (0xe2 ∷ 0x80 ∷ 0x81 ∷ [])
    ∷ (0xe2 ∷ 0x80 ∷ 0x82 ∷ [])
    ∷ (0xe2 ∷ 0x80 ∷ 0x83 ∷ [])
    ∷ (0xe2 ∷ 0x80 ∷ 0x84 ∷ [])
    ∷ (0xe2 ∷ 0x80 ∷ 0x85 ∷ [])
    ∷ (0xe2 ∷ 0x80 ∷ 0x86 ∷ [])
    ∷ (0xe2 ∷ 0x80 ∷ 0x87 ∷ [])
    ∷ (0xe2 ∷ 0x80 ∷ 0x88 ∷ [])
    ∷ (0xe2 ∷ 0x80 ∷ 0x89 ∷ [])
    ∷ (0xe2 ∷ 0x80 ∷ 0x8a ∷ [])
    ∷ (0xe2 ∷ 0x80 ∷ 0xa8 ∷ [])
    ∷ (0xe2 ∷ 0x80 ∷ 0xa9 ∷ [])
    ∷ (0xe2 ∷ 0x80 ∷ 0xaf ∷ [])
    ∷ (0xe2 ∷ 0x81 ∷ 0x9f ∷ [])
    ∷ (0xe3 ∷ 0x80 ∷ 0x80 ∷ [])
    ∷ []

-- What follows the text `p` at the head of `s`.
unfoldable pub strip_prefix : Bytes → Bytes → Option Bytes
strip_prefix [] s = some s
strip_prefix (x ∷ p) [] = none
strip_prefix (x ∷ p) (c ∷ s) = if x == c then strip_prefix p s else none

abbrev or_else : Option Bytes → Option Bytes → Option Bytes
or_else (some s) o = some s
or_else none o = o

strip_any : List Bytes → Bytes → Option Bytes
unfolding strip_prefix
strip_any [] s = none
strip_any (p ∷ ps) s = or_else (strip_prefix p s) (strip_any ps s)

-- Each round takes one white space character off the head; there are at most `length s` rounds.
trim_head : ℕ → List Bytes → Bytes → Bytes
unfolding strip_any
trim_head zero ps s = s
trim_head (suc f) ps s = elim (strip_any ps s) [ none ↦ s | some t ↦ trim_head f ps t ]

unfoldable pub trim_left : Bytes → Bytes
unfolding trim_head
trim_left s = trim_head (length s) spaces s

-- The same from the other end: text and encodings are read backwards.
unfoldable pub trim_right : Bytes → Bytes
unfolding trim_head
trim_right s = reverse (trim_head (length s) (map reverse spaces) (reverse s))

unfoldable pub trim_space : Bytes → Bytes
unfolding trim_left trim_right
trim_space s = trim_right (trim_left s)

trim_head_stop :
    (f : ℕ) (ps : List Bytes) (s : Bytes) → strip_any ps s ≡ none → trim_head f ps s ≡ s
unfolding trim_head
trim_head_stop zero ps s h = refl
trim_head_stop (suc f) ps s h = rw (h, trim_head)

trim_left_open : (s : Bytes) → trim_left (b'[' ∷ s) ≡ b'[' ∷ s
unfolding trim_left
trim_left_open s = trim_head_stop (length (b'[' ∷ s)) spaces (b'[' ∷ s) refl

trim_right_close : (s : Bytes) → trim_right (s ++ b']' ∷ []) ≡ s ++ b']' ∷ []
unfolding trim_right
trim_right_close s = rw (reverse-append s (b']' ∷ [])) (
    rw (trim_head_stop (length (s ++ b']' ∷ [])) (map reverse spaces) (b']' ∷ reverse s) refl)
      (reverse-append (b']' ∷ []) (reverse s) ∙ ap (λ t. t ++ b']' ∷ []) (reverse-reverse s)))

-- A text that stands in brackets has no white space to trim.
pub trim_space_bracketed :
    (s : Bytes) → trim_space (b'[' ∷ (s ++ b']' ∷ [])) ≡ b'[' ∷ (s ++ b']' ∷ [])
unfolding trim_space
trim_space_bracketed s = rw trim_left_open (trim_right_close (b'[' ∷ s))
