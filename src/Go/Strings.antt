-- ===== src/Go/Strings.antt =====
-- String literals as bytes, and `strings.TrimSpace` on UTF-8 bytes.
pub mod Blank
pub mod Split
pub mod Itoa
use Prim.Native.Char.{code}
use Prim.Native.String.{String}
use stable_coin.Prelude.{
  ℕ, ◌≡◌, refl, Bool, true, false, ◌&&◌, ◌||◌, [], ◌∷◌, Bytes, leb, ◌==◌, if◌then◌else◌,
}

-- The bytes of an ASCII literal.
abbrev pub lit : String → Bytes
lit String.[] = []
lit (String.◌∷◌ c s) = code c ∷ lit s

-- '\t', '\n', '\v', '\f', '\r' and ' '
abbrev is_space1 : ℕ → Bool
is_space1 a = leb 9 a && leb a 13 || a == 32

-- U+0085 and U+00A0
abbrev is_space2 : ℕ → ℕ → Bool
is_space2 a b = a == 0xc2 && (b == 0x85 || b == 0xa0)

-- U+1680, U+2000 to U+200A, U+2028, U+2029, U+202F, U+205F and U+3000
abbrev is_space3 : ℕ → ℕ → ℕ → Bool
is_space3 a b c =
    a == 0xe1 && (b == 0x9a && c == 0x80)
    || a == 0xe2 && (b == 0x80 && (leb 0x80 c && leb c 0x8a || c == 0xa8 || c == 0xa9 || c == 0xaf))
    || a == 0xe2 && (b == 0x81 && c == 0x9f)
    || a == 0xe3 && (b == 0x80 && c == 0x80)

-- Drops the white space in front.
trim_left : Bytes → Bytes
trim_left [] = []
trim_left (a ∷ []) = if is_space1 a then [] else a ∷ []
trim_left (a ∷ b ∷ []) =
    let one = trim_left (b ∷ []) in
    if is_space1 a then one else if is_space2 a b then [] else a ∷ b ∷ []
trim_left (a ∷ b ∷ c ∷ s) =
    let one = trim_left (b ∷ c ∷ s) in
    let two = trim_left (c ∷ s) in
    let three = trim_left s in
    if is_space1 a
    then one
    else if is_space2 a b
    then two
    else if is_space3 a b c
    then three
    else a ∷ b ∷ c ∷ s

abbrev is_empty : Bytes → Bool
is_empty [] = true
is_empty (b ∷ s) = false

-- Drops the longest tail that is all white space. No tail of a white space character of several
-- bytes is a white space character, so the cut falls between characters.
trim_right : Bytes → Bytes
trim_right [] = []
trim_right (b ∷ s) = if is_empty (trim_left (b ∷ s)) then [] else b ∷ trim_right s

pub trim_space : Bytes → Bytes
trim_space s = trim_right (trim_left s)

-- `strings.TrimSpace(s) == ""`
unfoldable pub is_blank : Bytes → Bool
unfolding trim_space trim_right trim_left
is_blank s = is_empty (trim_space s)

is_blank_test : is_blank (9 ∷ 32 ∷ 0xe2 ∷ 0x80 ∷ 0x83 ∷ []) ≡ true
unfolding is_blank
is_blank_test = refl

trim_space_test : trim_space (lit "  a b ") ≡ lit "a b"
unfolding trim_space trim_right trim_left
trim_space_test = refl
