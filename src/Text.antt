-- ===== src/Text.antt =====
-- Go strings as byte sequences, and what the source uses of package strings: equality, byte order,
-- TrimSpace, HasPrefix, TrimPrefix, Contains, Index of a byte, EqualFold on ASCII, ToLower on ASCII.
use Prim.Native.Char.{code}
use baidu_drive_mover.Base.{
  ℕ, ◌+◌, String, ◌≡◌, refl, subst, ◌↔◌, Bool, true, false, ◌&&◌, ◌||◌, List, [], ◌∷◌, map, reverse,
  Option, none, some, arith, ltb, leb, ◌==◌, if◌then◌else◌,
}

abbrev pub Str : Type 0
Str = List ℕ

-- The bytes of an ASCII literal.
abbrev pub bytes : String → Str
bytes String.[] = []
bytes (String.◌∷◌ c s) = code c ∷ bytes s

unfoldable pub str_eq : Str → Str → Bool
str_eq [] [] = true
str_eq (a ∷ s) (b ∷ t) = a == b && str_eq s t
str_eq _ _ = false

pub str_eq_refl : (s : Str) → str_eq s s ≡ true
unfolding str_eq
str_eq_refl [] = refl
str_eq_refl (a ∷ s) = ground (arith, str_eq_refl s)

pub str_eq→eq : (s t : Str) → str_eq s t ≡ true → s ≡ t
unfolding str_eq
str_eq→eq [] [] h = refl
str_eq→eq [] (b ∷ t) h = cc
str_eq→eq (a ∷ s) [] h = cc
str_eq→eq (a ∷ s) (b ∷ t) h = ground (arith, str_eq→eq s t)

pub str_eq_iff : (s t : Str) → (str_eq s t ≡ true) ↔ (s ≡ t)
str_eq_iff s t = (str_eq→eq s t, λ e. subst (λ u. str_eq s u ≡ true) e (str_eq_refl s))

-- The order of bytes: `ORDER BY` on TEXT, and `<` on Go strings.
unfoldable pub str_le : Str → Str → Bool
str_le [] t = true
str_le (a ∷ s) [] = false
str_le (a ∷ s) (b ∷ t) = ltb a b || (a == b && str_le s t)

unfoldable pub has_prefix : Str → Str → Bool
has_prefix s [] = true
has_prefix [] (p ∷ ps) = false
has_prefix (c ∷ s) (p ∷ ps) = c == p && has_prefix s ps

-- strings.TrimPrefix: the text without the prefix, or the text itself.
unfoldable pub strip_prefix : Str → Str → Option Str
strip_prefix s [] = some s
strip_prefix [] (p ∷ ps) = none
strip_prefix (c ∷ s) (p ∷ ps) = let rest = strip_prefix s ps in if c == p then rest else none

unfoldable pub contains_byte : ℕ → Str → Bool
contains_byte b [] = false
contains_byte b (c ∷ s) = c == b || contains_byte b s

unfoldable pub contains : Str → Str → Bool
unfolding has_prefix
contains [] t = has_prefix [] t
contains (c ∷ s) t = has_prefix (c ∷ s) t || contains s t

-- unicode.IsSpace, by the UTF-8 bytes of the space runes; `order` reads them from the left or,
-- on a reversed text, from the right. The result is the text behind one leading space rune.
is_space2 : ℕ → ℕ → Bool
is_space2 a b = a == 0xc2 && (b == 0x85 || b == 0xa0)

is_space3 : ℕ → ℕ → ℕ → Bool
is_space3 a b c =
    (a == 0xe1 && b == 0x9a && c == 0x80)
    || (a == 0xe2
        && b == 0x80
        && ((leb 0x80 c && leb c 0x8a) || c == 0xa8 || c == 0xa9 || c == 0xaf))
    || (a == 0xe2 && b == 0x81 && c == 0x9f)
    || (a == 0xe3 && b == 0x80 && c == 0x80)

is_space1 : ℕ → Bool
is_space1 a = a == 0x20 || (leb 0x09 a && leb a 0x0d)

unfoldable pub trim_left : Str → Str
unfolding is_space1 is_space2 is_space3
trim_left [] = []
trim_left (a ∷ []) = if is_space1 a then [] else a ∷ []
trim_left (a ∷ b ∷ []) =
    let rest1 = trim_left (b ∷ []) in
    if is_space1 a then rest1 else if is_space2 a b then [] else a ∷ b ∷ []
trim_left (a ∷ b ∷ c ∷ s) =
    let rest1 = trim_left (b ∷ c ∷ s) in
    let rest2 = trim_left (c ∷ s) in
    let rest3 = trim_left s in
    if is_space1 a
    then rest1
    else if is_space2 a b
    then rest2
    else if is_space3 a b c
    then rest3
    else a ∷ b ∷ c ∷ s

-- The same from the right, over the reversed text.
unfoldable pub trim_right_rev : Str → Str
unfolding is_space1 is_space2 is_space3
trim_right_rev [] = []
trim_right_rev (a ∷ []) = if is_space1 a then [] else a ∷ []
trim_right_rev (b ∷ a ∷ []) =
    let rest1 = trim_right_rev (a ∷ []) in
    if is_space1 b then rest1 else if is_space2 a b then [] else b ∷ a ∷ []
trim_right_rev (c ∷ b ∷ a ∷ s) =
    let rest1 = trim_right_rev (b ∷ a ∷ s) in
    let rest2 = trim_right_rev (a ∷ s) in
    let rest3 = trim_right_rev s in
    if is_space1 c
    then rest1
    else if is_space2 b c
    then rest2
    else if is_space3 a b c
    then rest3
    else c ∷ b ∷ a ∷ s

-- strings.TrimSpace.
unfoldable pub trim_space : Str → Str
unfolding trim_left trim_right_rev
trim_space s = reverse (trim_right_rev (reverse (trim_left s)))

-- strings.TrimSpace leaves nothing of an empty text.
pub trim_space-nil : trim_space [] ≡ []
unfolding trim_space
trim_space-nil = refl

-- ASCII letters to lower case; strings.EqualFold on ASCII texts compares by it.
unfoldable pub lower_byte : ℕ → ℕ
lower_byte c = if leb b'A' c && leb c b'Z' then c + 32 else c

unfoldable pub equal_fold : Str → Str → Bool
unfolding lower_byte
equal_fold s t = str_eq (map lower_byte s) (map lower_byte t)
