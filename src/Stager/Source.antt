-- ===== src/Stager/Source.antt =====
-- internal/staging/stager.go, sourceIDs: strconv.ParseInt(strings.TrimSpace(id), 10, 64), where the
-- value must be positive.
use baidu_drive_mover.Base.{
  ℕ, ◌+◌, ◌-◌, ◌*◌, ◌^◌, Bool, ◌&&◌, [], ◌∷◌, Option, none, some, if◌then◌else◌, leb, ltb, ◌==◌,
}
use baidu_drive_mover.Text.{Str, trim_space}

abbrev is_digit : ℕ → Bool
is_digit c = leb b'0' c && leb c b'9'

-- The value of a text of digits; a longer number only grows, so the range is tested at the end.
unfoldable pub digits : ℕ → Str → Option ℕ
digits value [] = some value
digits value (c ∷ s) =
    let rest = digits (value * 10 + (c - b'0')) s in if is_digit c then rest else none

unfoldable pub positive : Option ℕ → Option ℕ
positive none = none
positive (some n) = if ltb 0 n && ltb n (2 ^ 63) then some n else none

-- A sign may stand in front; a number with a minus is not positive.
unfoldable pub unsigned : Str → Option ℕ
unfolding digits
unsigned [] = none
unsigned (c ∷ s) = digits 0 (c ∷ s)

unfoldable pub signed : Str → Option ℕ
unfolding unsigned
signed [] = none
signed (c ∷ s) = if c == b'+' then unsigned s else unsigned (c ∷ s)

unfoldable pub source_id : Str → Option ℕ
unfolding positive signed
source_id s = positive (signed (trim_space s))
