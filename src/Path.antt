-- ===== src/Path.antt =====
-- package path of the Go standard library, on byte strings: Clean, Join, Dir and Base.
use baidu_drive_mover.Base.{
  ◌≡◌, refl, Bool, false, List, [], ◌∷◌, ◌++◌, reverse, ◌==◌, if◌then◌else◌,
}
use baidu_drive_mover.Text.{Str, bytes, str_eq}

-- strings.Split(s, "/"): the first part and the others.
split_slash : Str → Str × List Str
split_slash [] = ([], [])
split_slash (c ∷ s) =
    let (part, parts) = split_slash s in if c == b'/' then ([], part ∷ parts) else (c ∷ part, parts)

unfoldable pub split : Str → List Str
unfolding split_slash
split s = let (part, parts) = split_slash s in part ∷ parts

unfoldable pub is_rooted : Str → Bool
is_rooted [] = false
is_rooted (c ∷ _) = c == b'/'

abbrev is_dot : Str → Bool
is_dot = str_eq (bytes ".")

abbrev is_dot_dot : Str → Bool
is_dot_dot = str_eq (bytes "..")

-- What ".." does to the components kept so far, last one first: it takes one away, is dropped at
-- the root, and stays in front of a path that is not rooted.
pop_component : Bool → List Str → List Str
pop_component rooted [] = if rooted then [] else bytes ".." ∷ []
pop_component rooted (top ∷ kept) =
    if str_eq (bytes "..") top then bytes ".." ∷ top ∷ kept else kept

clean_component : Bool → List Str → Str → List Str
unfolding pop_component
clean_component rooted kept [] = kept
clean_component rooted kept (c ∷ s) =
    if is_dot (c ∷ s)
    then kept
    else if is_dot_dot (c ∷ s)
    then pop_component rooted kept
    else (c ∷ s) ∷ kept

clean_loop : Bool → List Str → List Str → List Str
unfolding clean_component
clean_loop rooted kept [] = kept
clean_loop rooted kept (s ∷ parts) = clean_loop rooted (clean_component rooted kept s) parts

join_slash : List Str → Str
join_slash [] = []
join_slash (s ∷ []) = s
join_slash (s ∷ t ∷ rest) = s ++ b'/' ∷ join_slash (t ∷ rest)

or_dot : Str → Str
or_dot [] = bytes "."
or_dot (c ∷ s) = c ∷ s

unfoldable pub clean : Str → Str
unfolding split clean_loop join_slash or_dot is_rooted str_eq
clean s =
    let kept = join_slash (reverse (clean_loop (is_rooted s) [] (split s))) in
    if is_rooted s then b'/' ∷ kept else or_dot kept

abbrev drop_empty : List Str → List Str
drop_empty [] = []
drop_empty ([] ∷ rest) = drop_empty rest
drop_empty ((c ∷ s) ∷ rest) = (c ∷ s) ∷ drop_empty rest

join_elements : List Str → Str
unfolding clean
join_elements [] = []
join_elements (s ∷ rest) = clean (join_slash (s ∷ rest))

-- path.Join: the empty elements are left out, and nothing is left of none.
unfoldable pub join : List Str → Str
unfolding join_elements
join elements = join_elements (drop_empty elements)

-- The part up to and with the last slash, and the part behind it.
split_last : Str → Str × Str
split_last [] = ([], [])
split_last (c ∷ s) =
    let (before, behind) = split_last s in
    elim before [
      | [] ↦ (if c == b'/' then (c ∷ [], behind) else ([], c ∷ behind))
      | d ∷ r ↦ (c ∷ d ∷ r, behind)
    ]

unfoldable pub dir : Str → Str
unfolding split_last clean
dir s = clean (split_last s).0

strip_slashes_rev : Str → Str
strip_slashes_rev [] = []
strip_slashes_rev (c ∷ s) = let rest = strip_slashes_rev s in if c == b'/' then rest else c ∷ s

base_of : Str → Str
unfolding split_last
base_of [] = bytes "/"
base_of (c ∷ s) = (split_last (c ∷ s)).1

-- path.Base: trailing slashes are dropped; "." for the empty path, "/" for slashes alone.
unfoldable pub base : Str → Str
unfolding base_of strip_slashes_rev
base [] = bytes "."
base (c ∷ s) = base_of (reverse (strip_slashes_rev (reverse (c ∷ s))))

clean_dots : clean (bytes "/a/./b//../c/") ≡ bytes "/a/c"
unfolding clean
clean_dots = refl

join_up : join (bytes "/BaiduDriveMover" ∷ bytes ".." ∷ []) ≡ bytes "/"
unfolding join
join_up = refl

dir-base : (dir (bytes "/a/b.txt") ≡ bytes "/a") × (base (bytes "/a/b.txt") ≡ bytes "b.txt")
unfolding dir base
dir-base = (refl, refl)
