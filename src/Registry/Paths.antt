-- ===== src/Registry/Paths.antt =====
-- The functions on strings that the registry takes paths apart with.
use Prim.Native.Char.{Char, code}
use Prim.Native.String
use Prim.Native.String.{String, [], ◌∷◌}
use mathlib.Core.List.{List}
use rhosus.Base.{Bool, ◌==◌, if◌then◌else◌}

abbrev is_slash : Char → Bool
is_slash ch = code ch == b'/'

-- `strings.Split(path, "/")`: the part up to the first slash, and the others.
split_first : String → String × List String
split_first [] = ("", List.[])
split_first (ch ∷ s) =
    let (part, parts) = split_first s in
    if is_slash ch then ("", List.◌∷◌ part parts) else (ch ∷ part, parts)

unfoldable pub split : String → List String
unfolding split_first
split path = List.◌∷◌ (split_first path).0 (split_first path).1

-- `strings.Join(parts, "/")`
pub join : List String → String
join List.[] = ""
join (List.◌∷◌ part List.[]) = part
join (List.◌∷◌ part (List.◌∷◌ next parts)) =
    String.◌++◌ part (String.◌++◌ "/" (join (List.◌∷◌ next parts)))

-- `parts[:len(parts)-1]`
pub all_but_last : List String → List String
all_but_last List.[] = List.[]
all_but_last (List.◌∷◌ part List.[]) = List.[]
all_but_last (List.◌∷◌ part (List.◌∷◌ next parts)) =
    List.◌∷◌ part (all_but_last (List.◌∷◌ next parts))

-- `parts[len(parts)-1]`; Split never gives an empty slice.
pub last_part : List String → String
last_part List.[] = ""
last_part (List.◌∷◌ part List.[]) = part
last_part (List.◌∷◌ part (List.◌∷◌ next parts)) = last_part (List.◌∷◌ next parts)

unfoldable pub trim_left : String → String
trim_left [] = ""
trim_left (ch ∷ s) = let rest = trim_left s in if is_slash ch then rest else ch ∷ s

unfoldable pub trim_right : String → String
trim_right [] = ""
trim_right (ch ∷ s) = trimmed ch (trim_right s)
  where
    trimmed : Char → String → String
    trimmed ch [] = if is_slash ch then "" else ch ∷ ""
    trimmed ch (d ∷ s) = ch ∷ d ∷ s

-- `strings.Trim(path, "/")`
unfoldable pub trim : String → String
unfolding trim_left trim_right
trim path = trim_right (trim_left path)
