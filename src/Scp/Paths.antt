-- ===== src/Scp/Paths.antt =====
-- filepath.Clean and filepath.Join on a system whose separator is the slash, in the way that their
-- documentation describes them: by the components of a path.
use kube_ssh.Base.{nat_eq, ◌&&◌, Bool, true, false, ◌||◌, List, [], ◌∷◌, ◌++◌, if◌then◌else◌}
use kube_ssh.Text.{Str, codes, ◌==◌, has_prefix, split, is_empty}

-- The components of a cleaned path, the last one first.
abbrev pub Stack : Type 0
Stack = List Str

-- ".." takes the component before it away; none is above the root.
unfoldable pub go_up : Bool → Stack → Stack
unfolding ◌==◌
go_up rooted [] = if rooted then [] else codes ".." ∷ []
go_up rooted (top ∷ rest) = if top == codes ".." then codes ".." ∷ top ∷ rest else rest

unfoldable pub go : Bool → Stack → Str → Stack
unfolding ◌==◌ go_up
go rooted stack c =
    if is_empty c || c == codes "."
    then stack
    else if c == codes ".."
    then go_up rooted stack
    else c ∷ stack

unfoldable pub walk : Bool → Stack → List Str → Stack
unfolding go
walk rooted stack [] = stack
walk rooted stack (c ∷ cs) = walk rooted (go rooted stack c) cs

abbrev pub parts : Str → List Str
parts path = (split b'/' path).0 ∷ (split b'/' path).1

abbrev pub is_rooted : Str → Bool
is_rooted path = has_prefix path (codes "/")

-- Where a path leads, seen from the root or from the working directory.
abbrev pub location : Str → Bool × Stack
location path = (is_rooted path, walk (is_rooted path) [] (parts path))

unfoldable pub join_stack : Stack → Str
join_stack [] = []
join_stack (c ∷ []) = c
join_stack (c ∷ d ∷ rest) = join_stack (d ∷ rest) ++ (b'/' ∷ c)

unfoldable pub render : Bool × Stack → Str
unfolding join_stack
render (true, stack) = b'/' ∷ join_stack stack
render (false, []) = codes "."
render (false, c ∷ rest) = join_stack (c ∷ rest)

unfoldable pub filepath_clean : Str → Str
unfolding render
filepath_clean path = render (location path)

unfoldable pub filepath_join : Str → Str → Str
unfolding filepath_clean
filepath_join [] [] = []
filepath_join [] (d ∷ b) = filepath_clean (d ∷ b)
filepath_join (c ∷ a) b = filepath_clean ((c ∷ a) ++ (b'/' ∷ b))

-- What stands behind the last slash.
last_part : List Str → Str → Str
last_part [] first = first
last_part (c ∷ cs) first = last_part cs c

-- A text without the slashes at its end.
unfoldable pub trim_slashes : Str → Str
trim_slashes [] = []
trim_slashes (c ∷ s) =
    let rest = trim_slashes s in if nat_eq c b'/' && is_empty rest then [] else c ∷ rest

base_of : Str → Str
unfolding split last_part
base_of [] = codes "/"
base_of (c ∷ s) = last_part (split b'/' (c ∷ s)).1 (split b'/' (c ∷ s)).0

unfoldable pub filepath_base : Str → Str
unfolding trim_slashes base_of
filepath_base [] = codes "."
filepath_base (c ∷ s) = base_of (trim_slashes (c ∷ s))
