-- ===== src/RoutingPath/Clean.antt =====
-- `path.Clean` of Go's standard library, by path elements.
use inferops.Base.{
  ℕ, List, [], ◌∷◌, ◌++◌, Bool, false, ◌||◌, if◌then◌else◌, Str, ◌==◌, nat_eq, str_eq, is_empty,
  codes, ◌≡◌, refl, reverse,
}

abbrev pub slash : ℕ
slash = 47

abbrev pub cons_head : ℕ → List Str → List Str
cons_head c [] = (c ∷ []) ∷ []
cons_head c (w ∷ ws) = (c ∷ w) ∷ ws

-- The elements between the slashes; the empty string has one, empty element.
unfoldable pub split : Str → List Str
split [] = [] ∷ []
split (c ∷ s) = let rest = split s in if c == slash then [] ∷ rest else cons_head c rest

unfoldable pub join : List Str → Str
join [] = []
join (w ∷ []) = w
join (w ∷ v ∷ ws) = w ++ slash ∷ join (v ∷ ws)

abbrev pub dot : Str
dot = codes "."

abbrev pub dot_dot : Str
dot_dot = codes ".."

-- `..` takes the last element back; at the front it is dropped from a rooted path, and kept else.
abbrev pub up : Bool → List Str → List Str
up rooted [] = if rooted then [] else dot_dot ∷ []
up rooted (w ∷ ws) = if w == dot_dot then (if rooted then w ∷ ws else dot_dot ∷ w ∷ ws) else ws

-- One element; the stack has the last element kept at its head.
unfoldable pub push : Bool → List Str → Str → List Str
push rooted stack w =
    if is_empty w || w == dot then stack else if w == dot_dot then up rooted stack else w ∷ stack

unfoldable pub push_all : Bool → List Str → List Str → List Str
unfolding push
push_all rooted stack [] = stack
push_all rooted stack (w ∷ ws) = push_all rooted (push rooted stack w) ws

abbrev dot_if_empty : Str → Str
dot_if_empty [] = dot
dot_if_empty (c ∷ s) = c ∷ s

-- Whether a path starts at the root, `path.IsAbs`.
abbrev pub is_abs : Str → Bool
is_abs [] = false
is_abs (c ∷ s) = c == slash

unfoldable pub clean : Str → Str
unfolding push_all split join
clean p =
    let out = join (reverse (push_all (is_abs p) [] (split p))) in
    if is_abs p then slash ∷ out else dot_if_empty out

clean_tests :
    (clean (codes "/a//b/./c/../d/") ≡ codes "/a/b/d")
    × (clean (codes "/../..") ≡ codes "/")
    × (clean (codes "a/../../b") ≡ codes "../b")
    × (clean [] ≡ codes ".")
unfolding clean
clean_tests = (refl, refl, refl, refl)
