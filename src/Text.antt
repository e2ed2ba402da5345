-- ===== src/Text.antt =====
-- What the program uses of Go's `strings`, over texts as lists of code points. Protobuf strings are
-- valid UTF-8, so a list of code points loses nothing, and the bytewise order of Go is the order of
-- the code points.
pub mod Space
pub mod Order
pub mod Prefix
pub mod Sort
use Prim.Native.Char.{Char, code}
use Prim.Native.String
use Prim.Native.String.{[], ◌∷◌}
use evidra_agentgateway_brid.Prelude.{
  ℕ, ◌+◌, ◌-◌, String, Bool, true, false, ◌&&◌, ◌||◌, List, ◌==◌, leb, nat_eq, if◌then◌else◌,
}

infixr 65 ◌⧺◌
-- Concatenation of texts.
abbrev pub ◌⧺◌ : String → String → String
s ⧺ t = String.◌++◌ s t

-- `unicode.IsSpace`
unfoldable pub is_space : ℕ → Bool
is_space c =
    (leb 9 c && leb c 13)
    || nat_eq c 32
    || nat_eq c 0x85
    || nat_eq c 0xa0
    || nat_eq c 0x1680
    || (leb 0x2000 c && leb c 0x200a)
    || nat_eq c 0x2028
    || nat_eq c 0x2029
    || nat_eq c 0x202f
    || nat_eq c 0x205f
    || nat_eq c 0x3000

unfoldable pub trim_left : String → String
trim_left [] = []
trim_left (c ∷ s) = if is_space (code c) then trim_left s else c ∷ s

unfoldable pub trim_right : String → String
trim_right [] = []
trim_right (c ∷ s) = let r = trim_right s in if is_space (code c) && r == "" then [] else c ∷ r

-- `strings.TrimSpace`
unfoldable pub trim_space : String → String
trim_space s = trim_right (trim_left s)

-- The text behind a prefix, if it has that prefix.
unfoldable pub has_prefix : String → String → Bool
has_prefix [] s = true
has_prefix (c ∷ p) [] = false
has_prefix (c ∷ p) (d ∷ s) = nat_eq (code c) (code d) && has_prefix p s

unfoldable pub drop : String → String → String
drop [] s = s
drop (c ∷ p) [] = []
drop (c ∷ p) (d ∷ s) = drop p s

-- `strings.TrimPrefix`
unfoldable pub trim_prefix : String → String → String
unfolding has_prefix drop
trim_prefix s p = if has_prefix p s then drop p s else s

-- `strings.TrimSuffix`
unfoldable pub trim_suffix : String → String → String
trim_suffix [] suffix = []
trim_suffix (c ∷ s) suffix =
    let rest = c ∷ trim_suffix s suffix in if (c ∷ s) == suffix then [] else rest

-- The code points of a text.
abbrev pub codes : String → List ℕ
codes [] = List.[]
codes (c ∷ s) = List.◌∷◌ (code c) (codes s)

-- `unicode.ToLower` as far as its result is an ASCII letter: the capitals, and the two signs whose
-- lower case is ASCII. Other code points stay; the result is only searched for ASCII letters.
unfoldable pub lower : ℕ → ℕ
lower c =
    if leb b'A' c && leb c b'Z'
    then c + 32
    else if nat_eq c 0x130
    then b'i'
    else if nat_eq c 0x212a
    then b'k'
    else c

-- `strings.ToLower`, as code points
unfoldable pub to_lower : String → List ℕ
unfolding lower
to_lower [] = List.[]
to_lower (c ∷ s) = List.◌∷◌ (lower (code c)) (to_lower s)

unfoldable pub codes_have_prefix : List ℕ → List ℕ → Bool
codes_have_prefix List.[] s = true
codes_have_prefix (List.◌∷◌ c p) List.[] = false
codes_have_prefix (List.◌∷◌ c p) (List.◌∷◌ d s) = nat_eq c d && codes_have_prefix p s

-- `strings.Contains`, with the text first as in Go
unfoldable pub contains : List ℕ → List ℕ → Bool
unfolding codes_have_prefix
contains List.[] sub = codes_have_prefix sub List.[]
contains (List.◌∷◌ c s) sub = codes_have_prefix sub (List.◌∷◌ c s) || contains s sub

on_head : Char → List String → List String
on_head c List.[] = List.◌∷◌ (c ∷ []) List.[]
on_head c (List.◌∷◌ w ws) = List.◌∷◌ (c ∷ w) ws

-- `strings.Split` at a one-character separator
unfoldable pub split : String → ℕ → List String
unfolding on_head
split [] sep = List.◌∷◌ [] List.[]
split (c ∷ s) sep =
    let parts = split s sep in if nat_eq (code c) sep then List.◌∷◌ [] parts else on_head c parts

-- `strings.Join`
unfoldable pub join : List String → String → String
join List.[] sep = []
join (List.◌∷◌ w List.[]) sep = w
join (List.◌∷◌ w ws) sep = w ⧺ (sep ⧺ join ws sep)
