-- ===== src/Texts.antt =====
-- Methods of Python's `str` that the program calls.
pub mod Lengths
pub mod Numbers
use Prim.Native.Char.{Char, code}
use langgraph_backend.Base.{
  ℕ, zero, suc, ◌-◌, String, ◌≡◌, refl, Bool, List, [], ◌∷◌, ◌==◌, ◌&&◌, ◌||◌, if◌then◌else◌, leb,
  nat_eq, starts_with,
}

-- The characters that `str.strip()` takes off, of ASCII and Latin-1.
abbrev pub is_space : Char → Bool
is_space c =
    (leb 9 (code c) && leb (code c) 13)
    || (leb 28 (code c) && leb (code c) 32)
    || nat_eq (code c) 133
    || nat_eq (code c) 160

unfoldable pub lstrip : String → String
lstrip String.[] = ""
lstrip (String.◌∷◌ c s) = let rest = lstrip s in if is_space c then rest else String.◌∷◌ c s

-- Drops the spaces at the end.
unfoldable pub rstrip : String → String
rstrip String.[] = ""
rstrip (String.◌∷◌ c s) =
    let rest = rstrip s in if is_space c && rest == "" then "" else String.◌∷◌ c rest

unfoldable pub strip : String → String
unfolding lstrip rstrip
strip s = rstrip (lstrip s)

unfoldable pub concat : String → String → String
concat String.[] t = t
concat (String.◌∷◌ c s) t = String.◌∷◌ c (concat s t)

-- s + t
infixr 65 ◌<>◌
abbrev pub ◌<>◌ : String → String → String
s <> t = concat s t

unfoldable pub length_of : String → ℕ
length_of String.[] = 0
length_of (String.◌∷◌ c s) = suc (length_of s)

-- s.replace(old, new) for a non-empty `old`, with `skip` characters of a match left to pass.
unfoldable pub replace_from : ℕ → String → String → String → String
unfolding concat length_of
replace_from skip old new String.[] = ""
replace_from (suc skip) old new (String.◌∷◌ c s) = replace_from skip old new s
replace_from zero old new (String.◌∷◌ c s) =
    let hit = concat new (replace_from (length_of old - 1) old new s) in
    let miss = String.◌∷◌ c (replace_from zero old new s) in
    if starts_with (String.◌∷◌ c s) old then hit else miss

unfoldable pub replace : String → String → String → String
unfolding replace_from
replace old new s = replace_from zero old new s

-- s[n:]
unfoldable pub from : ℕ → String → String
from zero s = s
from (suc n) String.[] = ""
from (suc n) (String.◌∷◌ c s) = from n s

-- s[:n]
unfoldable pub take_text : ℕ → String → String
take_text zero s = ""
take_text (suc n) String.[] = ""
take_text (suc n) (String.◌∷◌ c s) = String.◌∷◌ c (take_text n s)

-- sep.join(texts)
unfoldable pub joined : String → List String → String
unfolding concat
joined sep [] = ""
joined sep (s ∷ []) = s
joined sep (s ∷ t ∷ ts) = s <> (sep <> joined sep (t ∷ ts))

replace_example : replace "&&" " and " "a&&b && c" ≡ "a and b  and  c"
unfolding replace
replace_example = refl

strip_example : strip "  a b \n" ≡ "a b"
unfolding strip
strip_example = refl
