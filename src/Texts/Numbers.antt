-- ===== src/Texts/Numbers.antt =====
-- Texts that begin with a number, as the regular expression `^(\d+)[.)]` reads them. The digits are
-- those of ASCII.
use Prim.Native.Char.{Char, code}
use langgraph_backend.Base.{
  ℕ, ◌+◌, ◌-◌, ◌*◌, String, ◌≡◌, refl, Bool, true, false, Option, none, some, ◌&&◌, ◌||◌,
  if◌then◌else◌, leb, nat_eq,
}

abbrev is_digit : Char → Bool
is_digit c = leb 48 (code c) && leb (code c) 57

-- "." or ")"
abbrev is_mark : Char → Bool
is_mark c = nat_eq (code c) 46 || nat_eq (code c) 41

-- With the number read so far, and whether there was a digit.
unfoldable pub number_from : ℕ → Bool → String → Option (ℕ × String)
number_from n seen String.[] = none
number_from n seen (String.◌∷◌ c s) =
    let rest = number_from (n * 10 + (code c - 48)) true s in
    if is_digit c then rest else if seen && is_mark c then some (n, s) else none

-- The number, and the text behind its mark.
unfoldable pub leading_number : String → Option (ℕ × String)
unfolding number_from
leading_number s = number_from 0 false s

leading_number_example : leading_number "12) yes" ≡ some (12, " yes")
unfolding leading_number
leading_number_example = refl
