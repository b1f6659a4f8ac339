-- ===== src/Texts/Lengths.antt =====
-- Lengths of texts.
use langgraph_backend.Base.{ℕ, zero, suc, ◌+◌, ◌≤◌, String, ◌≡◌, if◌then◌else◌, arith, leb}
use langgraph_backend.Texts.{◌<>◌, concat, length_of, take_text}

pub length_of-concat : (s t : String) → length_of (s <> t) ≡ length_of s + length_of t
unfolding length_of concat
length_of-concat String.[] t = omega arith
length_of-concat (String.◌∷◌ c s) t = omega (arith, length_of-concat s t)

pub length_of-take_text : (n : ℕ) (s : String) → length_of (take_text n s) ≤ n
unfolding length_of take_text
length_of-take_text zero s = omega arith
length_of-take_text (suc n) String.[] = omega arith
length_of-take_text (suc n) (String.◌∷◌ c s) = omega (arith, length_of-take_text n s)

-- s if len(s) <= n else s[:n] + mark
unfoldable pub cut : ℕ → String → String → String
cut n mark s = if leb (length_of s) n then s else take_text n s <> mark

pub length_of-cut : (n : ℕ) (mark s : String) → length_of (cut n mark s) ≤ n + length_of mark
unfolding cut
length_of-cut n mark s =
    ground (arith, length_of-concat (take_text n s) mark, length_of-take_text n s)
