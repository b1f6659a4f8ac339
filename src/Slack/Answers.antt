-- ===== src/Slack/Answers.antt =====
-- `_parse_slack_answers` of app/api/routes/callbacks.py: a reply as the answers to numbered questions.
use langgraph_backend.Base.{
  ℕ, zero, suc, ◌+◌, ◌-◌, ◌<◌, String, ◌≡◌, refl, Option, none, some, List, [], ◌∷◌, ◌==◌, ◌&&◌,
  if◌then◌else◌, leb, ltb, nat_eq, get_or, or_else, ap, arith, eq_iff, Bool-cases, List-cases, inl,
  inr,
}
use langgraph_backend.Base.Dict.{Dict, lookup, insert, lookup-insert}
use langgraph_backend.Texts.{strip, lstrip}
use langgraph_backend.Texts.Numbers.{leading_number}

-- The lines that are not blank, stripped.
unfoldable pub kept_lines : List String → List String
unfolding strip
kept_lines [] = []
kept_lines (l ∷ ls) = let rest = kept_lines ls in if strip l == "" then rest else strip l ∷ rest

-- The lines that begin with a number, with what stands behind it.
unfoldable pub numbered_lines : List String → List (ℕ × String)
unfolding leading_number lstrip
numbered_lines [] = []
numbered_lines (l ∷ ls) =
    let rest = numbered_lines ls in
    elim (leading_number l) [ none ↦ rest | some (n, answer) ↦ (n, lstrip answer) ∷ rest ]

-- The line at a place, "" behind the last.
unfoldable pub line_at : ℕ → List String → String
line_at i [] = ""
line_at zero (l ∷ ls) = l
line_at (suc i) (l ∷ ls) = line_at i ls

-- The last answer with a number.
unfoldable pub last_numbered : ℕ → List (ℕ × String) → Option String
last_numbered n [] = none
last_numbered n ((m, a) ∷ rest) =
    or_else (last_numbered n rest) (if nat_eq m n then some a else none)

module _ (decimal : ℕ → String) where
  -- {str(i): f(i) for i in range(start, start + n)}
  unfoldable pub by_index : ℕ → ℕ → (ℕ → String) → Dict String
  by_index start zero f = []
  by_index start (suc n) f = (decimal start, f start) ∷ by_index (start + 1) n f

  -- Answers with a number from 1 to n are written at the index below it.
  unfoldable pub write_answers : ℕ → List (ℕ × String) → Dict String → Dict String
  write_answers n [] answers = answers
  write_answers n ((m, a) ∷ rest) answers =
      write_answers n rest
        (if leb 1 m && leb m n then insert (decimal (m - 1)) a answers else answers)

  unfoldable pub parse_lines : ℕ → List String → Dict String
  unfolding by_index write_answers numbered_lines line_at
  parse_lines n lines = elim (numbered_lines lines) [
    | [] ↦ by_index 0 (if leb n 1 then 1 else n) (λ i. line_at i lines)
    | numbered ∷ rest ↦ write_answers n (numbered ∷ rest) (by_index 0 n (λ i. ""))
  ]

  unfoldable pub parse_slack_answers : (String → List String) → String → ℕ → Dict String
  unfolding parse_lines kept_lines
  parse_slack_answers splitlines s n = parse_lines n (kept_lines (splitlines s))

  -- What the answer at an index is, read off the lines.
  unfoldable pub answer_at : List String → ℕ → String
  unfolding numbered_lines last_numbered line_at
  answer_at lines i = elim (numbered_lines lines) [
    | [] ↦ line_at i lines
    | numbered ∷ rest ↦ get_or (last_numbered (i + 1) (numbered ∷ rest)) ""
  ]

  module _ (injective : (i j : ℕ) → decimal i ≡ decimal j → i ≡ j) where
    same_decimal : (i j : ℕ) → (decimal i == decimal j) ≡ nat_eq i j
    same_decimal i j = elim (Bool-cases (nat_eq i j)) [
      | inl b ↦
          let e : i ≡ j = ground arith in
          ground (arith, (eq_iff (decimal i) (decimal j)).1 (ap decimal e))
      | inr b ↦ ground (arith, eq_iff (decimal i) (decimal j), injective i j)
    ]

    lookup-by_index :
        (start n i : ℕ) (f : ℕ → String)
        → lookup (decimal i) (by_index start n f)
          ≡ (if leb start i && ltb i (start + n) then some (f i) else none)
    unfolding lookup by_index
    lookup-by_index start zero i f = ground arith
    lookup-by_index start (suc n) i f =
        ground (arith, same_decimal start i, lookup-by_index (start + 1) n i f, ap f)

    lookup-write_answers :
        (n i : ℕ) (rest : List (ℕ × String)) (answers : Dict String)
        → i < n
        → lookup (decimal i) (write_answers n rest answers)
          ≡ or_else (last_numbered (i + 1) rest) (lookup (decimal i) answers)
    unfolding write_answers last_numbered
    lookup-write_answers n i [] answers h = refl
    lookup-write_answers n i ((m, a) ∷ rest) answers h = elim (Bool-cases (leb 1 m && leb m n)) [
      | inl b ↦ rw b (
          ground (
            arith,
            lookup-write_answers n i rest (insert (decimal (m - 1)) a answers) h,
            lookup-insert (decimal (m - 1)) (decimal i) a answers,
            same_decimal (m - 1) i,
          ))
      | inr b ↦ rw b (ground (arith, lookup-write_answers n i rest answers h))
    ]

    -- Where different numbers have different texts, a reply is read as an answer to each of the
    -- questions that are asked, at its place in their order: if any of its lines begins with a number, the
    -- answer to a question is the text behind its number in the last line with that number, or "";
    -- else it is the line at its place, or "" where the reply has fewer lines.
    pub parse_slack_answers_lem :
        (splitlines : String → List String) (s : String) (n i : ℕ)
        → i < n
        → lookup (decimal i) (parse_slack_answers splitlines s n)
          ≡ some (answer_at (kept_lines (splitlines s)) i)
    unfolding parse_slack_answers parse_lines answer_at
    parse_slack_answers_lem splitlines s n i h =
        let lines = kept_lines (splitlines s) in
        elim (List-cases (numbered_lines lines)) [
          | inl e ↦
              rw (e, parse_lines, answer_at)
                (ground
                  (arith, lookup-by_index 0 (if leb n 1 then 1 else n) i (λ j. line_at j lines)))
          | inr (numbered, rest, e) ↦
              rw (e, parse_lines, answer_at)
                (ground (
                  arith,
                  lookup-write_answers n i (numbered ∷ rest) (by_index 0 n (λ j. "")) h,
                  lookup-by_index 0 n i (λ j. ""),
                ))
        ]
