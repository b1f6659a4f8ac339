-- ===== src/Notify/Questions.antt =====
-- The questions of an agent or of an ask_context step as texts for Slack: `_md_to_slack`,
-- `_format_questions` and the texts of `post_slack_thread_questions` and `post_slack_ask_context`.
use langgraph_backend.Base.{
  ℕ, ◌+◌, String, ◌≡◌, refl, Bool, true, false, Option, none, some, List, [], ◌∷◌, if◌then◌else◌,
  nat_eq, starts_with, length,
}
use langgraph_backend.Value.{Value, State, get, truthy}
use langgraph_backend.Texts.{concat, ◌<>◌, lstrip, from, joined, is_space}
use langgraph_backend.Texts.Numbers.{leading_number}

-- Where the scan for `\*\*(.+?)\*\*` stands: outside of a match, at the second star that opens one,
-- at the first character in it, behind that, or at the second star that closes it.
pub data Scan : Type 0 where
  outside opening first_char inside closing : Scan

unfoldable pub contains_stars : String → Bool
contains_stars String.[] = false
contains_stars (String.◌∷◌ c s) =
    let rest = contains_stars s in if starts_with (String.◌∷◌ c s) "**" then true else rest

-- The text behind an opening has a character, and a closing behind that.
unfoldable pub closes : String → Bool
unfolding contains_stars
closes String.[] = false
closes (String.◌∷◌ c s) = contains_stars s

unfoldable pub scan : Scan → String → String
unfolding closes from
scan mode String.[] = ""
scan outside (String.◌∷◌ c s) =
    let bold = "*" <> scan opening s in
    let plain = String.◌∷◌ c (scan outside s) in
    if starts_with (String.◌∷◌ c s) "**" then (if closes (from 1 s) then bold else plain) else plain
scan opening (String.◌∷◌ c s) = scan first_char s
scan first_char (String.◌∷◌ c s) = String.◌∷◌ c (scan inside s)
scan inside (String.◌∷◌ c s) =
    let bold = "*" <> scan closing s in
    let plain = String.◌∷◌ c (scan inside s) in
    if starts_with (String.◌∷◌ c s) "**" then bold else plain
scan closing (String.◌∷◌ c s) = scan outside s

unfoldable pub md_to_slack : String → String
unfolding scan
md_to_slack s = scan outside s

unfoldable pub starts_with_space : String → Bool
starts_with_space String.[] = false
starts_with_space (String.◌∷◌ c s) = is_space c

-- `^\d+[.)]\s` matches
unfoldable pub is_numbered : String → Bool
unfolding leading_number starts_with_space
is_numbered s = elim (leading_number s) [ none ↦ false | some (n, rest) ↦ starts_with_space rest ]

module _ (decimal : ℕ → String) where
  -- With the questions ahead counted.
  unfoldable pub question_lines : ℕ → List String → List String
  unfolding md_to_slack is_numbered lstrip
  question_lines i [] = []
  question_lines i (q ∷ qs) =
      let line = md_to_slack q in
      (if is_numbered (lstrip line) then line else decimal (i + 1) <> (". " <> line))
      ∷ question_lines (i + 1) qs

  unfoldable pub format_questions : List String → String
  unfolding question_lines joined
  format_questions questions = joined "\n" (question_lines 0 questions)

  -- The message in the thread; `none` posts nothing.
  unfoldable pub thread_questions : List String → Option String
  unfolding format_questions
  thread_questions [] = none
  thread_questions (q ∷ qs) =
      some ("I need a bit more information to proceed:\n\n" <> format_questions (q ∷ qs))

  abbrev pub hint : ℕ → String
  hint n =
      if nat_eq n 1
      then "Reply in this thread with your answer."
      else "Reply in this thread with " <> (decimal n <> " numbered answers, one per line.")

  -- The message in the channel, with the run's ticket as text, or the run's id.
  unfoldable pub ask_context_message :
      (Value → String) → List String → String → State → Option String
  unfolding format_questions
  ask_context_message str [] run_id state = none
  ask_context_message str (q ∷ qs) run_id state =
      let ticket = get "ticket_id" state in
      let ticket_id = if truthy ticket then str ticket else run_id in
      some (
        "*Context needed for `"
        <> (ticket_id
            <> ("`*\n\n"
                <> (format_questions (q ∷ qs) <> ("\n\n_" <> (hint (length (q ∷ qs)) <> "_"))))))

md_to_slack_example : md_to_slack "**Why** a**b, **and** ** not" ≡ "*Why* a*b, *and* * not"
unfolding md_to_slack concat
md_to_slack_example = refl

stars_example : md_to_slack "a *****b** c" ≡ "a ***b** c"
unfolding md_to_slack concat
stars_example = refl

question_lines_example :
    question_lines (λ n. "N") 0 ("Why?" ∷ "2. **When**?" ∷ []) ≡ ("N. Why?" ∷ "2. *When*?" ∷ [])
unfolding question_lines concat
question_lines_example = refl
