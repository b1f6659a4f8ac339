-- ===== src/Notify/Limits.antt =====
-- What a rendered value keeps of its template, and how long the texts of its blocks are.
use langgraph_backend.Base.{
  ℕ, ◌≤◌, String, ◌≡◌, Bool, true, false, Option, none, some, ◌==◌, ◌&&◌, ◌>>=◌, if◌then◌else◌, leb,
  arith, OnSome, OnSome-elim, Option-cases, inl, inr, if_intro,
}
use langgraph_backend.Base.Int.{ℤ}
use langgraph_backend.Value.{
  Value, null, flag, int, float, text, array, object, Items, nil, cons, Fields, end, field, State,
}
use langgraph_backend.Texts.{strip, length_of}
use langgraph_backend.Texts.Lengths.{length_of-cut}
use langgraph_backend.Notify.{
  Formatter, Summarizer, slack_block_text_limit, truncate, summarize_for_slack, summarize_prompt,
  fit, is_block_text, render, render_value, rendered_fields, rendered_items,
}

-- 2900 characters and the mark of the cut, below Slack's limit of 3000.
abbrev pub longest : ℕ
longest = 2913

abbrev pub IsShort : String → Type 0
IsShort s = length_of s ≤ longest

truncate-IsShort : (s : String) → IsShort (truncate s)
unfolding truncate length_of
truncate-IsShort s = length_of-cut slack_block_text_limit "\n…(truncated)" s

whole_or-IsShort :
    (s x : String) → IsShort x → IsShort (if leb (length_of s) slack_block_text_limit then s else x)
whole_or-IsShort s x h = ground arith

summarize_for_slack-IsShort : (llm : Summarizer) (s : String) → IsShort (summarize_for_slack llm s)
unfolding summarize_for_slack
summarize_for_slack-IsShort llm s = elim (Option-cases (llm (summarize_prompt s))) [
  | inl e ↦ rw (e, summarize_for_slack) (truncate-IsShort s)
  | inr (answer, e) ↦
      rw (e, summarize_for_slack)
        (if_intro IsShort (strip answer == "") _ _ (truncate-IsShort s)
          (whole_or-IsShort (strip answer) _ (truncate-IsShort (strip answer))))
]

fit-IsShort : (settings : Option Summarizer) (s : String) → IsShort (fit settings true s)
unfolding fit
fit-IsShort none s = whole_or-IsShort s _ (truncate-IsShort s)
fit-IsShort (some llm) s = whole_or-IsShort s _ (summarize_for_slack-IsShort llm s)

-- A value fits its template: the shape and all that is no text are kept, and the text of a block is
-- short.
mutual
  pub data Fits : Bool → Value → Value → Type 0 where
    fits_text : (s r : String) → Fits false (text s) (text r)
    fits_block : (s r : String) → IsShort r → Fits true (text s) (text r)
    fits_object :
        {b : Bool} {fs gs : Fields}
        → FieldsFit (is_block_text fs) fs gs
        → Fits b (object fs) (object gs)
    fits_array : {b : Bool} {vs ws : Items} → ItemsFit vs ws → Fits b (array vs) (array ws)
    fits_null : {b : Bool} → Fits b null null
    fits_flag : {b : Bool} (x : Bool) → Fits b (flag x) (flag x)
    fits_int : {b : Bool} (i : ℤ) → Fits b (int i) (int i)
    fits_float : {b : Bool} (n : ℕ) → Fits b (float n) (float n)

  pub data FieldsFit : Bool → Fields → Fields → Type 0 where
    fits_end : {block : Bool} → FieldsFit block end end
    fits_field :
        {block : Bool} (k : String) {v w : Value} {fs gs : Fields}
        → Fits (block && k == "text") v w
        → FieldsFit block fs gs
        → FieldsFit block (field k v fs) (field k w gs)

  pub data ItemsFit : Items → Items → Type 0 where
    fits_nil : ItemsFit nil nil
    fits_cons :
        {v w : Value} {vs ws : Items}
        → Fits false v w
        → ItemsFit vs ws
        → ItemsFit (cons v vs) (cons w ws)

bind-OnSome {ℓ κ λ' μ} :
    {A : Type ℓ} {B : Type κ} (P : A → Type λ') (Q : B → Type μ) (o : Option A) (f : A → Option B)
    → OnSome P o
    → ((a : A) → P a → OnSome Q (f a))
    → OnSome Q (o >>= f)
bind-OnSome P Q none f p h = tt
bind-OnSome P Q (some a) f p h = h a p

any-OnSome : (o : Option String) → OnSome {0, 0} (λ s. Unit) o
any-OnSome none = tt
any-OnSome (some s) = tt

fit-Fits :
    (settings : Option Summarizer) (b : Bool) (s r : String)
    → Fits b (text s) (text (fit settings b r))
unfolding fit
fit-Fits settings false s r = fits_text s r
fit-Fits settings true s r = fits_block s (fit settings true r) (fit-IsShort settings r)

module _ (vformat : Formatter) (settings : Option Summarizer) (ctx : State) where
  mutual
    unfolding render_value rendered_fields rendered_items

    value-Fits : (b : Bool) (v : Value) → OnSome (Fits b v) (render_value vformat settings ctx b v)
    value-Fits b (text s) =
        bind-OnSome {0, 0, 0, 0} (λ r. Unit) (Fits b (text s)) (render vformat settings ctx s) _
          (any-OnSome (render vformat settings ctx s)) (λ r u. fit-Fits settings b s r)
    value-Fits b (object fs) =
        bind-OnSome (FieldsFit (is_block_text fs) fs) (Fits b (object fs))
          (rendered_fields vformat settings ctx (is_block_text fs) fs) _
          (fields-Fit (is_block_text fs) fs) (λ gs h. fits_object h)
    value-Fits b (array vs) =
        bind-OnSome (ItemsFit vs) (Fits b (array vs)) (rendered_items vformat settings ctx vs) _
          (items-Fit vs) (λ ws h. fits_array h)
    value-Fits b null = fits_null
    value-Fits b (flag x) = fits_flag x
    value-Fits b (int i) = fits_int i
    value-Fits b (float n) = fits_float n

    fields-Fit :
        (block : Bool) (fs : Fields)
        → OnSome (FieldsFit block fs) (rendered_fields vformat settings ctx block fs)
    fields-Fit block end = fits_end
    fields-Fit block (field k v fs) =
        bind-OnSome (Fits (block && k == "text") v) (FieldsFit block (field k v fs))
          (render_value vformat settings ctx (block && k == "text") v) _
          (value-Fits (block && k == "text") v)
          (λ w h.
            bind-OnSome (FieldsFit block fs) (FieldsFit block (field k v fs))
              (rendered_fields vformat settings ctx block fs) _ (fields-Fit block fs)
              (λ gs hs. fits_field k h hs))

    items-Fit : (vs : Items) → OnSome (ItemsFit vs) (rendered_items vformat settings ctx vs)
    items-Fit nil = fits_nil
    items-Fit (cons v vs) =
        bind-OnSome (Fits false v) (ItemsFit (cons v vs))
          (render_value vformat settings ctx false v) _ (value-Fits false v)
          (λ w h.
            bind-OnSome (ItemsFit vs) (ItemsFit (cons v vs))
              (rendered_items vformat settings ctx vs) _ (items-Fit vs) (λ ws hs. fits_cons h hs))

-- A rendered payload has the shape of its template, with the same keys, and everything that is no
-- text as it was; and each text in it that is the "text" of a block text object of the template has
-- at most 2913 characters, whatever the run's state holds and the meta-LLM answers.
pub render_value-Fits :
    (vformat : Formatter) (settings : Option Summarizer) (ctx : State) (template payload : Value)
    → render_value vformat settings ctx false template ≡ some payload
    → Fits false template payload
render_value-Fits vformat settings ctx template payload e =
    OnSome-elim (Fits false template) (render_value vformat settings ctx false template) payload
      (value-Fits vformat settings ctx false template) e
