-- ===== src/Value.antt =====
-- The values of Python that a graph state holds: what JSON, YAML and the checkpointer carry.
-- A float stands by the 64 bits of its IEEE form; what adds or parses floats is a parameter.
use langgraph_backend.Base.{
  ℕ, String, ◌≡◌, refl, ap, Bool, true, false, not, Option, none, some, List, [], ◌∷◌, ◌==◌, nat_eq,
  ◌||◌, get_or,
}
use langgraph_backend.Base.Dict.{Dict, lookup}
use langgraph_backend.Base.Int.{ℤ, pos, negsuc}

mutual
  pub data Value : Type 0 where
    null : Value
    flag : Bool → Value
    int : ℤ → Value
    float : ℕ → Value
    text : String → Value
    array : Items → Value
    object : Fields → Value

  pub data Items : Type 0 where
    nil : Items
    cons : Value → Items → Items

  pub data Fields : Type 0 where
    end : Fields
    field : String → Value → Fields → Fields

-- A state of a graph, and the update that a node returns.
abbrev pub State : Type 0
State = Dict Value

abbrev pub entries : Fields → State
entries end = []
entries (field k v fs) = (k, v) ∷ entries fs

abbrev pub fields : State → Fields
fields [] = end
fields ((k, v) ∷ d) = field k v (fields d)

abbrev pub elements : Items → List Value
elements nil = []
elements (cons v vs) = v ∷ elements vs

abbrev pub items : List Value → Items
items [] = nil
items (v ∷ vs) = cons v (items vs)

pub entries-fields : (d : State) → entries (fields d) ≡ d
entries-fields [] = refl
entries-fields ((k, v) ∷ d) = ap (λ (t : State). (k, v) ∷ t) (entries-fields d)

abbrev pub record_of : State → Value
record_of d = object (fields d)

abbrev pub is_zero : ℤ → Bool
is_zero (pos n) = nat_eq n 0
is_zero (negsuc n) = false

-- bool(v); a float is falsy at 0.0 and at -0.0.
abbrev pub truthy : Value → Bool
truthy null = false
truthy (flag b) = b
truthy (int i) = not (is_zero i)
truthy (float b) = not (nat_eq b 0 || nat_eq b 0x8000000000000000)
truthy (text s) = not (s == "")
truthy (array nil) = false
truthy (array (cons v vs)) = true
truthy (object end) = false
truthy (object (field k v fs)) = true

-- v is None
abbrev pub is_none : Value → Bool
is_none null = true
is_none _ = false

-- isinstance(v, dict), with the dict
abbrev pub as_dict : Value → Option State
as_dict (object fs) = some (entries fs)
as_dict _ = none

-- v == s for a text s
abbrev pub is_text : String → Value → Bool
is_text s (text t) = t == s
is_text s _ = false

-- d.get(k), which is None where the key is missing
abbrev pub get : String → State → Value
get k d = get_or (lookup k d) null

-- dict(v or {})
abbrev pub dict_or_empty : Value → State
dict_or_empty v = get_or (as_dict v) []

-- list(v or [])
abbrev pub list_or_empty : Value → List Value
list_or_empty (array vs) = elements vs
list_or_empty _ = []
