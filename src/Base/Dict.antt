-- ===== src/Base/Dict.antt =====
-- Python's `dict` with text keys: an association list in insertion order. A write keeps the place
-- of an old key and puts a new one last, as CPython does.
use Prim.Native.String.{String}
use mathlib.Core.Path.{◌≡◌, refl, ap}
use mathlib.Core.Bool.{Bool}
use mathlib.Core.Option.{Option, none, some}
use mathlib.Core.List.{List, [], ◌∷◌}
use native.Mathlib.Omega.{arith}
use text.Mathlib.TextEquality.{eq_iff}
use langgraph_backend.Base.Lists.{keep}
use langgraph_backend.Base.Flow.{◌==◌, if◌then◌else◌, get_or, or_else, is_some}

abbrev pub Dict {ℓ} : Type ℓ → Type ℓ
Dict V = List (String × V)

module _ {ℓ} {V : Type ℓ} where
  -- d.get(k)
  unfoldable pub lookup : String → Dict V → Option V
  lookup k [] = none
  lookup k ((j, v) ∷ d) = if j == k then some v else lookup k d

  -- d[k] = v
  unfoldable pub insert : String → V → Dict V → Dict V
  insert k v [] = (k, v) ∷ []
  insert k v ((j, w) ∷ d) = if j == k then (j, v) ∷ d else (j, w) ∷ insert k v d

  -- d.pop(k, None)
  unfoldable pub remove : String → Dict V → Dict V
  remove k [] = []
  remove k ((j, v) ∷ d) = let rest = remove k d in if j == k then rest else (j, v) ∷ rest

  -- {**a, **b}
  unfoldable pub update : Dict V → Dict V → Dict V
  update [] b = b
  update ((k, v) ∷ a) b = (k, get_or (lookup k b) v) ∷ update a (remove k b)

  -- k in d
  abbrev pub has_key : String → Dict V → Bool
  has_key k d = is_some (lookup k d)

  -- d.setdefault(k, v)
  unfoldable pub set_default : String → V → Dict V → Dict V
  set_default k v d = elim (lookup k d) [ none ↦ insert k v d | some _ ↦ d ]

  pub lookup-single :
      (k j : String) (v : V) → lookup j ((k, v) ∷ []) ≡ (if k == j then some v else none)
  unfolding lookup
  lookup-single k j v = refl

  pub lookup-insert :
      (k j : String) (v : V) (d : Dict V)
      → lookup j (insert k v d) ≡ (if k == j then some v else lookup j d)
  unfolding lookup insert
  lookup-insert k j v [] = refl
  lookup-insert k j v ((i, w) ∷ d) =
      ground (arith, eq_iff k j, eq_iff i k, eq_iff i j, lookup-insert k j v d)

  pub lookup-inserted : (k : String) (v : V) (d : Dict V) → lookup k (insert k v d) ≡ some v
  lookup-inserted k v d = ground (arith, lookup-insert k k v d, eq_iff k k)

  pub lookup-remove :
      (k j : String) (d : Dict V) → lookup j (remove k d) ≡ (if k == j then none else lookup j d)
  unfolding lookup remove
  lookup-remove k j [] = ground arith
  lookup-remove k j ((i, w) ∷ d) =
      ground (arith, eq_iff k j, eq_iff i k, eq_iff i j, lookup-remove k j d)

  pub lookup-update :
      (j : String) (a b : Dict V) → lookup j (update a b) ≡ or_else (lookup j b) (lookup j a)
  unfolding lookup update
  lookup-update j [] b = ground arith
  lookup-update j ((k, v) ∷ a) b =
      ground (arith, eq_iff k j, lookup-update j a (remove k b), lookup-remove k j b)

  pub lookup-set_default :
      (k j : String) (v : V) (d : Dict V)
      → lookup j (set_default k v d) ≡ or_else (lookup j d) (if k == j then some v else none)
  unfolding set_default
  lookup-set_default k j v d = ground (arith, lookup-insert k j v d, eq_iff k j)

  -- {k: v for k, v in d.items() if p(k)}, by a test of items that reads the key alone
  pub lookup-keep :
      (q : String × V → Bool) (p : String → Bool)
      → ((j : String) (v : V) → q (j, v) ≡ p j)
      → (d : Dict V) (k : String) → lookup k (keep q d) ≡ (if p k then lookup k d else none)
  unfolding lookup
  lookup-keep q p e [] k = ground arith
  lookup-keep q p e ((j, v) ∷ d) k = ground (arith, e j v, eq_iff j k, lookup-keep q p e d k, ap p)

pub ruleset dict_laws =
    (lookup-single, lookup-insert, lookup-remove, lookup-update, lookup-set_default)
