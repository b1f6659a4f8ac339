-- ===== src/Mongo/Memory.antt =====
-- A collection in memory, which shows that the laws of a collection can be met.
use langgraph_backend.Base.{
  String, ◌≡◌, refl, Option, none, some, List, [], ◌∷◌, ◌==◌, ◌&&◌, if◌then◌else◌, is_some, arith,
  keep,
}
use langgraph_backend.Base.Dict.{Dict, lookup, insert, remove, lookup-insert, lookup-remove}
use langgraph_backend.Mongo.{Collection, claimed}

module _ {D : Type 0} where
  abbrev pub values : Dict D → List D
  values [] = []
  values ((k, d) ∷ s) = d ∷ values s

  unfoldable pub insert_new : String → D → Dict D → Option (Dict D)
  insert_new i d s = if is_some (lookup i s) then none else some (insert i d s)

  unfoldable pub store_claimed : String → Option D → Dict D → Option D × Dict D
  store_claimed i none s = (none, s)
  store_claimed i (some d) s = (some d, insert i d s)

  pub lookup-insert_new :
      (i : String) (d : D) (s s' : Dict D)
      → insert_new i d s ≡ some s'
      → (j : String) → lookup j s' ≡ (if i == j then some d else lookup j s)
  unfolding insert_new
  lookup-insert_new i d s s' h j = ground (arith, lookup-insert i j d s)

  pub insert_new_fails :
      (i : String) (d e : D) (s : Dict D) → lookup i s ≡ some e → insert_new i d s ≡ none
  unfolding insert_new
  insert_new_fails i d e s h = ground arith

  pub store_claimed_returns : (i : String) (o : Option D) (s : Dict D) → (store_claimed i o s).0 ≡ o
  unfolding store_claimed
  store_claimed_returns i none s = refl
  store_claimed_returns i (some d) s = refl

  pub lookup-store_claimed :
      (i : String) (o : Option D) (s : Dict D) (j : String)
      → lookup j (store_claimed i o s).1 ≡ (if i == j && is_some o then o else lookup j s)
  unfolding store_claimed
  lookup-store_claimed i none s j = ground arith
  lookup-store_claimed i (some d) s j = ground (arith, lookup-insert i j d s)

unfoldable pub memory : (D : Type 0) → Collection D
unfolding insert_new store_claimed lookup insert remove
memory D = record {
  Store = Dict D;
  find_one = lookup;
  insert_one = insert_new;
  replace_one = insert;
  delete_one = remove;
  find_one_and_update = λ i p f s. store_claimed i (claimed p f (lookup i s)) s;
  find = λ p s. keep p (values s);
  find-insert = lookup-insert_new;
  insert_fails = insert_new_fails;
  find-replace = λ i d s j. lookup-insert i j d s;
  find-delete = λ i s j. lookup-remove i j s;
  update_returns = λ i p f s. store_claimed_returns i (claimed p f (lookup i s)) s;
  find-update = λ i p f s j. lookup-store_claimed i (claimed p f (lookup i s)) s j;
}
