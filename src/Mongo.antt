-- ===== src/Mongo.antt =====
-- The MongoDB collections that the repositories of app/infrastructure/persistence/mongo.py call.
-- The driver is no part of the repository, so a collection is an interface: its operations by the
-- documents' `_id`, with the documented behaviour that the code relies on as laws.
pub mod Memory
pub mod Runs
pub mod Claim
pub mod Tasks
pub mod WarmPods
use langgraph_backend.Base.{
  String, ◌≡◌, Bool, true, false, Option, none, some, List, ◌==◌, ◌&&◌, if◌then◌else◌, is_some,
}

-- What `find_one_and_update` returns and leaves behind, from the document that it finds.
abbrev pub claimed {ℓ} : {D : Type ℓ} → (D → Bool) → (D → D) → Option D → Option D
claimed p f none = none
claimed p f (some d) = if p d then some (f d) else none

pub record Collection (D : Type 0) : Type 1 where
  pub Store : Type 0
  -- find_one({"_id": id})
  pub find_one : String → Store → Option D
  -- insert_one(doc); `none` is a DuplicateKeyError
  pub insert_one : String → D → Store → Option Store
  -- replace_one({"_id": id}, doc, upsert=True)
  pub replace_one : String → D → Store → Store
  -- delete_one({"_id": id})
  pub delete_one : String → Store → Store
  -- find_one_and_update({"_id": id, **filter}, update, return_document=AFTER), in one atomic step
  pub find_one_and_update : String → (D → Bool) → (D → D) → Store → Option D × Store
  -- find(filter), in the order in which the server returns the documents
  pub find : (D → Bool) → Store → List D
  pub find-insert :
      (i : String) (d : D) (s s' : Store)
      → insert_one i d s ≡ some s'
      → (j : String) → find_one j s' ≡ (if i == j then some d else find_one j s)
  pub insert_fails :
      (i : String) (d e : D) (s : Store) → find_one i s ≡ some e → insert_one i d s ≡ none
  pub find-replace :
      (i : String) (d : D) (s : Store) (j : String)
      → find_one j (replace_one i d s) ≡ (if i == j then some d else find_one j s)
  pub find-delete :
      (i : String) (s : Store) (j : String)
      → find_one j (delete_one i s) ≡ (if i == j then none else find_one j s)
  pub update_returns :
      (i : String) (p : D → Bool) (f : D → D) (s : Store)
      → (find_one_and_update i p f s).0 ≡ claimed p f (find_one i s)
  pub find-update :
      (i : String) (p : D → Bool) (f : D → D) (s : Store) (j : String)
      → find_one j (find_one_and_update i p f s).1 ≡ (
          if i == j && is_some (claimed p f (find_one i s))
          then claimed p f (find_one i s)
          else find_one j s)
