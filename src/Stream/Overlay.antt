-- ===== src/Stream/Overlay.antt =====
-- `merge_out_of_band_state` of app/infrastructure/orchestration/yaml_graph.py: what agents report
-- directly to the stored run survives a rebuild of the state.
use langgraph_backend.Base.{
  String, ◌≡◌, refl, Bool, true, false, Option, none, some, [], ◌∷◌, ◌&&◌, starts_with, keep, arith,
  eq_iff,
}
use langgraph_backend.Base.Dict.{lookup, update, lookup-update}
use langgraph_backend.Value.{Value, State, truthy}

abbrev pub is_out_of_band : String → Bool
is_out_of_band k = starts_with k "_agent_progress_"

abbrev pub survives : String × Value → Bool
survives (k, v) = truthy v && is_out_of_band k

-- `fresh` is the state of the stored run, `none` where it cannot be read.
unfoldable pub merge_out_of_band_state : Option State → State → State
merge_out_of_band_state none merged = merged
merge_out_of_band_state (some fresh) merged = update merged (keep survives fresh)

lookup-keep_other :
    (fresh : State) (k : String) → is_out_of_band k ≡ false → lookup k (keep survives fresh) ≡ none
unfolding lookup
lookup-keep_other [] k h = refl
lookup-keep_other ((j, v) ∷ fresh) k h = ground (arith, eq_iff j k, lookup-keep_other fresh k h)

lookup-keep_survivor :
    (fresh : State) (k : String) (v : Value)
    → lookup k fresh ≡ some v
    → truthy v ≡ true
    → is_out_of_band k ≡ true
    → lookup k (keep survives fresh) ≡ some v
unfolding lookup
lookup-keep_survivor [] k v h t p = h
lookup-keep_survivor ((j, w) ∷ fresh) k v h t p =
    ground (arith, eq_iff j k, lookup-keep_survivor fresh k v)

-- A progress field of the stored run that is not empty wins over the rebuilt state.
pub merge_keeps_progress :
    (fresh merged : State) (k : String) (v : Value)
    → lookup k fresh ≡ some v
    → truthy v ≡ true
    → is_out_of_band k ≡ true
    → lookup k (merge_out_of_band_state (some fresh) merged) ≡ some v
unfolding merge_out_of_band_state
merge_keeps_progress fresh merged k v h t p =
    ground
      (arith, lookup-update k merged (keep survives fresh), lookup-keep_survivor fresh k v h t p)

-- Every other field is the rebuilt state's.
pub merge_keeps_others :
    (fresh : Option State) (merged : State) (k : String)
    → is_out_of_band k ≡ false
    → lookup k (merge_out_of_band_state fresh merged) ≡ lookup k merged
unfolding merge_out_of_band_state
merge_keeps_others none merged k h = refl
merge_keeps_others (some fresh) merged k h =
    ground (arith, lookup-update k merged (keep survives fresh), lookup-keep_other fresh k h)
