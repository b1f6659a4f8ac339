-- ===== src/Examples/Repository.antt =====
-- Claims of a waiting run, and the answers of persons to it.
use langgraph_backend.Base.{◌≡◌, if◌then◌else◌}
use langgraph_backend.Mongo.Claim.{claimable, successes, successes_lem}
use langgraph_backend.Examples.{db, waiting_run, holding}

successes_lem_example :
    successes db "run-1" 3 (holding waiting_run)
    ≡ (if claimable (db.find_one "run-1" (holding waiting_run)) then 1 else 0)
successes_lem_example = successes_lem db "run-1" 2 (holding waiting_run)
