-- ===== src/Workflow/Tests/Loops.antt =====
-- The loop of passes.
use realxianyu.Base.{◌≡◌, true, [], ◌∷◌, map, arith}
use realxianyu.Workflow.Forever.{
  Loop, returned, going, run_forever, loop_of, stopped, run_forever-returned,
}

abbrev started : Loop
started = record { loops = 0; consecutive_failures = 0; last_heartbeat_ts = 0; heartbeats = [] }

run_forever-returned_example :
    let r = run_forever 2 30 (map returned (5 ∷ 10 ∷ 15 ∷ [])) (going started) in
    ((loop_of r).loops ≡ 2) × (stopped r ≡ true)
run_forever-returned_example = run_forever-returned 2 30 (5 ∷ 10 ∷ 15 ∷ []) started (omega arith)
