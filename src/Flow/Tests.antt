-- ===== src/Flow/Tests.antt =====
-- Runs of a form's lifecycle.
use miguel_n_ai_trackflow_pr.Common.{List, [], codes, false, refl, some, ℕ, ◌++◌, ◌-◌, ◌∷◌, ◌≡◌}
use miguel_n_ai_trackflow_pr.Flow.Defs.{
  Action, edits, fields_fail, mounts, submit_fails, submits, timer_fires, unmounts,
}
use miguel_n_ai_trackflow_pr.Flow.Ends.{unmount_ends}
use miguel_n_ai_trackflow_pr.Flow.Hook.{initial, run}
use miguel_n_ai_trackflow_pr.Flow.Lifecycle.{run-initial-IsInOrder, scan}

abbrev later : ℕ → ℕ → ℕ
later a b = b - a

abbrev visit : List (Action ℕ)
visit =
    mounts 1
    ∷ edits (codes "title") 2
    ∷ submits 3
    ∷ fields_fail (codes "title" ∷ [])
    ∷ submits 5
    ∷ []

run-initial-IsInOrder_example :
    scan (some false) (run 0 later (initial 0 later) visit).log
    ≡ some (run 0 later (initial 0 later) visit).state.started
run-initial-IsInOrder_example = run-initial-IsInOrder 0 later visit

unmount_ends_example :
    scan
      (some false)
      (run 0 later
        (initial 0 later)
        (visit ++ unmounts ∷ ((submit_fails ∷ []) ++ timer_fires 9 ∷ []))).log
    ≡ some false
unmount_ends_example = unmount_ends 0 later visit (submit_fails ∷ []) 9 refl
