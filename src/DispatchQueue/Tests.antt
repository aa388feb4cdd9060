-- ===== src/DispatchQueue/Tests.antt =====
-- A queue of numbers.
use sim_kv.Prelude.{ℕ, ◌≡◌, refl, List, [], ◌∷◌, some, true, false, arith}
use sim_kv.DispatchQueue.{
  DispatchQueue, Call, posts, stops, post, stop, call, call_all, drain, wait_and_drain, run_once,
}
use sim_kv.DispatchQueue.Once.{RanOnce, run_once_lem}

abbrev one_queued : DispatchQueue ℕ
one_queued = record { q = 1 ∷ []; stopped = false }

-- Closure 1 posts 2; during the wait another thread posts 3, stops the queue and posts 4.
abbrev while_running : List (List (Call ℕ))
while_running = (posts 2 ∷ []) ∷ []

abbrev while_waiting : List (Call ℕ)
while_waiting = posts 3 ∷ stops ∷ posts 4 ∷ []

run_of_three :
    run_once 6 while_running while_waiting one_queued
    ≡ some (record {
      ran = 1 ∷ 2 ∷ 3 ∷ [];
      calls_left = [];
      queue = record { q = []; stopped = true };
    })
unfolding run_once wait_and_drain drain call_all call post stop
run_of_three = refl

run_once_lem_example :
    RanOnce while_running while_waiting one_queued
      (run_once 6 while_running while_waiting one_queued)
run_once_lem_example = run_once_lem 6 while_running while_waiting one_queued (omega arith)
