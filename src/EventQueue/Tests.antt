-- ===== src/EventQueue/Tests.antt =====
-- A queue of numbers.
use sim_kv.Prelude.{ℕ, ◌≡◌, refl, [], ◌∷◌, true, false, some}
use sim_kv.OrdMap.{find, erase, nat_ord}
use sim_kv.EventQueue.{Event, EventQueue, take_event, pop_heap, pop_min}

abbrev event : (time seq : ℕ) → Event ℕ
event time seq = record { time = time; seq = seq; action = 0; cancelled = false }

-- The events 1 and 2 stand at time 5; event 1 is cancelled.
abbrev queue : EventQueue ℕ
queue = record { heap = event 5 1 ∷ event 5 2 ∷ []; cancelled = (1, tt) ∷ [] }

-- The cancelled event comes out flagged, and its id is forgotten.
flagged :
    pop_min queue
    ≡ some
        (record (event 5 1) { cancelled = true }, record { heap = event 5 2 ∷ []; cancelled = [] })
unfolding pop_min pop_heap take_event find erase
flagged = refl
