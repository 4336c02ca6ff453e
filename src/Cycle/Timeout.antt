-- ===== src/Cycle/Timeout.antt =====
-- components/cn105/cycle_management.cpp: a cycle whose response is lost ends, and is not deferred
-- for ever.
use mitsubishi_cn105esphome.Prelude.{
  ℕ, ◌+◌, ◌*◌, ◌≤◌, ◌<◌, ◌≡◌, refl, ◌⊎◌, Bool, true, false, List, [], ◌∷◌, arith,
}
use mitsubishi_cn105esphome.Schedule.{is_cycle_starved}
use mitsubishi_cn105esphome.Cycle.{CycleManagement, check_timeout, does_cycle_time_out, defer_cycle}

-- A running cycle is ended exactly when it started more than twice the interval and a second ago,
-- as long as the clock has not wrapped since and the bound does not wrap; until then nothing
-- changes. The end clears the starvation test at that moment.
check_timeout_ends :
    (c : CycleManagement) (interval now : ℕ)
    → interval < 1000000000
    → c.cycle_running ≡ true
    → c.last_cycle_start_ms ≤ now
    → now < 4294967296
    → ((c.last_cycle_start_ms + 2 * interval + 1000 < now)
        × ((check_timeout c interval now).cycle_running ≡ false)
        × (is_cycle_starved now (check_timeout c interval now).last_cycle_end_ms interval ≡ false))
      ⊎ ((now ≤ c.last_cycle_start_ms + 2 * interval + 1000) × (check_timeout c interval now ≡ c))
unfolding check_timeout is_cycle_starved
check_timeout_ends c interval now small run order range = ground arith

-- Deferring again and again, as a stream of writes does.
pub defer_all : Bool → CycleManagement → List ℕ → CycleManagement
defer_all debug c [] = c
defer_all debug c (t ∷ ts) = defer_all debug (defer_cycle debug c t) ts

-- However often a cycle is deferred, the test for starvation and the test for a timeout give what
-- they gave before, and a running cycle still runs.
defer_all_keeps :
    (debug : Bool) (c : CycleManagement) (ts : List ℕ) (interval now : ℕ)
    → (is_cycle_starved now (defer_all debug c ts).last_cycle_end_ms interval
        ≡ is_cycle_starved now c.last_cycle_end_ms interval)
      × (does_cycle_time_out (defer_all debug c ts) interval now
          ≡ does_cycle_time_out c interval now)
      × ((defer_all debug c ts).cycle_running ≡ c.cycle_running)
unfolding defer_all defer_cycle does_cycle_time_out
defer_all_keeps debug c [] interval now = (refl, refl, refl)
defer_all_keeps debug c (t ∷ ts) interval now =
    let ih = defer_all_keeps debug (defer_cycle debug c t) ts interval now in (ih.0, ih.1, ih.2)
