-- ===== src/Cycle/Wrap.antt =====
-- components/cn105/cycle_management.cpp and the loop of component_entries.cpp: what happens once the
-- millisecond clock has wrapped to a value below the stored time stamps.
use mitsubishi_cn105esphome.Prelude.{ℕ, ◌<◌, ◌≡◌, refl, true, List, [], ◌∷◌, arith, All}
use mitsubishi_cn105esphome.Schedule.{
  LoopAction, LoopInputs, starved, decide_loop_action, has_update_interval_passed,
}
use mitsubishi_cn105esphome.Cycle.{CycleManagement, check_timeout, cycle_started, cycle_ended}

-- What the loop does with the cycle at each of a list of times while no byte arrives.
pub check_all : CycleManagement → ℕ → List ℕ → CycleManagement
check_all c interval [] = c
check_all c interval (t ∷ ts) = check_all (check_timeout c interval t) interval ts

-- At a time below the start of the cycle no timeout is seen.
pub check_all_stuck :
    (c : CycleManagement) (interval : ℕ) (ts : List ℕ)
    → All (λ t. t < c.last_cycle_start_ms) ts
    → check_all c interval ts ≡ c
unfolding check_all check_timeout
check_all_stuck c interval [] h = refl
check_all_stuck c interval (t ∷ ts) h = ground (arith, check_all_stuck c interval ts h.1, h.0)

-- The inputs of the loop that the cycle provides.
abbrev pub with_cycle : LoopInputs → CycleManagement → ℕ → LoopInputs
with_cycle i c now = record i {
  now_ms = now;
  cycle_running = c.cycle_running;
  last_cycle_end_ms = c.last_cycle_end_ms;
  last_complete_cycle_ms = c.last_complete_cycle_ms;
}

-- A cycle that was running when the clock wrapped, and gets no response, blocks the loop: at every
-- time below its start, after any earlier such times, the loop only checks the timeout, which
-- changes nothing, whatever waits to be sent.
pub wrapped_cycle_blocks :
    (c : CycleManagement) (i : LoopInputs) (interval : ℕ) (ts : List ℕ) (now : ℕ)
    → c.cycle_running ≡ true
    → All (λ t. t < c.last_cycle_start_ms) ts
    → now < c.last_cycle_start_ms
    → (decide_loop_action (with_cycle i (check_all c interval ts) now)
        ≡ LoopAction.check_cycle_timeout)
      × (check_timeout (check_all c interval ts) interval now ≡ c)
unfolding decide_loop_action check_timeout
wrapped_cycle_blocks c i interval ts now run h l = ground (arith, check_all_stuck c interval ts h)

-- Cycles that end one after the other at the given times.
unfoldable pub end_all : CycleManagement → List ℕ → CycleManagement
end_all c [] = c
end_all c (t ∷ ts) = end_all (cycle_ended (cycle_started c t) t) ts

end_all_keeps :
    (c : CycleManagement) (k : ℕ) (ts : List ℕ)
    → c.last_complete_cycle_ms ≡ k
    → All (λ t. t < k) ts
    → (end_all c ts).last_complete_cycle_ms ≡ k
unfolding end_all cycle_ended cycle_started
end_all_keeps c k [] e h = e
end_all_keeps c k (t ∷ ts) e h =
    end_all_keeps (cycle_ended (cycle_started c t) t) k ts (ground (arith, h.0)) h.1

-- Once the clock has wrapped below the end of the last complete cycle, the update interval never
-- counts as passed again, however many cycles complete: a cycle starts only when cycles are starved.
pub wrapped_polls_only_starved :
    (c : CycleManagement) (i : LoopInputs) (ts : List ℕ) (now : ℕ)
    → All (λ t. t < c.last_complete_cycle_ms) ts
    → now < c.last_complete_cycle_ms
    → decide_loop_action (with_cycle i (end_all c ts) now) ≡ LoopAction.start_cycle
    → starved (with_cycle i (end_all c ts) now) ≡ true
unfolding decide_loop_action has_update_interval_passed
wrapped_polls_only_starved c i ts now h l e =
    ground (arith, end_all_keeps c c.last_complete_cycle_ms ts refl h)
