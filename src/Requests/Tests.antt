-- ===== src/Requests/Tests.antt =====
-- Runs of components/cn105/request_scheduler.cpp on a queue of three requests.
use mitsubishi_cn105esphome.Prelude.{ℕ, ◌≡◌, refl, Bool, true, false, not, [], ◌∷◌, arith, length}
use mitsubishi_cn105esphome.Requests.{RequestScheduler, info_request, send_next_after}
use mitsubishi_cn105esphome.Requests.Order.{codes, Distinct, event_of}
use mitsubishi_cn105esphome.Requests.Next.{behind, next_ready, send_next_after-next_ready}
use mitsubishi_cn105esphome.Requests.Ends.{Ended, answer_all, send_next_after-Ended}

-- The settings, the timers, which are disabled, and the room temperature.
abbrev three : RequestScheduler Bool
three = record {
  requests =
      info_request 0x02 0 true
      ∷ record (info_request 0x05 0 false) { disabled = true }
      ∷ info_request 0x03 0 true
      ∷ [];
  context = true;
  events = [];
}

three-Distinct : Distinct three.requests
three-Distinct = ((omega arith, (omega arith, tt)), ((omega arith, tt), (tt, tt)))

send_next_after-next_ready_example :
    ((send_next_after 5000 three 0x02).events
      ≡ event_of (next_ready three.context 5000 (behind 0x02 three.requests)) ∷ three.events)
    × (codes (send_next_after 5000 three 0x02).requests ≡ codes three.requests)
send_next_after-next_ready_example = send_next_after-next_ready 5000 three 0x02 three-Distinct

-- Handlers that leave the scheduler alone; each answer turns the context over.
abbrev no_change : ℕ → ℕ → RequestScheduler Bool → RequestScheduler Bool
no_change k code s = s

no_change-codes :
    (k c : ℕ) (s : RequestScheduler Bool) → codes (no_change k c s).requests ≡ codes s.requests
no_change-codes k c s = refl

abbrev turn : ℕ → ℕ → RequestScheduler Bool → RequestScheduler Bool
turn k code s = record s { context = not s.context }

turn-codes : (k c : ℕ) (s : RequestScheduler Bool) → codes (turn k c s).requests ≡ codes s.requests
turn-codes k c s = refl

abbrev steady : ℕ → ℕ
steady rounds = 5000

send_next_after-Ended_example :
    Ended
      (answer_all no_change no_change-codes turn turn-codes steady
        (length three.requests)
        (send_next_after 5000 three 0)).events
send_next_after-Ended_example =
    send_next_after-Ended no_change no_change-codes turn turn-codes steady 5000 three three-Distinct
