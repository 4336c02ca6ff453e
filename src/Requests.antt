-- ===== src/Requests.antt =====
-- components/cn105/info_request.h, request_scheduler.h and request_scheduler.cpp: the queue of the
-- INFO requests of a cycle. The strings of a request serve the log only and are left out. The
-- component gives the constructor all three callbacks, and the context is never null: `context`.
-- What the send and terminate callbacks are called with is `events`, newest first. The handlers
-- `on_response` stand in other files and may change the whole scheduler: a parameter, by code.
pub mod Order
pub mod Next
pub mod Single
pub mod Ends
pub mod Tests
use mitsubishi_cn105esphome.Prelude.{
  ℕ, zero, suc, ◌+◌, ◌-◌, Bool, true, false, not, ◌&&◌, ◌||◌, Option, none, some, List, [], ◌∷◌,
  ◌++◌, ltb, leb, ◌==◌, if◌then◌else◌, length,
}
use mitsubishi_cn105esphome.Prelude.Word.{sub32}

pub record InfoRequest (C : Type 0) : Type 0 where
  pub code : ℕ
  pub disabled : Bool
  pub awaiting : Bool
  pub interval_ms : ℕ
  pub last_request_time : ℕ
  pub can_send : Option (C → Bool)
  pub has_on_response : Bool

pub data Event : Type 0 where
  send : ℕ → Event
  terminate : Event

pub record RequestScheduler (C : Type 0) : Type 0 where
  pub requests : List (InfoRequest C)
  pub context : C
  pub events : List Event

module _ {C : Type 0} where
  -- A request as its constructor leaves it.
  abbrev pub info_request : ℕ → ℕ → Bool → InfoRequest C
  info_request code interval_ms handled = record {
    code = code;
    disabled = false;
    awaiting = false;
    interval_ms = interval_ms;
    last_request_time = 0;
    can_send = none;
    has_on_response = handled;
  }

  unfoldable pub register_request : RequestScheduler C → InfoRequest C → RequestScheduler C
  register_request s req = record s { requests = s.requests ++ req ∷ [] }

  unfoldable pub clear_requests : RequestScheduler C → RequestScheduler C
  clear_requests s = record s { requests = [] }

  -- The loops that change the first request with the code.
  pub update_first :
      ℕ → (InfoRequest C → InfoRequest C) → List (InfoRequest C) → List (InfoRequest C)
  update_first code f [] = []
  update_first code f (r ∷ rs) = if r.code == code then f r ∷ rs else r ∷ update_first code f rs

  unfoldable pub disable_request : RequestScheduler C → ℕ → RequestScheduler C
  unfolding update_first
  disable_request s code = record s {
    requests = update_first code (λ r. record r { disabled = true }) s.requests;
  }

  unfoldable pub enable_request : RequestScheduler C → ℕ → RequestScheduler C
  unfolding update_first
  enable_request s code = record s {
    requests = update_first code (λ r. record r { disabled = false }) s.requests;
  }

  unfoldable pub timer_bypass : RequestScheduler C → ℕ → RequestScheduler C
  unfolding update_first
  timer_bypass s code = record s {
    requests = update_first code (λ r. record r { last_request_time = 0 }) s.requests;
  }

  -- `req.can_send && context && !req.can_send(*context)`.
  abbrev pub refuses : Option (C → Bool) → C → Bool
  refuses none context = false
  refuses (some f) context = not (f context)

  -- The loop of `send_request`: the requests afterwards, and whether one was sent.
  pub try_send : C → ℕ → ℕ → List (InfoRequest C) → List (InfoRequest C) × Bool
  try_send context now code [] = ([], false)
  try_send context now code (r ∷ rs) =
      let rest = try_send context now code rs in
      if not (r.code == code)
      then (r ∷ rest.0, rest.1)
      else if r.disabled
      then (r ∷ rs, false)
      else if refuses r.can_send context
      then (r ∷ rs, false)
      else (record r { awaiting = true; last_request_time = now } ∷ rs, true)

  unfoldable pub send_request : ℕ → RequestScheduler C → ℕ → RequestScheduler C × Bool
  unfolding try_send
  send_request now s code =
      let r = try_send s.context now code s.requests in
      (
        record s { requests = r.0; events = if r.1 then Event.send code ∷ s.events else s.events },
        r.1,
      )

  abbrev pub with_code : ℕ → List (InfoRequest C) → Bool
  with_code code [] = false
  with_code code (r ∷ rs) = r.code == code || with_code code rs

  -- The tests of the loop of `send_next_after` that skip a request.
  pub skipped : C → ℕ → InfoRequest C → Bool
  skipped context now r =
      r.disabled
      || refuses r.can_send context
      || (ltb 0 r.interval_ms
          && ltb (sub32 now r.last_request_time) r.interval_ms
          && ltb 0 r.last_request_time)

  abbrev pub request_at : List (InfoRequest C) → ℕ → Option (InfoRequest C)
  request_at [] i = none
  request_at (r ∷ rs) zero = some r
  request_at (r ∷ rs) (suc i) = request_at rs i

  -- The index behind the first request with the code, 0 if there is none.
  abbrev pub start_after : ℕ → List (InfoRequest C) → ℕ → ℕ
  start_after code [] i = 0
  start_after code (r ∷ rs) i = if r.code == code then suc i else start_after code rs (suc i)

  -- The loop of `send_next_after` from the index `i`, with `rounds` requests left.
  pub scan : ℕ → ℕ → ℕ → RequestScheduler C → RequestScheduler C
  unfolding skipped send_request
  scan now zero i s = record s { events = Event.terminate ∷ s.events }
  scan now (suc rounds) i s = elim (request_at s.requests i) [
    | none ↦ record s { events = Event.terminate ∷ s.events }
    | some r ↦ elim (skipped s.context now r) [
      | true ↦ scan now rounds (suc i) s
      | false ↦ elim (send_request now s r.code).1 [
        | true ↦ (send_request now s r.code).0
        | false ↦ scan now rounds (suc i) (send_request now s r.code).0
      ]
    ]
  ]

  unfoldable pub send_next_after : ℕ → RequestScheduler C → ℕ → RequestScheduler C
  unfolding scan
  send_next_after now s previous_code =
      let i = start_after previous_code s.requests 0 in scan now (length s.requests - i) i s

  module _ (on_response : ℕ → RequestScheduler C → RequestScheduler C) where
    -- Whether the first request with the code has a handler.
    abbrev pub handled_by : ℕ → List (InfoRequest C) → Bool
    handled_by code [] = false
    handled_by code (r ∷ rs) = if r.code == code then r.has_on_response else handled_by code rs

    unfoldable pub mark_response_seen : RequestScheduler C → ℕ → RequestScheduler C
    unfolding update_first
    mark_response_seen s code =
        let t = record s {
          requests = update_first code (λ r. record r { awaiting = false }) s.requests;
        } in
        if handled_by code s.requests then on_response code t else t

    unfoldable pub process_response : ℕ → RequestScheduler C → ℕ → RequestScheduler C × Bool
    unfolding mark_response_seen send_next_after
    process_response now s code =
        if not (with_code code s.requests)
        then (s, false)
        else (send_next_after now (mark_response_seen s code) code, true)
