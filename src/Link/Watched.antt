-- ===== src/Link/Watched.antt =====
-- cn105.cpp and hp_writings.cpp: the waits of the connection and their timers, and that a reconnection, a
-- write and the retry of a write leave no wait without its timer.
use mitsubishi_cn105esphome.Prelude.{
  ℕ, ◌≡◌, refl, sym, ap, subst, Bool, true, false, not, ◌&&◌, ◌||◌, Option, none, some, List,
  Bool-cases, inl, inr, if◌then◌else◌, length, ltb, arith,
}
use mitsubishi_cn105esphome.Link.{
  DriverState, Pending, Link, is_uart_ready, reconnect_uart, queue_packet, write_packet,
  write_retry_fires,
}
use mitsubishi_cn105esphome.Link.Fuel.{
  dropped, prepared, asked, restarted, can_start, reconnect_uart-asked, reconnect_uart-idle,
  write_packet-cases,
}

abbrev pub is_armed : Option ℕ → Bool
is_armed none = false
is_armed (some t) = true

-- Waiting for WiFi or for the grace delay.
abbrev pub is_starting : DriverState → Bool
is_starting DriverState.wait_wifi = true
is_starting DriverState.wait_grace = true
is_starting _ = false

-- The line is open and the unit has not answered.
abbrev pub is_awaiting : DriverState → Bool
is_awaiting DriverState.connecting = true
is_awaiting DriverState.disconnected = true
is_awaiting _ = false

abbrev pub packet_watched : Option Pending → Option ℕ → Bool
packet_watched none t = true
packet_watched (some p) t = not (ltb 22 (length p.packet)) && is_armed t

abbrev pub RetryWatched : Link → Type 0
RetryWatched l = not l.uart_retry_pending || is_armed l.retry_uart_setup ≡ true

abbrev pub StartWatched : Link → Type 0
StartWatched l = not (l.serial_8e1 && is_starting l.state) || is_armed l.bootstrap_timeout ≡ true

abbrev pub PacketWatched : Link → Type 0
PacketWatched l = packet_watched l.pending l.write_retry ≡ true

abbrev ReplyWatched : Link → Type 0
ReplyWatched l = not (is_awaiting l.state) || is_armed l.check_first_connection ≡ true

abbrev LineWatched : Link → Type 0
LineWatched l = ReplyWatched l × RetryWatched l × StartWatched l

-- A link that awaits an answer has the check armed; one that backs off has the retry armed; one that is
-- starting on a port that can be opened has the bootstrap timeout armed; a packet that waits fits its
-- buffer and has the retry of the write armed.
abbrev pub IsAttended : Link → Type 0
IsAttended l = LineWatched l × PacketWatched l

pub or_true : (b : Bool) → b || true ≡ true
or_true true = refl
or_true false = refl

-- Bringing the line up ends the wait for it.
pub start_prepared :
    (b armed : Bool) (s : DriverState) → not (b && is_starting (prepared b s)) || armed ≡ true
start_prepared true armed s = refl
start_prepared false armed s = refl

start_dropped :
    (b armed : Bool) (s : DriverState)
    → not (b && is_starting s) || armed ≡ true
    → not (b && is_starting (dropped s)) || armed ≡ true
start_dropped b armed DriverState.connected h = ground arith
start_dropped b armed DriverState.boot h = h
start_dropped b armed DriverState.wait_wifi h = h
start_dropped b armed DriverState.wait_grace h = h
start_dropped b armed DriverState.connecting h = h
start_dropped b armed DriverState.disconnected h = h

pub asked-LineWatched :
    (now : ℕ) (l : Link) → RetryWatched l → StartWatched l → LineWatched (asked now l)
asked-LineWatched now l r s = (
  or_true (not (is_awaiting (dropped l.state))),
  r,
  start_dropped l.serial_8e1 (is_armed l.bootstrap_timeout) l.state s,
)

idle_dropped :
    (b armed : Bool) (s : DriverState)
    → b || is_uart_ready s ≡ false
    → not (is_awaiting (prepared b (prepared b (dropped s)))) || armed ≡ true
idle_dropped true armed s h = cc
idle_dropped false armed DriverState.boot h = refl
idle_dropped false armed DriverState.wait_wifi h = refl
idle_dropped false armed DriverState.wait_grace h = refl
idle_dropped false armed DriverState.connecting h = cc
idle_dropped false armed DriverState.connected h = cc
idle_dropped false armed DriverState.disconnected h = cc

-- Whatever waited for an answer before, a reconnection leaves a watched line.
pub reconnect_uart-LineWatched :
    (now : ℕ) (l : Link) → RetryWatched l → LineWatched (reconnect_uart now l)
reconnect_uart-LineWatched now l r = elim (Bool-cases (can_start l)) [
  | inl h ↦ subst LineWatched (sym (reconnect_uart-asked now l h)) (
      asked-LineWatched now (restarted now l) r
        (start_prepared l.serial_8e1 (is_armed l.bootstrap_timeout) (dropped l.state)))
  | inr h ↦ subst LineWatched (sym (reconnect_uart-idle now l h)) (
    idle_dropped l.serial_8e1 (is_armed l.check_first_connection) l.state h,
    r,
    start_prepared l.serial_8e1 (is_armed l.bootstrap_timeout)
        (prepared l.serial_8e1 (dropped l.state)),
  )
]

pub reconnect_uart-kept :
    (now : ℕ) (l : Link)
    → ((reconnect_uart now l).pending ≡ l.pending)
      × ((reconnect_uart now l).write_retry ≡ l.write_retry)
reconnect_uart-kept now l = elim (Bool-cases (can_start l)) [
  | inl h ↦ (
    ap (λ (m : Link). m.pending) (reconnect_uart-asked now l h),
    ap (λ (m : Link). m.write_retry) (reconnect_uart-asked now l h),
  )
  | inr h ↦ (
    ap (λ (m : Link). m.pending) (reconnect_uart-idle now l h),
    ap (λ (m : Link). m.write_retry) (reconnect_uart-idle now l h),
  )
]

pub reconnect_uart-IsAttended :
    (now : ℕ) (l : Link) → IsAttended l → IsAttended (reconnect_uart now l)
reconnect_uart-IsAttended now l ((w, r, s), q) = (
  reconnect_uart-LineWatched now l r,
  rw ((reconnect_uart-kept now l).0, (reconnect_uart-kept now l).1) q,
)

-- A packet that fits is watched, whatever was pending.
queue_packet-fits :
    (now : ℕ) (p : List ℕ) (check : Bool) (l : Link)
    → ltb 22 (length p) ≡ false
    → LineWatched l
    → IsAttended (queue_packet now p check l)
unfolding queue_packet
queue_packet-fits now p check l h w = rw h (w, rw h refl)

queue_packet-IsAttended :
    (now : ℕ) (p : List ℕ) (check : Bool) (l : Link)
    → IsAttended l
    → IsAttended (queue_packet now p check l)
unfolding queue_packet
queue_packet-IsAttended now p check l a = elim (Bool-cases (ltb 22 (length p))) [
  | inl h ↦ rw h a
  | inr h ↦ queue_packet-fits now p check l h a.0
]

pub write_packet-IsAttended :
    (now : ℕ) (p : List ℕ) (check : Bool) (l : Link)
    → IsAttended l
    → IsAttended (write_packet now p check l).0
write_packet-IsAttended now p check l a = elim (write_packet-cases now p check l) [
  | inl h ↦ subst (λ r. IsAttended r.0) (sym h.1) a
  | inr h ↦
      subst (λ r. IsAttended r.0) (sym h)
        (queue_packet-IsAttended now p check (reconnect_uart now l)
          (reconnect_uart-IsAttended now l a))
]

-- A packet that waits is kept, with its timer, until it is written.
abbrev pub retried : Link × Bool → Link
retried r = if r.1 then record r.0 { pending = none } else r.0

write_packet-retried :
    (now : ℕ) (p : List ℕ) (check : Bool) (l : Link)
    → ltb 22 (length p) ≡ false
    → LineWatched l
    → IsAttended (retried (write_packet now p check l))
write_packet-retried now p check l h w = elim (write_packet-cases now p check l) [
  | inl e ↦ subst (λ r. IsAttended (retried r)) (sym e.1) (w, refl)
  | inr e ↦
      subst (λ r. IsAttended (retried r)) (sym e)
        (queue_packet-fits now p check (reconnect_uart now l) h
          (reconnect_uart-LineWatched now l w.1))
]

pub fits : (b armed : Bool) → not b && armed ≡ true → b ≡ false
fits b armed h = ground arith

pub write_retry_fires-IsAttended :
    (now : ℕ) (l : Link) → IsAttended l → IsAttended (write_retry_fires now l)
unfolding write_retry_fires
write_retry_fires-IsAttended now l a = by_pending l.pending a
  where
    by_pending :
        (o : Option Pending)
        → IsAttended (record l { pending = o })
        → IsAttended (write_retry_fires now (record l { pending = o }))
    by_pending none a = (a.0, refl)
    by_pending (some p) a =
        let fired : Link = record l { pending = some p; write_retry = none } in
        let short : ltb 22 (length p.packet) ≡ false =
          fits (ltb 22 (length p.packet)) (is_armed l.write_retry) a.1 in
        elim (Bool-cases (is_uart_ready l.state)) [
          | inl h ↦ rw h (write_packet-retried now p.packet p.check_is_active fired short a.0)
          | inr h ↦ rw h (
            reconnect_uart-LineWatched now fired a.0.1,
            rw (reconnect_uart-kept now fired).0 (rw short refl),
          )
        ]
