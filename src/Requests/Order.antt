-- ===== src/Requests/Order.antt =====
-- components/cn105/request_scheduler.cpp: which request comes next.
use mitsubishi_cn105esphome.Prelude.{
  ℕ, zero, suc, ◌+◌, ◌≤◌, ◌<◌, ◌≡◌, refl, sym, ap, ◌∙◌, ◌≢◌, inl, inr, true, false, Option, none,
  some, List, [], ◌∷◌, arith, All, drop, subst, length, if◌then◌else◌, Bool-cases,
}
use mathlib.Core.Option.{some-injective}
use mitsubishi_cn105esphome.Requests.{
  InfoRequest, RequestScheduler, Event, try_send, send_request, skipped, request_at, scan,
  start_after, send_next_after, update_first, refuses,
}

abbrev pub NoRepeat : List ℕ → Type 0
NoRepeat [] = Unit
NoRepeat (c ∷ cs) = All (λ d. d ≢ c) cs × NoRepeat cs

module _ {C : Type 0} where
  abbrev pub codes : List (InfoRequest C) → List ℕ
  codes [] = []
  codes (r ∷ rs) = r.code ∷ codes rs

  pub length-codes : (rs : List (InfoRequest C)) → length (codes rs) ≡ length rs
  length-codes [] = refl
  length-codes (r ∷ rs) = ap suc (length-codes rs)

  -- Sending keeps the queue and its order.
  pub try_send-codes :
      (c : C) (now code : ℕ) (rs : List (InfoRequest C))
      → codes (try_send c now code rs).0 ≡ codes rs
  unfolding try_send
  try_send-codes c now code [] = refl
  try_send-codes c now code (r ∷ rs) = ground (arith, try_send-codes c now code rs)

  pub update_first-codes :
      (code : ℕ) (f : InfoRequest C → InfoRequest C) (rs : List (InfoRequest C))
      → ((r : InfoRequest C) → (f r).code ≡ r.code)
      → codes (update_first code f rs) ≡ codes rs
  unfolding update_first
  update_first-codes code f [] h = refl
  update_first-codes code f (r ∷ rs) h = ground (arith, h r, update_first-codes code f rs h)

  -- No two requests have one code.
  abbrev pub Distinct : List (InfoRequest C) → Type 0
  Distinct rs = NoRepeat (codes rs)

  pub at_satisfies :
      (P : ℕ → Type 0) (rs : List (InfoRequest C)) (i : ℕ) (r : InfoRequest C)
      → All P (codes rs)
      → request_at rs i ≡ some r
      → P r.code
  at_satisfies P [] i r h e = cc
  at_satisfies P (x ∷ rs) zero r h e = subst (λ q. P q.code) (some-injective _ _ e) h.0
  at_satisfies P (x ∷ rs) (suc i) r h e = at_satisfies P rs i r h.1 e

  -- A request that is enabled and not refused is sent when its code is asked for.
  try_send_ready :
      (c : C) (now : ℕ) (rs : List (InfoRequest C)) (i : ℕ) (r : InfoRequest C)
      → Distinct rs
      → request_at rs i ≡ some r
      → r.disabled ≡ false
      → refuses r.can_send c ≡ false
      → (try_send c now r.code rs).1 ≡ true
  unfolding try_send
  try_send_ready c now [] i r d e a b = cc
  try_send_ready c now (x ∷ rs) zero r d e a b =
      subst (λ q. (try_send c now q.code (x ∷ rs)).1 ≡ true) same_request first
    where
      same_request : x ≡ r
      same_request = some-injective _ _ e

      first : (try_send c now x.code (x ∷ rs)).1 ≡ true
      first = ground (
        arith,
        ap (λ q. q.disabled) same_request ∙ a,
        ap (λ q. refuses q.can_send c) same_request ∙ b,
      )
  try_send_ready c now (x ∷ rs) (suc i) r d e a b =
      ground
        (arith, at_satisfies (λ d. d ≢ x.code) rs i r d.0 e, try_send_ready c now rs i r d.1 e a b)

  -- The first request of a list that none of the tests skips.
  unfoldable pub first_ready : C → ℕ → List (InfoRequest C) → Option (InfoRequest C)
  unfolding skipped
  first_ready c now [] = none
  first_ready c now (r ∷ rs) = if skipped c now r then first_ready c now rs else some r

  -- What is to happen next, by that request.
  abbrev pub event_of : Option (InfoRequest C) → Event
  event_of none = Event.terminate
  event_of (some r) = Event.send r.code

  drop_at :
      (rs : List (InfoRequest C)) (i : ℕ) (r : InfoRequest C)
      → request_at rs i ≡ some r
      → drop i rs ≡ r ∷ drop (suc i) rs
  drop_at [] i r e = cc
  drop_at (x ∷ rs) zero r e = ap (λ q. q ∷ rs) (some-injective _ _ e)
  drop_at (x ∷ rs) (suc i) r e = drop_at rs i r e

  at_within :
      (rs : List (InfoRequest C)) (i : ℕ)
      → i < length rs
      → (r : InfoRequest C) × (request_at rs i ≡ some r)
  at_within [] i h = elim h [ ]
  at_within (x ∷ rs) zero h = (x, refl)
  at_within (x ∷ rs) (suc i) h = at_within rs i (omega arith)

  drop_all : (rs : List (InfoRequest C)) (i : ℕ) → length rs ≤ i → drop i rs ≡ []
  drop_all [] zero h = refl
  drop_all [] (suc i) h = refl
  drop_all (x ∷ rs) zero h = elim h [ ]
  drop_all (x ∷ rs) (suc i) h = drop_all rs i (omega arith)

  scan_skip :
      (now rounds i : ℕ) (s : RequestScheduler C) (r : InfoRequest C)
      → request_at s.requests i ≡ some r
      → skipped s.context now r ≡ true
      → scan now (suc rounds) i s ≡ scan now rounds (suc i) s
  unfolding scan
  scan_skip now rounds i s r found skip = ground (arith, found, skip)

  scan_send :
      (now rounds i : ℕ) (s : RequestScheduler C) (r : InfoRequest C)
      → request_at s.requests i ≡ some r
      → skipped s.context now r ≡ false
      → (send_request now s r.code).1 ≡ true
      → scan now (suc rounds) i s ≡ (send_request now s r.code).0
  unfolding scan
  scan_send now rounds i s r found ready sent = ground (arith, found, ready, sent)

  ready_flags :
      (c : C) (now : ℕ) (r : InfoRequest C)
      → skipped c now r ≡ false
      → (r.disabled ≡ false) × (refuses r.can_send c ≡ false)
  unfolding skipped
  ready_flags c now r h = ground arith

  send_request_events :
      (now code : ℕ) (s : RequestScheduler C)
      → (send_request now s code).1 ≡ true
      → ((send_request now s code).0.events ≡ Event.send code ∷ s.events)
        × (codes (send_request now s code).0.requests ≡ codes s.requests)
  unfolding send_request
  send_request_events now code s h =
      (ground (arith, h), try_send-codes s.context now code s.requests)

  first_ready_step :
      (c : C) (now i : ℕ) (rs : List (InfoRequest C)) (r : InfoRequest C)
      → request_at rs i ≡ some r
      → first_ready c now (drop i rs)
        ≡ (if skipped c now r then first_ready c now (drop (suc i) rs) else some r)
  unfolding first_ready
  first_ready_step c now i rs r found = ap (first_ready c now) (drop_at rs i r found)

  first_ready_skip :
      (c : C) (now i : ℕ) (rs : List (InfoRequest C)) (r : InfoRequest C)
      → request_at rs i ≡ some r
      → skipped c now r ≡ true
      → first_ready c now (drop i rs) ≡ first_ready c now (drop (suc i) rs)
  first_ready_skip c now i rs r found skip =
      first_ready_step c now i rs r found
      ∙ ap (λ b. if b then first_ready c now (drop (suc i) rs) else some r) skip

  first_ready_take :
      (c : C) (now i : ℕ) (rs : List (InfoRequest C)) (r : InfoRequest C)
      → request_at rs i ≡ some r
      → skipped c now r ≡ false
      → first_ready c now (drop i rs) ≡ some r
  first_ready_take c now i rs r found ready =
      first_ready_step c now i rs r found
      ∙ ap (λ b. if b then first_ready c now (drop (suc i) rs) else some r) ready

  -- From an index on, the scan sends the first request that is ready, and ends the cycle if there is
  -- none; the queue keeps its order.
  pub scan-first_ready :
      (now rounds i : ℕ) (s : RequestScheduler C)
      → Distinct s.requests
      → i + rounds ≡ length s.requests
      → ((scan now rounds i s).events
          ≡ event_of (first_ready s.context now (drop i s.requests)) ∷ s.events)
        × (codes (scan now rounds i s).requests ≡ codes s.requests)
  unfolding scan first_ready
  scan-first_ready now zero i s d n = (
    ap (λ rs. event_of (first_ready s.context now rs) ∷ s.events)
        (sym (drop_all s.requests i (omega arith))),
    refl,
  )
  scan-first_ready now (suc rounds) i s d n =
      let (r, found) = at_within s.requests i (omega arith) in
      elim (Bool-cases (skipped s.context now r)) [
        | inl skip ↦
            let same = scan_skip now rounds i s r found skip in
            let ih = scan-first_ready now rounds (suc i) s d (omega arith) in
            (
              ap (λ t. t.events) same
                  ∙ ih.0
                  ∙ ap (λ o. event_of o ∷ s.events)
                      (sym (first_ready_skip s.context now i s.requests r found skip)),
              ap (λ t. codes t.requests) same ∙ ih.1,
            )
        | inr ready ↦
            let flags = ready_flags s.context now r ready in
            let sent = try_send_ready s.context now s.requests i r d found flags.0 flags.1 in
            let same = scan_send now rounds i s r found ready (unfold send_request in sent) in
            let result = send_request_events now r.code s (unfold send_request in sent) in
            (
              ap (λ t. t.events) same
                  ∙ result.0
                  ∙ ap (λ o. event_of o ∷ s.events)
                      (sym (first_ready_take s.context now i s.requests r found ready)),
              ap (λ t. codes t.requests) same ∙ result.1,
            )
      ]

  start_after_le :
      (code : ℕ) (rs : List (InfoRequest C)) (i : ℕ) → start_after code rs i ≤ i + length rs
  start_after_le code [] i = omega arith
  start_after_le code (r ∷ rs) i = ground (arith, start_after_le code rs (suc i))

  -- If no two requests have one code, `send_next_after` makes exactly one call: it sends the first
  -- request behind the previous one that is enabled, not refused and due, and ends the cycle if
  -- there is none.
  pub send_next_after-first_ready :
      (now : ℕ) (s : RequestScheduler C) (previous : ℕ)
      → Distinct s.requests
      → ((send_next_after now s previous).events
          ≡ event_of
              (first_ready s.context now (drop (start_after previous s.requests 0) s.requests))
            ∷ s.events)
        × (codes (send_next_after now s previous).requests ≡ codes s.requests)
  unfolding send_next_after
  send_next_after-first_ready now s previous d =
      scan-first_ready now _ _ s d (omega (arith, start_after_le previous s.requests 0))
