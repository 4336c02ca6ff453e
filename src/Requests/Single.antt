-- ===== src/Requests/Single.antt =====
-- components/cn105/request_scheduler.cpp: one call of `send_next_after` makes one call of a callback.
use mitsubishi_cn105esphome.Prelude.{
  ℕ, zero, suc, ◌-◌, ◌≡◌, refl, sym, subst, ap, ◌∙◌, Bool, true, false, none, some, ◌∷◌, Bool-cases,
  Option-cases, inl, inr, length, arith, if◌then◌else◌,
}
use mitsubishi_cn105esphome.Requests.{
  InfoRequest, RequestScheduler, Event, request_at, start_after, skipped, send_request, scan,
  send_next_after,
}

module _ {C : Type 0} where
  -- One event more, and the context as before.
  abbrev pub Single : RequestScheduler C → RequestScheduler C → Type 0
  Single s t = (e : Event) × (t.events ≡ e ∷ s.events) × (t.context ≡ s.context)

  -- One step of the loop, by what it finds.
  scan-none :
      (now rounds i : ℕ) (s : RequestScheduler C)
      → request_at s.requests i ≡ none
      → scan now (suc rounds) i s ≡ record s { events = Event.terminate ∷ s.events }
  unfolding scan
  scan-none now rounds i s found = ground (arith, found)

  scan-skip :
      (now rounds i : ℕ) (s : RequestScheduler C) (r : InfoRequest C)
      → request_at s.requests i ≡ some r
      → skipped s.context now r ≡ true
      → scan now (suc rounds) i s ≡ scan now rounds (suc i) s
  unfolding scan
  scan-skip now rounds i s r found skip = ground (arith, found, skip)

  scan-sent :
      (now rounds i : ℕ) (s : RequestScheduler C) (r : InfoRequest C)
      → request_at s.requests i ≡ some r
      → skipped s.context now r ≡ false
      → (send_request now s r.code).1 ≡ true
      → scan now (suc rounds) i s ≡ (send_request now s r.code).0
  unfolding scan
  scan-sent now rounds i s r found ready sent = ground (arith, found, ready, sent)

  scan-refused :
      (now rounds i : ℕ) (s : RequestScheduler C) (r : InfoRequest C)
      → request_at s.requests i ≡ some r
      → skipped s.context now r ≡ false
      → (send_request now s r.code).1 ≡ false
      → scan now (suc rounds) i s ≡ scan now rounds (suc i) (send_request now s r.code).0
  unfolding scan
  scan-refused now rounds i s r found ready refused = ground (arith, found, ready, refused)

  send_request-events :
      (now : ℕ) (s : RequestScheduler C) (code : ℕ) (b : Bool)
      → (send_request now s code).1 ≡ b
      → ((send_request now s code).0.events ≡ (if b then Event.send code ∷ s.events else s.events))
        × ((send_request now s code).0.context ≡ s.context)
  unfolding send_request
  send_request-events now s code b h =
      (ap (λ c. if c then Event.send code ∷ s.events else s.events) h, refl)

  after :
      (s t u : RequestScheduler C)
      → t.events ≡ s.events
      → t.context ≡ s.context
      → Single t u
      → Single s u
  after s t u e c (v, f, d) = (v, f ∙ ap (◌∷◌ v) e, d ∙ c)

  scan-Single : (now rounds i : ℕ) (s : RequestScheduler C) → Single s (scan now rounds i s)
  scan-Single now zero i s = unfold scan in (Event.terminate, refl, refl)
  scan-Single now (suc rounds) i s = elim (Option-cases (request_at s.requests i)) [
    | inl e ↦ subst (Single s) (sym (scan-none now rounds i s e)) (Event.terminate, refl, refl)
    | inr (r, e) ↦ elim (Bool-cases (skipped s.context now r)) [
      | inl k ↦
          subst (Single s) (sym (scan-skip now rounds i s r e k)) (scan-Single now rounds (suc i) s)
      | inr k ↦ elim (Bool-cases (send_request now s r.code).1) [
        | inl t ↦ subst (Single s) (sym (scan-sent now rounds i s r e k t)) (
          Event.send r.code,
          (send_request-events now s r.code true t).0,
          (send_request-events now s r.code true t).1,
        )
        | inr t ↦
            let u = (send_request now s r.code).0 in
            let same = send_request-events now s r.code false t in
            subst (Single s) (sym (scan-refused now rounds i s r e k t)) (
              after s u (scan now rounds (suc i) u) same.0 same.1
                (scan-Single now rounds (suc i) u))
      ]
    ]
  ]

  pub send_next_after-Single :
      (now : ℕ) (s : RequestScheduler C) (previous : ℕ) → Single s (send_next_after now s previous)
  unfolding send_next_after
  send_next_after-Single now s previous =
      let i = start_after previous s.requests 0 in scan-Single now (length s.requests - i) i s
