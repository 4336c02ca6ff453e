-- ===== src/Requests/Next.antt =====
-- components/cn105/request_scheduler.cpp: `send_next_after` against a description of its own.
use mitsubishi_cn105esphome.Prelude.{
  ℕ, zero, suc, ◌+◌, ◌≡◌, refl, sym, ap, ◌∙◌, ◌⊎◌, inl, inr, Bool, true, not, ◌&&◌, ◌||◌, ◌==◌, leb,
  Option, none, some, value_or, List, [], ◌∷◌, arith, drop, if◌then◌else◌, Bool-cases,
}
use mitsubishi_cn105esphome.Prelude.Word.{sub32}
use mitsubishi_cn105esphome.Requests.{
  InfoRequest, RequestScheduler, skipped, start_after, send_next_after,
}
use mitsubishi_cn105esphome.Requests.Order.{
  codes, Distinct, event_of, first_ready, send_next_after-first_ready,
}

module _ {C : Type 0} where
  -- The requests behind the first one with the code, if there is one.
  abbrev pub rest_after : ℕ → List (InfoRequest C) → Option (List (InfoRequest C))
  rest_after code [] = none
  rest_after code (r ∷ rs) = if r.code == code then some rs else rest_after code rs

  -- Those behind the previous request; all of them, if no request has its code.
  abbrev pub behind : ℕ → List (InfoRequest C) → List (InfoRequest C)
  behind previous rs = value_or (rest_after previous rs) rs

  abbrev pub allowed : Option (C → Bool) → C → Bool
  allowed none context = true
  allowed (some can_send) context = can_send context

  -- It has no interval, was never sent, or was sent an interval ago or more.
  abbrev pub is_due : ℕ → InfoRequest C → Bool
  is_due now r =
      r.interval_ms == 0
      || r.last_request_time == 0
      || leb r.interval_ms (sub32 now r.last_request_time)

  abbrev pub is_ready : C → ℕ → InfoRequest C → Bool
  is_ready context now r = not r.disabled && allowed r.can_send context && is_due now r

  abbrev pub next_ready : C → ℕ → List (InfoRequest C) → Option (InfoRequest C)
  next_ready context now [] = none
  next_ready context now (r ∷ rs) =
      if is_ready context now r then some r else next_ready context now rs

  skipped-is_ready :
      (c : C) (now : ℕ) (r : InfoRequest C) (o : Option (C → Bool))
      → r.can_send ≡ o
      → skipped c now r ≡ not (is_ready c now r)
  unfolding skipped
  skipped-is_ready c now r none e = ground (arith, e)
  skipped-is_ready c now r (some f) e = ground (arith, e)

  first_ready-next_ready :
      (c : C) (now : ℕ) (rs : List (InfoRequest C)) → first_ready c now rs ≡ next_ready c now rs
  unfolding first_ready
  first_ready-next_ready c now [] = refl
  first_ready-next_ready c now (r ∷ rs) =
      ground (arith, skipped-is_ready c now r r.can_send refl, first_ready-next_ready c now rs)

  -- Where `start_after` points.
  abbrev Points : ℕ → List (InfoRequest C) → ℕ → Type 0
  Points code rs i =
      ((rest_after code rs ≡ none) × (start_after code rs i ≡ 0))
      ⊎ ((k : ℕ) × (rest_after code rs ≡ some (drop (suc k) rs))
          × (start_after code rs i ≡ suc (i + k)))

  start_after-Points : (code : ℕ) (rs : List (InfoRequest C)) (i : ℕ) → Points code rs i
  start_after-Points code [] i = inl (refl, refl)
  start_after-Points code (r ∷ rs) i = elim (Bool-cases (r.code == code)) [
    | inl here ↦ inr (zero, rw here refl, rw here (omega arith))
    | inr other ↦ elim (start_after-Points code rs (suc i)) [
      | inl (nothing, first) ↦ inl (rw other nothing, rw other first)
      | inr (k, rest, start) ↦ inr (suc k, rw other rest, rw other (omega (arith, start)))
    ]
  ]

  drop-start_after :
      (code : ℕ) (rs : List (InfoRequest C)) → drop (start_after code rs 0) rs ≡ behind code rs
  drop-start_after code rs = elim (start_after-Points code rs 0) [
    | inl (nothing, first) ↦ ap (λ n. drop n rs) first ∙ ap (λ o. value_or o rs) (sym nothing)
    | inr (k, rest, start) ↦
        ap (λ n. drop n rs) (start_of k start) ∙ ap (λ o. value_or o rs) (sym rest)
  ]
    where
      start_of : (k : ℕ) → start_after code rs 0 ≡ suc (0 + k) → start_after code rs 0 ≡ suc k
      start_of k start = omega (arith, start)

  -- If no two requests have one code, `send_next_after` makes exactly one call: it sends the first request
  -- behind the previous one, or of the whole queue if no request has its code, that is enabled, that its
  -- condition does not refuse, and that has no interval, was never sent, or was sent an interval ago or more;
  -- it ends the cycle if there is none. The queue keeps its order.
  pub send_next_after-next_ready :
      (now : ℕ) (s : RequestScheduler C) (previous : ℕ)
      → Distinct s.requests
      → ((send_next_after now s previous).events
          ≡ event_of (next_ready s.context now (behind previous s.requests)) ∷ s.events)
        × (codes (send_next_after now s previous).requests ≡ codes s.requests)
  send_next_after-next_ready now s previous d =
      let (sent, kept) = send_next_after-first_ready now s previous d in
      (
        sent
            ∙ ap (λ rs. event_of (first_ready s.context now rs) ∷ s.events)
                (drop-start_after previous s.requests)
            ∙ ap (λ o. event_of o ∷ s.events)
                (first_ready-next_ready s.context now (behind previous s.requests)),
        kept,
      )
