-- ===== src/Requests/Ends.antt =====
-- components/cn105/request_scheduler.cpp: a cycle whose requests are all answered comes to its end.
use mathlib.Core.Option.{some-injective}
use mitsubishi_cn105esphome.Prelude.{
  ℕ, zero, suc, ◌+◌, ◌≤◌, ◌<◌, ◌≡◌, refl, sym, ap, ◌∙◌, subst, ◌≢◌, ◌⊎◌, inl, inr, Bool, true,
  false, ◌||◌, not, ◌==◌, Option, none, some, List, [], ◌∷◌, arith, length, drop, if◌then◌else◌,
  Option-cases, Bool-cases,
}
use mitsubishi_cn105esphome.Requests.{
  InfoRequest, RequestScheduler, Event, request_at, start_after, with_code, handled_by,
  mark_response_seen, send_next_after, process_response, skipped, update_first,
}
use mitsubishi_cn105esphome.Requests.Order.{
  NoRepeat, codes, length-codes, Distinct, at_satisfies, update_first-codes, first_ready, event_of,
  send_next_after-first_ready,
}

-- The request that waits for its response: the last call was to send it.
abbrev pub awaited : List Event → Option ℕ
awaited [] = none
awaited (Event.send c ∷ es) = some c
awaited (Event.terminate ∷ es) = none

-- The last call was to end the cycle.
abbrev pub Ended : List Event → Type 0
Ended [] = ⊥
Ended (Event.send c ∷ es) = ⊥
Ended (Event.terminate ∷ es) = Unit

abbrev start_at : ℕ → List ℕ → ℕ → ℕ
start_at code [] i = 0
start_at code (c ∷ cs) i = if c == code then suc i else start_at code cs (suc i)

abbrev has_code : ℕ → List ℕ → Bool
has_code code [] = false
has_code code (c ∷ cs) = c == code || has_code code cs

start_at_le : (code : ℕ) (cs : List ℕ) (i : ℕ) → start_at code cs i ≤ i + length cs
start_at_le code [] i = omega arith
start_at_le code (c ∷ cs) i = ground (arith, start_at_le code cs (suc i))

Ended-awaits : (es : List Event) → Ended es → awaited es ≡ none
Ended-awaits [] h = refl
Ended-awaits (Event.send c ∷ es) h = elim h [ ]
Ended-awaits (Event.terminate ∷ es) h = refl

module _ {C : Type 0} where
  start_after-codes :
      (code : ℕ) (rs : List (InfoRequest C)) (i : ℕ)
      → start_after code rs i ≡ start_at code (codes rs) i
  start_after-codes code [] i = refl
  start_after-codes code (r ∷ rs) i =
      ap (λ n. if r.code == code then suc i else n) (start_after-codes code rs (suc i))

  with_code-codes :
      (code : ℕ) (rs : List (InfoRequest C)) → with_code code rs ≡ has_code code (codes rs)
  with_code-codes code [] = refl
  with_code-codes code (r ∷ rs) = ap (λ b. r.code == code || b) (with_code-codes code rs)

  -- In a queue without repetition the code at an index is found at that index.
  found_at :
      (rs : List (InfoRequest C)) (j i : ℕ) (r : InfoRequest C)
      → Distinct rs
      → request_at rs j ≡ some r
      → (start_at r.code (codes rs) i ≡ suc (i + j))
        × (has_code r.code (codes rs) ≡ true)
        × (j < length rs)
  found_at [] j i r d e = cc
  found_at (x ∷ rs) zero i r d e =
      let same = ap (λ q. q.code) (some-injective _ _ e) in
      (ground (arith, same), ground (arith, same), omega arith)
  found_at (x ∷ rs) (suc j) i r d e =
      let ih = found_at rs j (suc i) r d.1 e in
      let other = at_satisfies (λ c. c ≢ x.code) rs j r d.0 e in
      (ground (arith, ih.0, other), ground (arith, ih.1, other), omega (arith, ih.2))

  -- The first ready request behind an index stands at an index of the queue.
  ready_at :
      (c : C) (now k : ℕ) (rs : List (InfoRequest C)) (r : InfoRequest C)
      → first_ready c now (drop k rs) ≡ some r
      → (j : ℕ) × (k ≤ j) × (request_at rs j ≡ some r)
  unfolding first_ready
  ready_at c now zero [] r e = cc
  ready_at c now (suc k) [] r e = cc
  ready_at c now zero (x ∷ rs) r e = elim (Bool-cases (skipped c now x)) [
    | inl skip ↦
        let (j, le, at) =
          ready_at c now zero rs r
            (sym (ap (λ b. if b then first_ready c now rs else some x) skip) ∙ e) in
        (suc j, omega arith, at)
    | inr ready ↦
        (zero, omega arith, sym (ap (λ b. if b then first_ready c now rs else some x) ready) ∙ e)
  ]
  ready_at c now (suc k) (x ∷ rs) r e =
      let (j, le, at) = ready_at c now k rs r e in (suc j, omega arith, at)

  -- The handlers may differ from answer to answer, and before each answer `change` is made.
  module _ (on_response : ℕ → ℕ → RequestScheduler C → RequestScheduler C)
      (keeps_queue : (k c : ℕ) (s : RequestScheduler C)
        → codes (on_response k c s).requests ≡ codes s.requests)
      (change : ℕ → ℕ → RequestScheduler C → RequestScheduler C)
      (change-codes : (k c : ℕ) (s : RequestScheduler C)
        → codes (change k c s).requests ≡ codes s.requests) where
    -- The unit answers each request that is sent, at most `rounds` times. An answer is numbered by the
    -- rounds that are left after it.
    pub answer_all : (ℕ → ℕ) → ℕ → RequestScheduler C → RequestScheduler C
    answer_all clock zero s = s
    answer_all clock (suc rounds) s = elim (awaited s.events) [
      | none ↦ s
      | some c ↦
          answer_all clock rounds
            (process_response (on_response rounds) (clock rounds) (change rounds c s) c).0
    ]

    -- A round of `answer_all`, by the request that waits.
    abbrev answer_step : (ℕ → ℕ) → ℕ → RequestScheduler C → Option ℕ → RequestScheduler C
    answer_step clock rounds s none = s
    answer_step clock rounds s (some c) =
        answer_all clock rounds
          (process_response (on_response rounds) (clock rounds) (change rounds c s) c).0

    answer_round :
        (clock : ℕ → ℕ) (rounds : ℕ) (s : RequestScheduler C)
        → answer_step clock rounds s (awaited s.events) ≡ answer_all clock (suc rounds) s
    unfolding answer_all
    answer_round clock rounds s = elim (awaited s.events) [ none ↦ refl | some c ↦ refl ]

    mark-codes :
        (k : ℕ) (s : RequestScheduler C) (c : ℕ)
        → codes (mark_response_seen (on_response k) s c).requests ≡ codes s.requests
    unfolding mark_response_seen
    mark-codes k s c =
        let t = record s {
          requests = update_first c (λ r. record r { awaiting = false }) s.requests;
        } in
        let same =
          update_first-codes c (λ r. record r { awaiting = false }) s.requests (λ r. refl) in
        elim (Bool-cases (handled_by (on_response k) c s.requests)) [
          | inl handled ↦
              ap (λ b. codes (if b then on_response k c t else t).requests) handled
              ∙ keeps_queue k c t
              ∙ same
          | inr other ↦ ap (λ b. codes (if b then on_response k c t else t).requests) other ∙ same
        ]

    -- The last call ended the cycle or sent a request of the queue behind the index.
    abbrev Ahead : ℕ → List ℕ → List Event → Type 0
    Ahead k cs es =
        Ended es
        ⊎ ((c : ℕ) × (awaited es ≡ some c) × (has_code c cs ≡ true) × (k < start_at c cs 0))

    Ahead-of :
        (k : ℕ) (c : C) (now : ℕ) (rs : List (InfoRequest C)) (es : List Event)
        → Distinct rs
        → Ahead k (codes rs) (event_of (first_ready c now (drop k rs)) ∷ es)
    Ahead-of k c now rs es d = elim (Option-cases (first_ready c now (drop k rs))) [
      | inl nothing ↦ subst (λ o. Ahead k (codes rs) (event_of o ∷ es)) (sym nothing) (inl tt)
      | inr (r, found) ↦
          let (j, le, at) = ready_at c now k rs r found in
          let there = found_at rs j 0 r d at in
          subst (λ o. Ahead k (codes rs) (event_of o ∷ es)) (sym found)
            (inr (r.code, refl, there.1, omega (arith, there.0)))
    ]

    next-Ahead :
        (now : ℕ) (s : RequestScheduler C) (previous : ℕ)
        → Distinct s.requests
        → Ahead
            (start_after previous s.requests 0)
            (codes s.requests)
            (send_next_after now s previous).events
    next-Ahead now s previous d =
        subst (Ahead (start_after previous s.requests 0) (codes s.requests))
          (sym (send_next_after-first_ready now s previous d).0)
          (Ahead-of (start_after previous s.requests 0) s.context now s.requests s.events d)

    abbrev reply : Bool → RequestScheduler C → RequestScheduler C → RequestScheduler C × Bool
    reply b s u = if not b then (s, false) else (u, true)

    process_response-Ahead :
        (k now : ℕ) (s : RequestScheduler C) (c : ℕ)
        → Distinct s.requests
        → has_code c (codes s.requests) ≡ true
        → (codes (process_response (on_response k) now s c).0.requests ≡ codes s.requests)
          × Ahead
              (start_at c (codes s.requests) 0)
              (codes s.requests)
              (process_response (on_response k) now s c).0.events
    unfolding process_response
    process_response-Ahead k now s c d there =
        let t = mark_response_seen (on_response k) s c in
        let same = mark-codes k s c in
        let dt = subst NoRepeat (sym same) d in
        let found = with_code-codes c s.requests ∙ there in
        let next = next-Ahead now t c dt in
        let start = start_after-codes c t.requests 0 ∙ ap (λ cs. start_at c cs 0) same in
        let u = send_next_after now t c in
        subst
          (λ (w : RequestScheduler C).
            (codes w.requests ≡ codes s.requests)
            × Ahead (start_at c (codes s.requests) 0) (codes s.requests) w.events)
          (ap (λ b. (reply b s u).0) (sym found))
          (
            (send_next_after-first_ready now t c dt).1 ∙ same,
            subst (λ n. Ahead n (codes s.requests) u.events) start
                (subst (λ cs. Ahead (start_after c t.requests 0) cs u.events) same next),
          )

    answer_all-Ended :
        (clock : ℕ → ℕ) (rounds : ℕ) (s : RequestScheduler C)
        → Ended s.events
        → Ended (answer_all clock rounds s).events
    unfolding answer_all
    answer_all-Ended clock zero s h = h
    answer_all-Ended clock (suc rounds) s h =
        subst (λ (w : RequestScheduler C). Ended w.events)
          (ap (answer_step clock rounds s) (sym (Ended-awaits s.events h))
            ∙ answer_round clock rounds s)
          h

    answer_all_sent :
        (clock : ℕ → ℕ) (rounds : ℕ) (s : RequestScheduler C) (c : ℕ)
        → Distinct s.requests
        → awaited s.events ≡ some c
        → has_code c (codes s.requests) ≡ true
        → length (codes s.requests) < start_at c (codes s.requests) 0 + rounds
        → Ended (answer_all clock rounds s).events
    unfolding answer_all
    answer_all_sent clock zero s c d wait there enough =
        absurd (omega (arith, start_at_le c (codes s.requests) 0, enough))
    answer_all_sent clock (suc rounds) s c d wait there enough =
        let t = (process_response (on_response rounds) (clock rounds) (change rounds c s) c).0 in
        let changed = change rounds c s in
        let same = sym (change-codes rounds c s) in
        let (kept, ahead) =
          process_response-Ahead rounds (clock rounds) changed c (subst NoRepeat same d)
            (subst (λ cs. has_code c cs ≡ true) same there) in
        let step : (codes t.requests ≡ codes s.requests)
            × Ahead (start_at c (codes s.requests) 0) (codes s.requests) t.events =
          (
            kept ∙ change-codes rounds c s,
            subst (λ cs. Ahead (start_at c cs 0) cs t.events) (change-codes rounds c s) ahead,
          ) in
        let dt = subst NoRepeat (sym step.0) d in
        subst (λ (w : RequestScheduler C). Ended w.events)
          (ap (answer_step clock rounds s) (sym wait) ∙ answer_round clock rounds s)
          (elim step.1 [
            | inl ended ↦ answer_all-Ended clock rounds t ended
            | inr (next, asked, known, later) ↦
                answer_all_sent clock rounds t next dt asked
                  (subst (λ cs. has_code next cs ≡ true) (sym step.0) known)
                  (subst (λ cs. length cs < start_at next cs 0 + rounds) (sym step.0) (omega arith))
          ])

    -- If no two requests have one code, and the handlers, which may differ from answer to answer, and whatever
    -- else happens before an answer keep the codes of the queue, then once `send_next_after` starts a cycle
    -- and each request that is sent is answered, the terminate callback is called after at most as many
    -- answers as there are requests, whatever the clock reads.
    pub send_next_after-Ended :
        (clock : ℕ → ℕ) (now : ℕ) (s : RequestScheduler C)
        → Distinct s.requests
        → Ended (answer_all clock (length s.requests) (send_next_after now s 0)).events
    send_next_after-Ended clock now s d =
        let t = send_next_after now s 0 in
        let same = (send_next_after-first_ready now s 0 d).1 in
        let dt = subst NoRepeat (sym same) d in
        elim (next-Ahead now s 0 d) [
          | inl ended ↦ answer_all-Ended clock (length s.requests) t ended
          | inr (c, asked, known, later) ↦
              answer_all_sent clock (length s.requests) t c dt asked
                (subst (λ cs. has_code c cs ≡ true) (sym same) known)
                (subst (λ cs. length cs < start_at c cs 0 + length s.requests) (sym same)
                  (omega (arith, length-codes s.requests, later)))
        ]
