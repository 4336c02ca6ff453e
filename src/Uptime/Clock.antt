-- ===== src/Uptime/Clock.antt =====
-- components/cn105/uptime_connection_sensor.cpp: the sensor keeps the true time across the wraps of the
-- 32-bit clock.
use mitsubishi_cn105esphome.Prelude.{
  ℕ, ◌+◌, ◌-◌, ◌%◌, ◌≤◌, ◌<◌, ◌≡◌, refl, ap, ◌∙◌, true, false, Option, none, some, List, [], ◌∷◌,
  arith, has_value,
}
use mitsubishi_cn105esphome.Prelude.Int.{pos}
use mitsubishi_cn105esphome.Prelude.Float.{Float}
use mitsubishi_cn105esphome.Uptime.{
  HpUpTimeConnectionSensor, Call, sub64, get_uptime_ms, seconds, refresh, started, stopped, called,
  call_all,
}

-- No call is made 2 ^ 32 milliseconds or more after the one before it, and the time fits 64 bits.
abbrev pub Regular : ℕ → List (Call × ℕ) → Type 0
Regular last [] = Unit
Regular last ((c, t) ∷ cs) =
    (last ≤ t) × (t < last + 4294967296) × (t < 18446744073709551616) × Regular t cs

abbrev pub last_time : ℕ → List (Call × ℕ) → ℕ
last_time last [] = last
last_time last ((c, t) ∷ cs) = last_time t cs

-- Since when the unit has been connected.
abbrev pub since : Call → ℕ → Option ℕ → Option ℕ
since Call.update t known = known
since Call.start t known = some t
since Call.stop t known = none

abbrev pub connected_since : Option ℕ → List (Call × ℕ) → Option ℕ
connected_since known [] = known
connected_since known ((c, t) ∷ cs) = connected_since (since c t known) cs

get_uptime_ms-true :
    (last t : ℕ)
    → last ≤ t
    → t < last + 4294967296
    → t < 18446744073709551616
    → get_uptime_ms (t % 4294967296) last ≡ t
unfolding get_uptime_ms
get_uptime_ms-true last t a b c = ground arith

module _ (fl : Float) where
  open fl use {F, of_int}

  abbrev pub shown : Option ℕ → ℕ → F
  shown none now = of_int (pos 0)
  shown (some t) now = seconds fl (now - t)

  -- The sensor knows the true time, and since when the unit has been connected.
  pub record Knows (s : HpUpTimeConnectionSensor F) (now : ℕ) (known : Option ℕ) : Type 0 where
    pub time : s.uptime_accumulator ≡ now
    pub small : now < 18446744073709551616
    pub link : s.connected ≡ has_value known
    pub begin : (t : ℕ) → known ≡ some t → (s.start_time ≡ t) × (t ≤ now)

  refresh-Knows :
      (s : HpUpTimeConnectionSensor F) (last t : ℕ) (known : Option ℕ)
      → Knows s last known
      → last ≤ t
      → t < last + 4294967296
      → t < 18446744073709551616
      → let s' = refresh fl (t % 4294967296) s in Knows s' t known × (s'.published ≡ shown known t)
  unfolding refresh
  refresh-Knows s last t none k a b d = (
    record { time = true_time; small = d; link = k.link; begin = λ u e. absurd (cc) },
    rw k.link refl,
  )
    where
      true_time : get_uptime_ms (t % 4294967296) s.uptime_accumulator ≡ t
      true_time = rw k.time (get_uptime_ms-true last t a b d)
  refresh-Knows s last t (some from) k a b d = (
    record {
      time = true_time;
      small = d;
      link = k.link;
      begin = λ u e. ((k.begin u e).0, omega (arith, (k.begin u e).1));
    },
    rw k.link (
        ap (seconds fl) (
          ap (λ n. sub64 n s.start_time) true_time
          ∙ ap (sub64 t) (k.begin from refl).0
          ∙ omega (arith, (k.begin from refl).1))),
  )
    where
      true_time : get_uptime_ms (t % 4294967296) s.uptime_accumulator ≡ t
      true_time = rw k.time (get_uptime_ms-true last t a b d)

  called-Knows :
      (c : Call) (s : HpUpTimeConnectionSensor F) (last t : ℕ) (known : Option ℕ)
      → Knows s last known
      → last ≤ t
      → t < last + 4294967296
      → t < 18446744073709551616
      → let s' = called fl c (t % 4294967296) s in
        Knows s' t (since c t known) × (s'.published ≡ shown (since c t known) t)
  unfolding started stopped
  called-Knows Call.update s last t known k a b d = refresh-Knows s last t known k a b d
  called-Knows Call.start s last t known k a b d =
      refresh-Knows (record s { uptime_accumulator = now; start_time = now; connected = true }) t t
        (some t)
        (record {
          time = true_time;
          small = d;
          link = refl;
          begin = λ u e. (true_time ∙ same u e, omega (arith, same u e));
        })
        (omega arith) (omega arith) d
    where
      now : ℕ
      now = get_uptime_ms (t % 4294967296) s.uptime_accumulator

      true_time : get_uptime_ms (t % 4294967296) s.uptime_accumulator ≡ t
      true_time = rw k.time (get_uptime_ms-true last t a b d)

      same : (u : ℕ) → some t ≡ some u → t ≡ u
      same u e = cc
  called-Knows Call.stop s last t known k a b d =
      refresh-Knows (record s { connected = false }) last t none
        (record { time = k.time; small = k.small; link = refl; begin = λ u e. absurd (cc) }) a b d

  -- Whatever calls follow each other, each less than 2 ^ 32 milliseconds after the one before it and as long
  -- as the time fits 64 bits, the accumulator is the true time, and after the last call the sensor shows for
  -- how many seconds the unit has been connected since the last start, or 0 if it has been stopped since.
  pub call_all-Knows :
      (c : Call) (t : ℕ) (cs : List (Call × ℕ)) (s : HpUpTimeConnectionSensor F) (last : ℕ)
      (known : Option ℕ)
      → Knows s last known
      → Regular last ((c, t) ∷ cs)
      → let all = (c, t) ∷ cs in
        let s' = call_all fl all s in
        Knows s' (last_time last all) (connected_since known all)
        × (s'.published ≡ shown (connected_since known all) (last_time last all))
  unfolding call_all
  call_all-Knows c t [] s last known k r = called-Knows c s last t known k r.0 r.1 r.2
  call_all-Knows c t ((c', t') ∷ cs) s last known k r =
      call_all-Knows c' t' cs (called fl c (t % 4294967296) s) t (since c t known)
        (called-Knows c s last t known k r.0 r.1 r.2).0 r.3
