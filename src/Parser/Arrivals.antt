-- ===== src/Parser/Arrivals.antt =====
-- components/cn105/frame_parser.h and hp_readings.cpp, `process_input`: what a byte that arrives in time does
-- to the parser, and when the parser is not complete yet.
use mitsubishi_cn105esphome.Prelude.{
  ℕ, ◌≤◌, ◌≡◌, ◌≢◌, sym, ◌∙◌, subst, arith, true, false, List, [], ◌∷◌, ◌++◌, Bool-cases, ◌⊎◌, inl,
  inr,
}
use mitsubishi_cn105esphome.Prelude.Word.{sub32}
use mitsubishi_cn105esphome.Parser.{
  FrameParser, feed, feed_all, receive, in_progress, frame_resync_gap_ms,
}
use mitsubishi_cn105esphome.Parser.Resync.{Paced}

-- The time of the last arrival.
abbrev pub last_arrival : ℕ → List (ℕ × ℕ) → ℕ
last_arrival last [] = last
last_arrival last ((now, b) ∷ bs) = last_arrival now bs

pub Paced-last :
    (last : ℕ) (bs : List (ℕ × ℕ)) (t c : ℕ)
    → Paced last (bs ++ (t, c) ∷ [])
    → Paced last bs × (sub32 t (last_arrival last bs) ≤ frame_resync_gap_ms)
Paced-last last [] t c h = (tt, h.0)
Paced-last last ((now, b) ∷ bs) t c h =
    let (near, most) = Paced-last now bs t c h.1 in ((h.0, near), most)

-- A complete parser reads nothing more.
pub feed_done : (p : FrameParser) (b : ℕ) → p.complete ≡ true → feed p b ≡ p
unfolding feed
feed_done p b h = ground arith

pub complete_stays :
    (p : FrameParser) (bs : List ℕ) → p.complete ≡ true → (feed_all p bs).complete ≡ true
unfolding feed_all
complete_stays p [] h = h
complete_stays p (b ∷ bs) h =
    subst (λ q. (feed_all q bs).complete ≡ true) (sym (feed_done p b h)) (complete_stays p bs h)

-- Nor was it complete before any of the bytes.
pub open_before :
    (p : FrameParser) (bs : List ℕ) → (feed_all p bs).complete ≡ false → p.complete ≡ false
open_before p bs h = elim (Bool-cases p.complete) [
  | inl c ↦ absurd (differ (sym (complete_stays p bs c) ∙ h))
  | inr o ↦ o
]
  where
    differ : true ≢ false
    differ e = cc

-- A parser that waits for a start byte, and one that is within a frame and hears no silence, is fed the byte
-- as it is.
abbrev pub Ready : FrameParser → ℕ → ℕ → Type 0
Ready p last now = (in_progress p ≡ false) ⊎ (sub32 now last ≤ frame_resync_gap_ms)

pub receive_within :
    (p : FrameParser) (last now b : ℕ)
    → Ready p last now
    → (receive (record { parser = p; last_rx_byte_ms = last }) now b).parser ≡ feed p b
unfolding receive
receive_within p last now b (inl idle) = ground (arith, idle)
receive_within p last now b (inr near) = ground (arith, near)
