-- ===== src/Parser/Resync.antt =====
-- components/cn105/hp_readings.cpp, `process_input`: a frame that was cut short does not spoil the
-- next one.
use mitsubishi_cn105esphome.Prelude.{
  ℕ, ◌+◌, ◌≤◌, ◌<◌, ◌≡◌, refl, sym, ap, inl, inr, Bool-cases, ◌∙◌, subst, false, List, [], ◌∷◌,
  arith, length,
}
use mitsubishi_cn105esphome.Prelude.Word.{sub32}
use mitsubishi_cn105esphome.Parser.{
  FrameParser, Receiver, reset, feed, feed_all, receive, frame_resync_gap_ms, max_frame_bytes,
}
use mitsubishi_cn105esphome.Parser.Invariant.{IsValid}
use mitsubishi_cn105esphome.Parser.Frame.{IsIdle, Parsed, frame, feed_all-frame}

-- Each byte with the time of its arrival.
unfoldable pub receive_all : Receiver → List (ℕ × ℕ) → Receiver
receive_all r [] = r
receive_all r ((now, b) ∷ bs) = receive_all (receive r now b) bs

abbrev pub bytes_of : List (ℕ × ℕ) → List ℕ
bytes_of [] = []
bytes_of ((now, b) ∷ bs) = b ∷ bytes_of bs

-- No two arrivals are further apart than the gap.
abbrev pub Paced : ℕ → List (ℕ × ℕ) → Type 0
Paced last [] = Unit
Paced last ((now, b) ∷ bs) = (sub32 now last ≤ frame_resync_gap_ms) × Paced now bs

Paced-feed :
    (r : Receiver) (bs : List (ℕ × ℕ))
    → Paced r.last_rx_byte_ms bs
    → (receive_all r bs).parser ≡ feed_all r.parser (bytes_of bs)
unfolding receive_all receive feed_all
Paced-feed r [] h = refl
Paced-feed r ((now, b) ∷ bs) h = ground (arith, h.0, Paced-feed (receive r now b) bs h.1)

-- The byte after a silence is fed to a waiting parser.
restart :
    (r : Receiver) (now b : ℕ)
    → IsValid r.parser
    → r.parser.complete ≡ false
    → frame_resync_gap_ms < sub32 now r.last_rx_byte_ms
    → (q : FrameParser) × IsIdle q × ((receive r now b).parser ≡ feed q b)
unfolding receive reset
restart r now b v c gap = elim (Bool-cases r.parser.found_start) [
  | inl found ↦ (
    reset r.parser,
    record { sized = v.sized; no_start = refl; open_frame = refl; undeclared = refl },
    ground (arith, found),
  )
  | inr waiting ↦ (
    r.parser,
    record { sized = v.sized; no_start = waiting; open_frame = c; undeclared = (v.idle waiting).1 },
    ground (arith, waiting),
  )
]

Paced-after :
    (r : Receiver) (now b : ℕ) (bs : List (ℕ × ℕ))
    → Paced now bs
    → Paced (receive r now b).last_rx_byte_ms bs
unfolding receive
Paced-after r now b bs h = h

-- Whatever part of a frame a valid parser holds, a whole frame of at most 128 bytes that starts
-- after a silence of more than 500 ms, and whose bytes follow one another within 500 ms, is read.
pub resync :
    (r : Receiver) (now : ℕ) (bs : List (ℕ × ℕ)) (cmd b2 b3 : ℕ) (xs : List ℕ)
    → IsValid r.parser
    → r.parser.complete ≡ false
    → frame_resync_gap_ms < sub32 now r.last_rx_byte_ms
    → Paced now bs
    → 0xFC ∷ bytes_of bs ≡ frame cmd b2 b3 xs
    → length xs + 6 ≤ max_frame_bytes
    → Parsed (receive_all r ((now, 0xFC) ∷ bs)).parser cmd xs
unfolding receive_all feed_all
resync r now bs cmd b2 b3 xs v c gap paced e f =
    let (q, idle, first) = restart r now 0xFC v c gap in
    subst (λ p. Parsed p cmd xs)
      (ap (feed_all q) (sym e)
        ∙ ap (λ p. feed_all p (bytes_of bs)) (sym first)
        ∙ sym (Paced-feed (receive r now 0xFC) bs (Paced-after r now 0xFC bs paced)))
      (feed_all-frame q [] cmd b2 b3 xs idle tt f)
