-- ===== src/Functions/Parts.antt =====
-- components/cn105/heatpump_functions.cpp: what is sent for the functions, how often, and that it is what is
-- read back.
use mitsubishi_cn105esphome.Prelude.{
  ℕ, zero, suc, ◌+◌, ◌≤◌, ◌≡◌, refl, ap, ◌∙◌, sym, subst, ◌⊎◌, inl, inr, none, true, false, List,
  [], ◌∷◌, ◌++◌, arith, take, drop, set, length, length-append, length-take_le, take-take,
}
use mitsubishi_cn105esphome.Parser.Frame.{frame}
use mitsubishi_cn105esphome.Protocol.{checksum}
use mitsubishi_cn105esphome.Protocol.Checksum.{checksum_cong}
use mitsubishi_cn105esphome.Packet.{prepare_set_packet, add_checksum}
use mitsubishi_cn105esphome.Functions.{
  HeatpumpFunctions, is_valid, get_data1, get_data2, set_data1, set_data2,
}
use mitsubishi_cn105esphome.Functions.Sending.{
  FunctionParts, functions_packet, functions_set_part1, functions_set_part2, set_functions,
  send_pending_functions_packet2,
}
use mitsubishi_cn105esphome.Link.{Link, write_packet}
use mitsubishi_cn105esphome.Link.Delivery.{Kept, write_packet-Kept}

set-append : (xs : List ℕ) (n a c : ℕ) → length xs ≡ n → set (xs ++ a ∷ []) n c ≡ xs ++ c ∷ []
set-append xs n a c h = rw⁻¹ h (at_end xs)
  where
    at_end : (xs : List ℕ) → set (xs ++ a ∷ []) (length xs) c ≡ xs ++ c ∷ []
    at_end [] = refl
    at_end (x ∷ xs) = ap (◌∷◌ x) (at_end xs)

take-append : (xs ys : List ℕ) (n : ℕ) → length xs ≡ n → take n (xs ++ ys) ≡ xs
take-append xs ys n h = rw⁻¹ h (at_end xs)
  where
    at_end : (xs : List ℕ) → take (length xs) (xs ++ ys) ≡ xs
    at_end [] = refl
    at_end (x ∷ xs) = ap (◌∷◌ x) (at_end xs)

take_all : (xs : List ℕ) (n : ℕ) → length xs ≡ n → take n xs ≡ xs
take_all xs n h = rw⁻¹ h (at_end xs)
  where
    at_end : (xs : List ℕ) → take (length xs) xs ≡ xs
    at_end [] = refl
    at_end (x ∷ xs) = ap (◌∷◌ x) (at_end xs)

take-drop_append : (n : ℕ) (xs : List ℕ) → take n xs ++ drop n xs ≡ xs
take-drop_append zero xs = refl
take-drop_append (suc n) [] = refl
take-drop_append (suc n) (x ∷ xs) = ap (◌∷◌ x) (take-drop_append n xs)

length-drop : (n : ℕ) (xs : List ℕ) → n + length (drop n xs) ≡ length xs ⊎ (length xs ≤ n)
length-drop zero xs = inl (omega arith)
length-drop (suc n) [] = inr (omega arith)
length-drop (suc n) (x ∷ xs) = elim (length-drop n xs) [
  | inl h ↦ inl (omega arith)
  | inr h ↦ inr (omega arith)
]

second_half : (xs : List ℕ) → length xs ≡ 30 → length (drop 15 xs) ≡ 15
second_half xs h = elim (length-drop 15 xs) [ inl k ↦ omega arith | inr k ↦ omega arith ]

-- Fifteen bytes behind their code are a frame.
pub functions_packet-frame :
    (code : ℕ) (bytes : List ℕ)
    → length bytes ≡ 15
    → functions_packet code bytes ≡ frame 0x41 0x01 0x30 (code ∷ bytes)
unfolding functions_packet add_checksum prepare_set_packet
functions_packet-frame code bytes h =
    let front : List ℕ → List ℕ = λ xs. 0xFC ∷ 0x41 ∷ 0x01 ∷ 0x30 ∷ 0x10 ∷ code ∷ xs in
    rw h (
      ap front (set-append bytes 15 0 (checksum (front (bytes ++ 0 ∷ [])) 21) h)
      ∙ ap (λ c. front (bytes ++ c ∷ []))
          (checksum_cong (front (bytes ++ 0 ∷ [])) (front bytes) 21
            (ap front (take-append bytes (0 ∷ []) 15 h ∙ sym (take_all bytes 15 h)))))

short_packet :
    (code : ℕ) (bytes : List ℕ) → length bytes ≡ 15 → length (functions_packet code bytes) ≤ 22
short_packet code bytes h = omega (
  arith,
  ap length (functions_packet-frame code bytes h),
  length-append bytes (
      checksum (0xFC ∷ 0x41 ∷ 0x01 ∷ 0x30 ∷ length (code ∷ bytes) ∷ code ∷ bytes)
        (length (code ∷ bytes) + 5)
      ∷ []),
)

pub length-get_data :
    (f : HeatpumpFunctions)
    → length f.raw ≡ 30
    → (length (get_data1 f) ≡ 15) × (length (get_data2 f) ≡ 15)
unfolding get_data1 get_data2
length-get_data f h = (
  length-take_le 15 f.raw (omega arith),
  length-take_le 15 (drop 15 f.raw) (omega (arith, second_half f.raw h)),
)

-- What is sent for the functions is what is read back: a store of functions that reads the bytes of both
-- packets, in this order, holds the same thirty bytes, and is valid.
pub set_data-get_data :
    (f g : HeatpumpFunctions)
    → length f.raw ≡ 30
    → ((set_data2 (set_data1 g (get_data1 f)) (get_data2 f)).raw ≡ f.raw)
      × (is_valid (set_data2 (set_data1 g (get_data1 f)) (get_data2 f)) ≡ true)
unfolding set_data1 set_data2 get_data1 get_data2
set_data-get_data f g h = (
  rw
      (
        take-take 15 f.raw,
        take-take 15 (drop 15 f.raw),
        take-append (take 15 f.raw) (drop 15 g.raw) 15 (length-get_data f h).0,
        take_all (drop 15 f.raw) 15 (second_half f.raw h),
      )
      (take-drop_append 15 f.raw),
  refl,
)

-- However often the acknowledgement and the timer ask for it, part 2 is sent once.
pub again : List ℕ → FunctionParts × Link → FunctionParts × Link
unfolding send_pending_functions_packet2
again [] x = x
again (t ∷ ts) x = again ts (send_pending_functions_packet2 t x)

again_idle :
    (ts : List ℕ) (x : FunctionParts × Link) → x.0.functions_part2_pending ≡ false → again ts x ≡ x
unfolding again send_pending_functions_packet2
again_idle [] x h = refl
again_idle (t ∷ ts) x h = ap (again ts) idle ∙ again_idle ts x h
  where
    idle : send_pending_functions_packet2 t x ≡ x
    idle = rw h refl

-- What is sent for valid functions: part 1 is handed over at once, and part 2, the frame for the second half,
-- at the first of the acknowledgements and timers that follow, after which nothing is pending, the timer is
-- disarmed, and all further ones change nothing. Each part is written on a line that is open and active, and
-- waits for a retry in four seconds otherwise.
pub set_functions-once :
    (now t : ℕ) (ts : List ℕ) (f : HeatpumpFunctions) (s : FunctionParts) (l : Link)
    → length f.raw ≡ 30
    → is_valid f ≡ true
    → let r = (set_functions now f s l).0 in
      let e = again (t ∷ ts) r in
      Kept (frame 0x41 0x01 0x30 (functions_set_part1 ∷ get_data1 f)) true now 4000 l r.1
      × Kept (frame 0x41 0x01 0x30 (functions_set_part2 ∷ get_data2 f)) true t 4000 r.1 e.1
      × (e.0.functions_part2_pending ≡ false)
      × (e.0.fn_set_part2 ≡ none)
unfolding again set_functions send_pending_functions_packet2
set_functions-once now t ts f s l h v =
    let one : List ℕ = functions_packet functions_set_part1 (get_data1 f) in
    let two : List ℕ = functions_packet functions_set_part2 (get_data2 f) in
    let l1 : Link = (write_packet now one true l).0 in
    let half = length-get_data f h in
    let e1 : one ≡ frame 0x41 0x01 0x30 (functions_set_part1 ∷ get_data1 f) =
      functions_packet-frame functions_set_part1 (get_data1 f) half.0 in
    let e2 : two ≡ frame 0x41 0x01 0x30 (functions_set_part2 ∷ get_data2 f) =
      functions_packet-frame functions_set_part2 (get_data2 f) half.1 in
    let sent : FunctionParts × Link = (
      record s {
        pending_functions_packet2 = two;
        functions_part2_pending = false;
        fn_set_part2 = none;
      },
      (write_packet t two true l1).0,
    ) in
    rw v (
      rw (again_idle ts sent refl) (
        subst (λ p. Kept p true now 4000 l l1) e1
            (write_packet-Kept now one true l
              (short_packet functions_set_part1 (get_data1 f) half.0)),
        subst (λ p. Kept p true t 4000 l1 sent.1) e2
            (write_packet-Kept t two true l1
              (short_packet functions_set_part2 (get_data2 f) half.1)),
        refl,
        refl,
      ))
