-- ===== src/Link/Delivery.antt =====
-- hp_writings.cpp: a packet that is given to `write_packet` is written or waits, and a packet that waits is
-- given up by its retry only when it is written.
use mitsubishi_cn105esphome.Prelude.{
  ℕ, ◌≤◌, ◌≡◌, refl, sym, subst, Bool, true, false, not, ◌&&◌, ◌||◌, none, some, List, ◌∷◌,
  Bool-cases, inl, inr, ◌⊎◌, length, ltb, arith,
}
use mitsubishi_cn105esphome.Link.{
  Pending, Link, is_uart_ready, is_heatpump_connection_active, due, queue_packet, write_packet,
  write_retry_fires,
}
use mitsubishi_cn105esphome.Link.Fuel.{write_packet-cases}
use mitsubishi_cn105esphome.Link.Watched.{is_armed, retried, reconnect_uart-kept}

short_lem : (n : ℕ) → n ≤ 22 → ltb 22 n ≡ false
short_lem n h = ground arith

-- `m` is `l` with the packet on the wire, or holds the packet until a retry at `t`.
abbrev pub Kept : List ℕ → Bool → ℕ → ℕ → Link → Link → Type 0
Kept p check now delay l m =
    ((is_uart_ready l.state && (is_heatpump_connection_active now l || not check) ≡ true)
      × (m.wire ≡ p ∷ l.wire)
      × (m.last_send ≡ now))
    ⊎ ((m.pending ≡ some (record { packet = p; check_is_active = check }))
        × (m.write_retry ≡ due now delay))

-- A packet of at most 22 bytes is written, on a line that is open and, where that is checked, active; or it
-- waits for a retry in four seconds.
pub write_packet-Kept :
    (now : ℕ) (p : List ℕ) (check : Bool) (l : Link)
    → length p ≤ 22
    → Kept p check now 4000 l (write_packet now p check l).0
unfolding queue_packet
write_packet-Kept now p check l h = elim (write_packet-cases now p check l) [
  | inl e ↦ subst (λ r. Kept p check now 4000 l r.0) (sym e.1) (inl (e.0, refl, refl))
  | inr e ↦ rw (e, short_lem (length p) h) (inr (refl, refl))
]

-- The packet was written and is forgotten, or waits with the retry armed.
abbrev pub Retried : Pending → Link → Link → Type 0
Retried p l m =
    ((m.pending ≡ none) × (m.wire ≡ p.packet ∷ l.wire))
    ⊎ ((m.pending ≡ some p) × (is_armed m.write_retry ≡ true))

write_packet-Retried :
    (now : ℕ) (p : Pending) (l : Link)
    → length p.packet ≤ 22
    → Retried p l (retried (write_packet now p.packet p.check_is_active l))
unfolding queue_packet
write_packet-Retried now p l h = elim (write_packet-cases now p.packet p.check_is_active l) [
  | inl w ↦ subst (λ r. Retried p l (retried r)) (sym w.1) (inl (refl, refl))
  | inr w ↦
      subst (λ r. Retried p l (retried r)) (sym w)
        (rw (short_lem (length p.packet) h) (inr (refl, refl)))
]

-- The retry of a packet that waits writes it and then forgets it, or still holds it with the retry armed:
-- no failure of the write and no reconnection loses it.
pub write_retry_fires-Retried :
    (now : ℕ) (p : Pending) (l : Link)
    → l.pending ≡ some p
    → length p.packet ≤ 22
    → Retried p l (write_retry_fires now l)
unfolding write_retry_fires
write_retry_fires-Retried now p l e h =
    let fired : Link = record l { pending = some p; write_retry = none } in
    subst (λ o. Retried p l (write_retry_fires now (record l { pending = o }))) (sym e)
      (elim (Bool-cases (is_uart_ready l.state)) [
        | inl k ↦ rw k (write_packet-Retried now p fired h)
        | inr k ↦ rw k (inr ((reconnect_uart-kept now fired).0, refl))
      ])
