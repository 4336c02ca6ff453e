-- ===== src/Device/Start.antt =====
-- components/cn105/cn105.cpp: the INFO requests that the component registers, and that a cycle of them ends.
use mitsubishi_cn105esphome.Prelude.{
  ℕ, ◌≡◌, refl, sym, subst, ◌∙◌, arith, Bool, true, false, not, ◌||◌, List, [], ◌∷◌, if◌then◌else◌,
  if_keeps, ◌==◌, leb, length, get_or, drop,
}
use mitsubishi_cn105esphome.Prelude.Float.{Float}
use mitsubishi_cn105esphome.Parser.{payload}
use mitsubishi_cn105esphome.Functions.{set_data1, set_data2}
use mitsubishi_cn105esphome.Requests.{
  RequestScheduler, info_request, register_request, clear_requests, disable_request,
  send_next_after,
}
use mitsubishi_cn105esphome.Requests.Order.{Distinct, NoRepeat, codes, update_first-codes}
use mitsubishi_cn105esphome.Requests.Ends.{Ended, answer_all, send_next_after-Ended}
use mitsubishi_cn105esphome.Device.{Device, Component}
use mitsubishi_cn105esphome.Device.Reading.{functions_response, all_zeros}
use mitsubishi_cn105esphome.Device.Receiving.{on_response}

-- The codes that are registered, in their order.
abbrev registered : List ℕ
registered = 0x02 ∷ 0x03 ∷ 0x06 ∷ 0x09 ∷ 0x04 ∷ 0x05 ∷ 0x20 ∷ 0x22 ∷ []

registered-NoRepeat : NoRepeat registered
registered-NoRepeat = (
  (
    omega arith,
    (omega arith, (omega arith, (omega arith, (omega arith, (omega arith, (omega arith, tt)))))),
  ),
  (
    (omega arith, (omega arith, (omega arith, (omega arith, (omega arith, (omega arith, tt)))))),
    (
      (omega arith, (omega arith, (omega arith, (omega arith, (omega arith, tt))))),
      (
        (omega arith, (omega arith, (omega arith, (omega arith, tt)))),
        (
          (omega arith, (omega arith, (omega arith, tt))),
          ((omega arith, (omega arith, tt)), ((omega arith, tt), (tt, tt))),
        ),
      ),
    ),
  ),
)

module _ {C : Type 0} where
  -- Both are asked for only if there are hardware settings, or once on demand.
  unfoldable pub register_hardware_settings_requests :
      Bool → ℕ → RequestScheduler C → RequestScheduler C
  unfolding register_request disable_request
  register_hardware_settings_requests has_hardware_settings interval_ms s =
      let interval = if has_hardware_settings then interval_ms else 0 in
      let one = register_request s (info_request 0x20 interval true) in
      let part1 = if not has_hardware_settings then disable_request one 0x20 else one in
      let two = register_request part1 (info_request 0x22 interval true) in
      if not has_hardware_settings then disable_request two 0x22 else two

  unfoldable pub register_info_requests : Bool → ℕ → RequestScheduler C → RequestScheduler C
  unfolding clear_requests register_request register_hardware_settings_requests
  register_info_requests has_hardware_settings interval_ms s =
      let s0 = clear_requests s in
      let s1 = register_request s0 (info_request 0x02 0 true) in
      let s2 = register_request s1 (info_request 0x03 0 true) in
      let s3 = register_request s2 (info_request 0x06 0 true) in
      let s4 = register_request s3 (info_request 0x09 0 true) in
      let s5 = register_request s4 (info_request 0x04 0 true) in
      let s6 = register_request s5 (record (info_request 0x05 0 false) { disabled = true }) in
      register_hardware_settings_requests has_hardware_settings interval_ms s6

  register_info_requests-codes :
      (has_hardware_settings : Bool) (interval_ms : ℕ) (s : RequestScheduler C)
      → codes (register_info_requests has_hardware_settings interval_ms s).requests ≡ registered
  unfolding register_info_requests
  register_info_requests-codes true i s = refl
  register_info_requests-codes false i s = refl

  -- The registration changes the queue alone.
  pub register_info_requests-kept :
      (has_hardware_settings : Bool) (interval_ms : ℕ) (s : RequestScheduler C)
      → let r = register_info_requests has_hardware_settings interval_ms s in
        (r.context ≡ s.context) × (r.events ≡ s.events)
  unfolding register_info_requests
  register_info_requests-kept true i s = (refl, refl)
  register_info_requests-kept false i s = (refl, refl)

  pub register_info_requests-Distinct :
      (has_hardware_settings : Bool) (interval_ms : ℕ) (s : RequestScheduler C)
      → Distinct (register_info_requests has_hardware_settings interval_ms s).requests
  register_info_requests-Distinct b i s =
      subst NoRepeat (sym (register_info_requests-codes b i s)) registered-NoRepeat

module _ {F : Type 0} where
  functions_response-codes :
      (code : ℕ) (bytes : List ℕ) (s : Component F)
      → codes (functions_response code bytes s).requests ≡ codes s.requests
  unfolding functions_response
  functions_response-codes code bytes s =
      let rest = drop 1 bytes in
      let d : Device F = s.context in
      let P : Component F → Type 0 = λ t. codes t.requests ≡ codes s.requests in
      let off : Component F = disable_request (disable_request s 0x20) 0x22 in
      let once : Component F = if d.has_hardware_settings then s else disable_request s code in
      let kept : P once =
        if_keeps P d.has_hardware_settings s (disable_request s code) refl
          (disable_request-codes s code) in
      let stored : Component F = record once {
        context = record d {
          functions =
              if code == 0x20 then set_data1 d.functions rest else set_data2 d.functions rest;
        };
      } in
      let long : Component F = if not (leb 16 (length bytes)) then once else stored in
      let filled : Component F = if all_zeros rest then off else long in
      if_keeps P (not (get_or bytes 0 0 == code)) s filled refl (
        if_keeps P (all_zeros rest) off long
          (disable_request-codes (disable_request s 0x20) 0x22 ∙ disable_request-codes s 0x20)
          (if_keeps P (not (leb 16 (length bytes))) once stored kept kept))
    where
      disable_request-codes :
          (s : Component F) (code : ℕ) → codes (disable_request s code).requests ≡ codes s.requests
      disable_request-codes s code =
          unfold disable_request in update_first-codes code _ s.requests (λ r. refl)

module _ (fl : Float) (turn_off : Bool → Bool) (btu_power btu_energy : fl.F) where
  open fl use {F}

  pub on_response-codes :
      (now code : ℕ) (s : Component F)
      → codes (on_response fl turn_off btu_power btu_energy now code s).requests ≡ codes s.requests
  unfolding on_response
  on_response-codes now code s =
      let bytes = payload s.context.link.parser in
      let P : Component F → Type 0 = λ t. codes t.requests ≡ codes s.requests in
      if_keeps P (code == 0x02) _ _ refl (
        if_keeps P (code == 0x03) _ _ refl (
          if_keeps P (code == 0x06) _ _ refl (
            if_keeps P (code == 0x09) _ _ refl (
              if_keeps P (code == 0x20 || code == 0x22) _ _ (functions_response-codes code bytes s)
                refl))))

  -- With the requests and the handlers that the component registers, and whatever happens to the component
  -- before each answer, the frame in its parser that brings the answer included, as long as the queue keeps
  -- its codes, a cycle whose requests are all answered comes to its end after at most as many answers as
  -- there are requests.
  pub register_info_requests-Ended :
      (clock : ℕ → ℕ) (now interval_ms : ℕ) (has_hardware_settings : Bool) (s : Component F)
      (change : ℕ → ℕ → Component F → Component F)
      (kept : (k c : ℕ) (t : Component F) → codes (change k c t).requests ≡ codes t.requests)
      → let r = register_info_requests has_hardware_settings interval_ms s in
        Ended
          (answer_all
            (λ k. on_response fl turn_off btu_power btu_energy (clock k))
            (λ k. on_response-codes (clock k))
            change
            kept
            clock
            (length r.requests)
            (send_next_after now r 0)).events
  register_info_requests-Ended clock now i b s change kept =
      send_next_after-Ended (λ k. on_response fl turn_off btu_power btu_energy (clock k))
        (λ k. on_response-codes (clock k)) change kept clock now (register_info_requests b i s)
        (register_info_requests-Distinct b i s)
