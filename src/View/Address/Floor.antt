-- ===== src/View/Address/Floor.antt =====
-- The search along one dimension returns the last multiple of the step that is not past the address.
use native.Mathlib.Nat.{mul_assoc, mul-le-mul_right, mod-eq_of_lt, le_trans, le_of_eq}
use ten_prof.Prelude.{
  ℕ, zero, suc, ◌+◌, ◌-◌, ◌*◌, ◌/◌, ◌%◌, ◌≤◌, ◌<◌, ◌≡◌, refl, u64_mod, false, some, ltb, ◌==◌,
  if◌then◌else◌, arith, Bool-cases, inl, inr, le→leb, ltb→lt,
}
use ten_prof.View.Address.{find_local_starting_address}

-- `r` is the start of the step that holds `hit`, counted from `init`.
abbrev pub IsFloor : ℕ → ℕ → ℕ → ℕ → Type 0
IsFloor init step hit r = (q : ℕ) × (r ≡ init + q * step) × (r ≤ hit) × (hit < r + step)

half_room : (size step : ℕ) → 0 < size → (size - 1) / 2 * step + step ≤ size * step
half_room size step pos =
    let le : suc ((size - 1) / 2) ≤ size = omega arith in
    le_trans (le_of_eq (omega arith)) (mul-le-mul_right step le)

pos_ne_zero : (n : ℕ) → 0 < n → (n == 0) ≡ false
pos_ne_zero n h = ground arith

-- One call, on words that do not wrap: `half` steps from `init`.
local_step :
    (fuel init size stride itemsize hit : ℕ)
    → 0 < size
    → 0 < stride
    → init + size * (itemsize * stride) < u64_mod
    → find_local_starting_address (suc fuel) init size stride itemsize hit ≡ (
        let half = (size - 1) / 2 in
        let sit = init + half * (itemsize * stride) in
        let next = sit + itemsize * stride in
        if sit == hit
        then some sit
        else if ltb hit sit
        then find_local_starting_address fuel init half stride itemsize hit
        else if ltb hit next
        then some sit
        else find_local_starting_address fuel next (size - size / 2) stride itemsize hit)
unfolding find_local_starting_address
local_step fuel init size stride itemsize hit pos pos' word =
    let half : ℕ = (size - 1) / 2 in
    let step : ℕ = itemsize * stride in
    let room : half * step + step ≤ size * step = half_room size step pos in
    let at_half : (init + half * itemsize * stride) % u64_mod ≡ init + half * step =
      rw (mul_assoc half itemsize stride) (mod-eq_of_lt (omega arith)) in
    let at_next : (init + half * step + step) % u64_mod ≡ init + half * step + step =
      mod-eq_of_lt (omega arith) in
    rw (le→leb 1 size pos) (rw (at_half, at_next, pos_ne_zero stride pos'))

half_pos : (init half step hit : ℕ) → init ≤ hit → hit < init + half * step → 0 < half
half_pos init zero step hit le lt = absurd (omega arith)
half_pos init (suc half) step hit le lt = omega arith

le_of_step : (k q step : ℕ) → k * step < q * step + step → k ≤ q
le_of_step k q step h = elim (Bool-cases (ltb q k)) [
  | inr ge ↦ ground arith
  | inl lt ↦
      let more : suc q * step ≤ k * step = mul-le-mul_right step (ltb→lt _ _ lt) in
      absurd (omega arith)
]

-- A floor is not below a multiple of the step that is not past the address.
floor_mono :
    (k q step init hit r : ℕ)
    → r ≡ init + q * step
    → init + k * step ≤ hit
    → hit < r + step
    → init + k * step ≤ r
floor_mono k q step init hit r eq past high =
    omega (arith, mul-le-mul_right step (le_of_step k q step (omega arith)))

module _ (stride itemsize hit : ℕ) (stride_pos : 0 < stride)
    (step_pos : 0 < itemsize * stride) where
  -- For an address at or after the start of a dimension of positive size, stride and item size, in
  -- 64 bits and with fuel for the size and the distance, the search ends with the start of the
  -- step that holds the address.
  pub find_local_starting_address-IsFloor :
      (fuel init size : ℕ)
      → 0 < size
      → init ≤ hit
      → hit + size * (itemsize * stride) < u64_mod
      → size + (hit - init) < fuel
      → (r : ℕ) × (find_local_starting_address fuel init size stride itemsize hit ≡ some r)
        × IsFloor init (itemsize * stride) hit r
  find_local_starting_address-IsFloor zero init size pos le word enough = absurd (omega arith)
  find_local_starting_address-IsFloor (suc fuel) init size pos le word enough =
      let half : ℕ = (size - 1) / 2 in
      let step : ℕ = itemsize * stride in
      let sit : ℕ = init + half * step in
      let room : half * step + step ≤ size * step = half_room size step pos in
      rw (local_step fuel init size stride itemsize hit pos stride_pos (omega arith))
        (elim (Bool-cases (sit == hit)) [
          | inl here ↦ rw here (sit, refl, (half, refl, ground arith, ground arith))
          | inr ne ↦ rw ne (elim (Bool-cases (ltb hit sit)) [
            | inl before ↦
                let lt : hit < sit = ltb→lt _ _ before in
                let less : half * step ≤ size * step = omega arith in
                let (r, e, floor) =
                  find_local_starting_address-IsFloor fuel init half
                    (half_pos init half step hit le lt) le (omega arith) (omega arith) in
                rw before (r, e, floor)
            | inr after ↦ rw after (elim (Bool-cases (ltb hit (sit + step))) [
              | inl inside ↦ rw inside (sit, refl, (half, refl, ground arith, ltb→lt _ _ inside))
              | inr past ↦
                  let bound : (size - size / 2) * step ≤ size * step =
                    mul-le-mul_right step (let le' : size - size / 2 ≤ size = omega arith in le') in
                  let beyond : sit + step ≤ hit = ground arith in
                  let (r, e, floor) =
                    find_local_starting_address-IsFloor fuel (sit + step) (size - size / 2)
                      (omega arith) beyond (omega arith) (omega arith) in
                  rw past (r, e, (half + 1 + floor.0, omega (arith, floor.1), floor.2, floor.3))
            ])
          ])
        ])

  -- For an address past the end of a dimension the search ends with a start that is not inside the
  -- dimension, under the same conditions.
  pub find_local_starting_address_overrun :
      (fuel init size : ℕ)
      → 0 < size
      → init + size * (itemsize * stride) ≤ hit
      → hit + size * (itemsize * stride) < u64_mod
      → size + (hit - init) < fuel
      → (r : ℕ) × (find_local_starting_address fuel init size stride itemsize hit ≡ some r)
        × (init + size * (itemsize * stride) ≤ r)
  find_local_starting_address_overrun fuel init size pos past word enough =
      let (r, e, floor) =
        find_local_starting_address-IsFloor fuel init size pos (omega arith) word enough in
      (r, e, floor_mono size floor.0 (itemsize * stride) init hit r floor.1 past floor.3)
