-- ===== src/Pool/V4/Steps.antt =====
-- What `next_loop` and `pop_released` return.
use ezvpn.Prelude.{
  ℕ, zero, suc, ◌+◌, ◌-◌, ◌%◌, ◌≤◌, ◌<◌, ◌≡◌, refl, inl, inr, true, false, Option, none, some, List,
  [], ◌∷◌, arith, nat_eq, leb, any, Bool-cases, leb→le, leb_false→lt,
}
use ezvpn.Pool.V4.{u32_mod, next_loop, pop_released}

-- A found address is the next one that is not reserved; without one the range is used up.
abbrev pub Advances : List ℕ → ℕ → ℕ → Option ℕ × ℕ → Type 0
Advances reserved max_ip next_ip (some ip, after) =
    (next_ip ≤ ip)
    × (ip ≤ max_ip)
    × (after ≡ ip + 1)
    × (any (nat_eq ip) reserved ≡ false)
    × (reserved ≡ [] → ip ≡ next_ip)
Advances reserved max_ip next_ip (none, after) =
    (max_ip < after)
    × (next_ip ≤ after)
    × (after ≤ max_ip + 1 + (next_ip - (max_ip + 1)))
    × (reserved ≡ [] → after ≡ next_ip)

clash : (x : ℕ) (l : List ℕ) → any (nat_eq x) l ≡ true → l ≡ [] → ⊥
clash x [] t empty = cc
clash x (y ∷ l) t empty = cc

skip :
    (reserved : List ℕ) (max_ip next_ip : ℕ) (r : Option ℕ × ℕ)
    → next_ip ≤ max_ip
    → any (nat_eq next_ip) reserved ≡ true
    → Advances reserved max_ip (next_ip + 1) r
    → Advances reserved max_ip next_ip r
skip reserved max_ip next_ip (none, after) h t a =
    (omega arith, omega arith, omega arith, λ empty. absurd (clash next_ip reserved t empty))
skip reserved max_ip next_ip (some ip, after) h t a =
    (omega arith, a.1, a.2, a.3, λ empty. absurd (clash next_ip reserved t empty))

-- With one round more than there are addresses left, the loop ends by its own test.
pub next_loop-Advances :
    (fuel : ℕ) (reserved : List ℕ) (max_ip next_ip : ℕ)
    → max_ip + 1 < u32_mod
    → max_ip + 1 - next_ip < fuel
    → Advances reserved max_ip next_ip (next_loop fuel reserved max_ip next_ip)
unfolding next_loop
next_loop-Advances zero reserved max_ip next_ip b h = absurd (omega arith)
next_loop-Advances (suc fuel) reserved max_ip next_ip b h = elim (Bool-cases (leb next_ip max_ip)) [
  | inr past ↦
      let over : max_ip < next_ip = leb_false→lt next_ip max_ip past in
      rw past (over, omega arith, omega arith, λ _. refl)
  | inl left ↦
      let room : next_ip ≤ max_ip = leb→le next_ip max_ip left in
      let e : (next_ip + 1) % u32_mod ≡ next_ip + 1 = omega arith in
      elim (Bool-cases (any (nat_eq next_ip) reserved)) [
        | inr free ↦ rw (left, free) (omega arith, room, e, free, λ _. refl)
        | inl taken ↦
            rw (left, taken, e)
              (skip reserved max_ip next_ip _ room taken
                (next_loop-Advances fuel reserved max_ip (next_ip + 1) b (omega arith)))
      ]
]

-- A list with no reserved address gives up its head.
pub pop_released_lem :
    (reserved : List ℕ) (ip : ℕ) (released : List ℕ)
    → any (nat_eq ip) reserved ≡ false
    → pop_released reserved (ip ∷ released) ≡ (some ip, released)
unfolding pop_released
pop_released_lem reserved ip released free = rw free
