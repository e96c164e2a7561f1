-- ===== src/Wasm/SharedData/Cas.antt =====
-- The counter of a key: it leaves no value out and comes back after 2 ^ 32 - 1 steps.
use spacegate.Common.{ℕ, zero, suc, ◌+◌, ◌-◌, ◌<◌, ◌≡◌, ◌≢◌, arith, ltb, if◌then◌else◌}
use spacegate.Wasm.SharedData.{next_cas}

-- A counter after a number of sets.
abbrev pub cas_after : ℕ → ℕ → ℕ
cas_after zero c = c
cas_after (suc n) c = cas_after n (next_cas c)

next_cas-step : (c : ℕ) → c < 4294967296 → next_cas c ≡ (if ltb c 4294967295 then c + 1 else 1)
unfolding next_cas
next_cas-step c h = ground arith

next_cas-range : (c : ℕ) → c < 4294967296 → (0 < next_cas c) × (next_cas c < 4294967296)
next_cas-range c h = ground (arith, next_cas-step c h)

cas_after-closed :
    (n c : ℕ)
    → 0 < c
    → c < 4294967296
    → n < 4294967295
    → cas_after n c ≡ (if ltb (c + n) 4294967296 then c + n else c + n - 4294967295)
cas_after-closed zero c p h k = ground arith
cas_after-closed (suc n) c p h k =
    let (q, r) = next_cas-range c h in
    ground (arith, next_cas-step c h, cas_after-closed n (next_cas c) q r (omega arith))

-- No set of the next 2 ^ 32 - 2 ones brings the counter back.
pub cas_after-fresh :
    (n c : ℕ) → 0 < c → c < 4294967296 → 0 < n → n < 4294967295 → cas_after n c ≢ c
cas_after-fresh n c p h q k = ground (arith, cas_after-closed n c p h k)
