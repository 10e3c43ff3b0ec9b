-- ===== src/Base/Tables.antt =====
-- Statements about every number below a bound, by evaluation.
use zanbato.Base.{ℕ, zero, suc, ◌<◌, ◌≡◌, Bool, true, ◌&&◌, arith}

unfoldable pub checks : (ℕ → Bool) → ℕ → Bool
checks test zero = true
checks test (suc bound) = checks test bound && test bound

pub checks_lem :
    (test : ℕ → Bool) (bound k : ℕ) → checks test bound ≡ true → k < bound → test k ≡ true
unfolding checks
checks_lem test zero k table inside = absurd (omega arith)
checks_lem test (suc bound) k table inside = ground (arith, checks_lem test bound k)

-- For two numbers.
unfoldable pub checks₂ : (ℕ → ℕ → Bool) → ℕ → Bool
unfolding checks
checks₂ test bound = checks (λ k. checks (test k) bound) bound

pub checks₂_lem :
    (test : ℕ → ℕ → Bool) (bound k j : ℕ)
    → checks₂ test bound ≡ true
    → k < bound
    → j < bound
    → test k j ≡ true
unfolding checks₂
checks₂_lem test bound k j table hk hj =
    checks_lem (test k) bound j (checks_lem (λ i. checks (test i) bound) bound k table hk) hj
