-- ===== src/Logger/Stamp.antt =====
-- src/logger.cpp: the nanoseconds in a line.
use epoller.Prelude.{ℕ, zero, suc, ◌+◌, ◌*◌, ◌-◌, ◌/◌, ◌≤◌, ◌<◌, [], ◌∷◌, Bytes}

-- The value of a text of decimal digits, with what stands in front of it.
abbrev pub value_of : ℕ → Bytes → ℕ
value_of front [] = front
value_of front (c ∷ text) = value_of (10 * front + (c - b'0')) text

abbrev pow10 : ℕ → ℕ
pow10 zero = 1
pow10 (suc k) = 10 * pow10 k

-- A number of `k` digits and one.
abbrev Digits : ℕ → ℕ → Type 0
Digits zero d = d < 10
Digits (suc k) d = (10 ≤ d) × Digits k (d / 10)
