-- ===== src/Logger/Tests.antt =====
-- Runs of src/logger.cpp, and the theorems at them.
use epoller.Prelude.{ℕ, ◌≡◌, [], ◌∷◌, List, refl, arith}
use epoller.Logger.{nanoseconds, zeros, decimal_digits}
use epoller.Logger.Threads.{AreDistinct}

nanoseconds_run :
    nanoseconds 4070 ≡ b'0' ∷ b'0' ∷ b'0' ∷ b'0' ∷ b'0' ∷ b'4' ∷ b'0' ∷ b'7' ∷ b'0' ∷ []
unfolding nanoseconds zeros decimal_digits
nanoseconds_run = refl

abbrev two_threads : List ℕ
two_threads = 70 ∷ 30 ∷ []

two_threads-AreDistinct : AreDistinct two_threads
two_threads-AreDistinct id = ground arith
