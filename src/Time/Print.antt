-- ===== src/Time/Print.antt =====
-- Numbers printed in decimal, with a fixed number of digits or as many as they need.
use incremental_sync_data_se.Base.{
  ℕ, zero, suc, ◌+◌, ◌/◌, ◌%◌, List, [], ◌∷◌, ◌++◌, if◌then◌else◌, ltb,
}

-- the last `k` decimal digits
unfoldable pub digits : ℕ → ℕ → List ℕ
digits zero n = []
digits (suc k) n = digits k (n / 10) ++ (b'0' + n % 10) ∷ []

unfoldable pub decimal_with : ℕ → ℕ → List ℕ
decimal_with zero n = []
decimal_with (suc fuel) n =
    let more = decimal_with fuel (n / 10) ++ (b'0' + n % 10) ∷ [] in
    if ltb n 10 then (b'0' + n) ∷ [] else more

-- `str(n)`; each round divides by ten, so `n + 1` rounds are enough
unfoldable pub decimal : ℕ → List ℕ
unfolding decimal_with
decimal n = decimal_with (suc n) n
