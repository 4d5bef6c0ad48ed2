-- ===== src/Prelude/Bytes.antt =====
-- A word in memory: `k` bytes, the lowest first, as on the x86-64 machines of the deployment.
use old_so_tp.Prelude.{
  ℕ, zero, suc, ◌+◌, ◌*◌, ◌/◌, ◌%◌, ◌^◌, ◌<◌, ◌≡◌, refl, ap, List, [], ◌∷◌, arith, length,
}

unfoldable pub to_bytes : ℕ → ℕ → List ℕ
to_bytes zero n = []
to_bytes (suc k) n = (n % 256) ∷ to_bytes k (n / 256)

unfoldable pub of_bytes : List ℕ → ℕ
of_bytes [] = 0
of_bytes (b ∷ bs) = b + 256 * of_bytes bs

pub length-to_bytes : (k n : ℕ) → length (to_bytes k n) ≡ k
unfolding to_bytes
length-to_bytes zero n = refl
length-to_bytes (suc k) n = ap suc (length-to_bytes k (n / 256))

module _ (n : ℕ) where
  pub of_bytes-to_bytes_1 : n < 2 ^ 8 → of_bytes (to_bytes 1 n) ≡ n
  unfolding of_bytes to_bytes
  of_bytes-to_bytes_1 h = omega arith

  pub of_bytes-to_bytes_4 : n < 2 ^ 32 → of_bytes (to_bytes 4 n) ≡ n
  unfolding of_bytes to_bytes
  of_bytes-to_bytes_4 h = omega arith

  pub of_bytes-to_bytes_8 : n < 2 ^ 64 → of_bytes (to_bytes 8 n) ≡ n
  unfolding of_bytes to_bytes
  of_bytes-to_bytes_8 h = omega arith
