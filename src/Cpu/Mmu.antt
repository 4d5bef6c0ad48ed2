-- ===== src/Cpu/Mmu.antt =====
-- cpu/src/mmu.c: the translation of addresses.
use old_so_tp.Prelude.{
  ℕ, suc, ◌+◌, ◌-◌, ◌*◌, ◌/◌, ◌%◌, ◌^◌, ◌<◌, ◌≤◌, ◌≡◌, zero, Option, some, ◌>>=◌, arith, ap,
}
use native.Mathlib.Nat.{div-add-mod', mod-lt, div-le_self}
use old_so_tp.Prelude.Int.{ℤ, pos, divide, to_word, of_word}

-- The quotient of two `int`s, the product and the difference as `uint32_t`, and the result as an
-- `int`. `page_size` is not negative.
unfoldable pub mmu : ℤ → ℕ → Option ℤ
mmu logical_address page_size = do
  quotient ← divide logical_address page_size
  let page_number = to_word quotient
  let start = (page_number * page_size) % 2 ^ 32
  some (of_word ((to_word logical_address + (2 ^ 32 - start)) % 2 ^ 32))

of_word_small : (w : ℕ) → w < 2 ^ 31 → of_word w ≡ pos w
unfolding of_word
of_word_small w h = ground arith

to_word_small : (n : ℕ) → n < 2 ^ 31 → to_word (pos n) ≡ n
unfolding to_word
to_word_small n h = omega arith

difference :
    (n start r : ℕ)
    → start + r ≡ n
    → n < 2 ^ 31
    → (to_word (pos n) + (2 ^ 32 - start % 2 ^ 32)) % 2 ^ 32 ≡ r
unfolding to_word
difference n start r whole h = omega arith

-- For an address from 0 to 2^31 - 1 and a page size above 0, `mmu` gives the remainder of the
-- division by the page size, which is below the page size.
pub mmu-offset :
    (n page_size : ℕ)
    → n < 2 ^ 31
    → 0 < page_size
    → (mmu (pos n) page_size ≡ some (pos (n % page_size))) × (n % page_size < page_size)
unfolding mmu
mmu-offset n zero h p = absurd (omega arith)
mmu-offset n (suc k) h p =
    let whole = div-add-mod' n (suc k) in
    let low = mod-lt n p in
    let part : n / suc k ≤ n = div-le_self n (suc k) in
    let small = to_word_small (n / suc k) (omega arith) in
    let offset = difference n (n / suc k * suc k) (n % suc k) whole h in
    (rw small (rw offset (ap some (of_word_small (n % suc k) (omega arith)))), low)
