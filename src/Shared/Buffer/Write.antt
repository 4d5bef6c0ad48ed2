-- ===== src/Shared/Buffer/Write.antt =====
-- Each `add_…` appends the bytes of its value to what the buffer holds.
use old_so_tp.Prelude.{
  ℕ, ◌+◌, ◌%◌, ◌^◌, ◌≤◌, ◌<◌, ◌≡◌, refl, sym, ap, ◌∙◌, Option, none, some, List, [], ◌∷◌, ◌++◌, map,
  append_assoc, map-append, append-nil, arith, ◌>>=◌, length, take, length-append, length-replicate,
  subst,
}
use old_so_tp.Prelude.Bytes.{to_bytes}
use old_so_tp.Prelude.Int.{ℤ, to_word}
use old_so_tp.Prelude.CString.{CString}
use old_so_tp.Commons.{Commons, each}
use old_so_tp.Shared.Buffer.{
  Buffer, Cell, add_u32, create_buffer, memcpy_in, change_buffer_size, add_to_buffer,
  add_int32_to_buffer, add_uint32_to_buffer, add_uint8_to_buffer, add_double_to_buffer,
  add_string_to_buffer, add_list_to_buffer,
}
use old_so_tp.Shared.Buffer.Spec.{string_bytes, item_bytes, list_bytes, Holds, Appends, max_size}
use old_so_tp.Shared.Buffer.Copy.{spliced, memcpy_in_lem, length-spliced, take-spliced}
use old_so_tp.Shared.Buffer.Grow.{Grown, change_buffer_size-Grown}

-- Room was made; the copy then adds the bytes.
Holds-spliced :
    (b c : Buffer) (bs cs : List ℕ)
    → Holds b bs
    → length bs + length cs < 2 ^ 32
    → Grown b (length cs) c
    → Holds
        (record c { offset = add_u32 c.offset (length cs); stream = spliced c.stream c.offset cs })
        (bs ++ cs)
Holds-spliced b c bs cs h small g = record {
  sized = length-spliced c.stream c.offset cs room ∙ g.sized;
  bounded = g.bounded;
  filled = let f = h.filled in let o = g.same_offset in omega (arith, length-append bs cs);
  fits = let f = h.filled in let r = g.room in omega (arith, length-append bs cs);
  written =
      ap (λ n. take n (spliced c.stream c.offset cs)) no_wrap
      ∙ take-spliced c.stream c.offset cs room
      ∙ ap (λ n. take n c.stream ++ map some cs) g.same_offset
      ∙ ap (λ p. p ++ map some cs) (g.kept ∙ h.written)
      ∙ sym (map-append some bs cs);
}
  where
    room : c.offset + length cs ≤ length c.stream
    room = let o = g.same_offset in let r = g.room in let s = g.sized in omega arith

    no_wrap : add_u32 c.offset (length cs) ≡ c.offset + length cs
    no_wrap = let f = h.filled in let o = g.same_offset in omega arith

add_to_buffer_steps :
    (b c : Buffer) (cs : List ℕ) (s : List Cell)
    → change_buffer_size b (length cs) ≡ some c
    → memcpy_in c.stream c.offset cs ≡ some s
    → add_to_buffer b cs ≡ some (record c { offset = add_u32 c.offset (length cs); stream = s })
unfolding add_to_buffer
add_to_buffer_steps b c cs s e m = rw e (rw m)

pub add_to_buffer-Appends : (cs : List ℕ) → Appends (λ b. add_to_buffer b cs) cs
add_to_buffer-Appends cs = record {
  at = λ b bs h small.
      let within : b.offset ≤ b.buffer_size = let f = h.filled in let r = h.fits in omega arith in
      let (c, e, g) =
        change_buffer_size-Grown b (length cs) h.sized h.bounded within
          (let f = h.filled in omega arith) in
      let m =
        memcpy_in_lem c.stream c.offset cs
          (let o = g.same_offset in let r = g.room in let s = g.sized in omega arith) in
      (
        record c { offset = add_u32 c.offset (length cs); stream = spliced c.stream c.offset cs },
        add_to_buffer_steps b c cs (spliced c.stream c.offset cs) e m,
        Holds-spliced b c bs cs h small g,
      );
}

-- Two writes in a row.
pub Appends-then :
    {w v : Buffer → Option Buffer} {cs ds : List ℕ}
    → Appends w cs
    → Appends v ds
    → Appends (λ b. w b >>= v) (cs ++ ds)
Appends-then {cs} {ds} hw hv = record {
  at = λ b bs h small.
      let n = length-append cs ds in
      let (b1, e1, h1) = hw.at b bs h (omega arith) in
      let (b2, e2, h2) = hv.at b1 (bs ++ cs) h1 (omega (arith, length-append bs cs)) in
      (b2, rw e1 e2, subst (Holds b2) (append_assoc bs cs ds) h2);
}

pub add_uint32-Appends : (n : ℕ) → Appends (λ b. add_uint32_to_buffer b n) (to_bytes 4 n)
unfolding add_uint32_to_buffer
add_uint32-Appends n = add_to_buffer-Appends (to_bytes 4 n)

pub add_int32-Appends : (z : ℤ) → Appends (λ b. add_int32_to_buffer b z) (to_bytes 4 (to_word z))
unfolding add_int32_to_buffer
add_int32-Appends z = add_to_buffer-Appends (to_bytes 4 (to_word z))

pub add_uint8-Appends : (n : ℕ) → Appends (λ b. add_uint8_to_buffer b n) (to_bytes 1 n)
unfolding add_uint8_to_buffer
add_uint8-Appends n = add_to_buffer-Appends (to_bytes 1 n)

pub add_double-Appends : (n : ℕ) → Appends (λ b. add_double_to_buffer b n) (to_bytes 8 n)
unfolding add_double_to_buffer
add_double-Appends n = add_to_buffer-Appends (to_bytes 8 n)

pub add_string-Appends : (s : CString) → Appends (λ b. add_string_to_buffer b s) (string_bytes s)
unfolding add_string_to_buffer
add_string-Appends s = Appends-then (add_uint32-Appends _) (add_to_buffer-Appends _)

module _ (lib : Commons) {A : Type 0} (enc : A → List ℕ) (add : Buffer → A → Option Buffer)
    (add-Appends : (x : A) → Appends (λ b. add b x) (enc x)) where
  each-Appends : (xs : List A) → Appends (each (λ x s. add s x) xs) (item_bytes enc xs)
  each-Appends [] = record { at = λ b bs h small. (b, refl, rw append-nil h) }
  each-Appends (x ∷ xs) = Appends-then (add-Appends x) (each-Appends xs)

  pub add_list-Appends :
      (xs : List A) → Appends (λ b. add_list_to_buffer lib b xs add) (list_bytes enc xs)
  unfolding add_list_to_buffer
  add_list-Appends xs =
      simp (lib.list_size_lem, lib.list_iterate_lem)
        (Appends-then (add_uint32-Appends (length xs % 2 ^ 32)) (each-Appends xs))

-- A new buffer holds nothing yet.
pub create_buffer-Holds : (n : ℕ) → n ≤ max_size → Holds (create_buffer n) []
unfolding create_buffer
create_buffer-Holds n h = record {
  sized = length-replicate n none;
  bounded = h;
  filled = refl;
  fits = omega arith;
  written = refl;
}
