-- ===== src/Shared/Buffer/Read.antt =====
-- Each `take_…` returns the value whose bytes come next, and consumes exactly those.
use old_so_tp.Prelude.{
  ℕ, suc, ◌+◌, ◌%◌, ◌^◌, ◌≤◌, ◌<◌, ◌≡◌, sym, ap, subst, ◌∙◌, Option, some, List, [], ◌∷◌, ◌++◌, map,
  append_assoc, append-nil, map-append, arith, ◌>>=◌, length, take, drop, length-append, length-map,
  length-drop, take-append_all, drop-append_all, drop-drop, All,
}
use old_so_tp.Prelude.Bytes.{
  to_bytes, of_bytes, length-to_bytes, of_bytes-to_bytes_1, of_bytes-to_bytes_4,
  of_bytes-to_bytes_8,
}
use old_so_tp.Prelude.Int.{ℤ, IsInt, to_word, of_word, to_word-lt, of_word-to_word}
use old_so_tp.Prelude.CString.{CString, IsCString, until_zero, until_zero-append}
use old_so_tp.Commons.{Commons}
use old_so_tp.Shared.Buffer.{
  Buffer, Cell, add_u32, all_written, memcpy_out, buffer_take, take_uint32_from_buffer,
  take_int32_from_buffer, take_uint8_from_buffer, take_double_from_buffer, take_string_from_buffer,
  take_items, take_list_from_buffer,
}
use old_so_tp.Shared.Buffer.Copy.{all_written-map}
use old_so_tp.Shared.Buffer.Spec.{string_bytes, item_bytes, list_bytes, Remains, Reads}

module _ (b : Buffer) (cs ds : List ℕ) (h : Remains b (cs ++ ds)) where
  unread_split : drop b.offset b.stream ≡ map some cs ++ map some ds
  unread_split = h.unread ∙ map-append some cs ds

  unread_room : b.offset + length cs ≤ length b.stream
  unread_room =
      let w = h.within in
      omega (
        arith,
        ap length h.unread,
        length-drop b.offset b.stream,
        length-map {B = Cell} (cs ++ ds) some,
        length-append cs ds,
      )

  memcpy_out_lem : memcpy_out b.stream b.offset (length cs) ≡ some cs
  unfolding memcpy_out
  memcpy_out_lem = ground (arith, unread_room, taken)
    where
      taken : all_written (take (length cs) (drop b.offset b.stream)) ≡ some cs
      taken =
          ap (λ s. all_written (take (length cs) s)) unread_split
          ∙ ap (λ n. all_written (take n (map some cs ++ map some ds)))
              (sym (length-map {B = Cell} cs some))
          ∙ ap all_written (take-append_all (map some cs) (map some ds))
          ∙ all_written-map cs

  Remains-rest : Remains (record b { offset = add_u32 b.offset (length cs) }) ds
  Remains-rest = record {
    within = let k = h.bounded in omega (arith, unread_room);
    bounded = h.bounded;
    unread =
        ap (λ n. drop n b.stream) (let k = h.bounded in omega (arith, unread_room))
        ∙ sym (drop-drop (length cs) b.offset b.stream)
        ∙ ap (drop (length cs)) unread_split
        ∙ ap (λ n. drop n (map some cs ++ map some ds)) (sym (length-map {B = Cell} cs some))
        ∙ drop-append_all (map some cs) (map some ds);
  }

buffer_take_lem :
    (b : Buffer) (cs : List ℕ)
    → memcpy_out b.stream b.offset (length cs) ≡ some cs
    → buffer_take b (length cs) ≡ some (cs, record b { offset = add_u32 b.offset (length cs) })
unfolding buffer_take
buffer_take_lem b cs e = rw e

pub buffer_take-Reads : (cs : List ℕ) → Reads (λ b. buffer_take b (length cs)) cs cs
buffer_take-Reads cs = record {
  at = λ b ds h. (
    record b { offset = add_u32 b.offset (length cs) },
    buffer_take_lem b cs (memcpy_out_lem b cs ds h),
    Remains-rest b cs ds h,
  );
}

module _ {A B : Type 0} where
  -- Two reads in a row, the second one on what the first returned.
  pub Reads-then :
      {r : Buffer → Option (A × Buffer)} (q : A → Buffer → Option (B × Buffer)) {x : A} {y : B}
      {cs ds : List ℕ}
      → Reads r x cs
      → Reads (q x) y ds
      → Reads (λ b. r b >>= λ (a, b'). q a b') y (cs ++ ds)
  Reads-then q {cs} {ds} hr hq = record {
    at = λ b es h.
        let (b1, e1, h1) = hr.at b (ds ++ es) (subst (Remains b) (append_assoc cs ds es) h) in
        let (b2, e2, h2) = hq.at b1 es h1 in (b2, rw e1 e2, h2);
  }

  -- A read whose result goes through a function.
  pub Reads-map :
      {r : Buffer → Option (A × Buffer)} (f : A → B) {x : A} {cs : List ℕ}
      → Reads r x cs
      → Reads (λ b. r b >>= λ (a, b'). some (f a, b')) (f x) cs
  Reads-map f hr = record { at = λ b ds h. let (b1, e1, h1) = hr.at b ds h in (b1, rw e1, h1) }

module _ {A : Type 0} where
  -- A fixed number of bytes, decoded.
  abbrev take_word : ℕ → (List ℕ → A) → Buffer → Option (A × Buffer)
  take_word k f b = buffer_take b k >>= λ (a, b'). some (f a, b')

  take_word-Reads :
      (k n : ℕ) (f : List ℕ → A) (x : A)
      → f (to_bytes k n) ≡ x
      → Reads (take_word k f) x (to_bytes k n)
  take_word-Reads k n f x e =
      subst (λ m. Reads (take_word m f) x (to_bytes k n)) (length-to_bytes k n)
        (subst (λ y. Reads (take_word (length (to_bytes k n)) f) y (to_bytes k n)) e
          (Reads-map f (buffer_take-Reads (to_bytes k n))))

-- The bytes of a string, read under the size that came before them.
abbrev take_chars : ℕ → Buffer → Option (CString × Buffer)
take_chars size b = do (bytes, b') ← buffer_take b size; s ← until_zero bytes; some (s, b')

pub take_uint32-Reads : (n : ℕ) → n < 2 ^ 32 → Reads take_uint32_from_buffer n (to_bytes 4 n)
unfolding take_uint32_from_buffer
take_uint32-Reads n h = take_word-Reads 4 n of_bytes n (of_bytes-to_bytes_4 n h)

pub take_int32-Reads : (z : ℤ) → IsInt z → Reads take_int32_from_buffer z (to_bytes 4 (to_word z))
unfolding take_int32_from_buffer
take_int32-Reads z h =
    take_word-Reads 4 (to_word z) (λ bs. of_word (of_bytes bs)) z
      (ap of_word (of_bytes-to_bytes_4 (to_word z) (to_word-lt z)) ∙ of_word-to_word z h)

pub take_uint8-Reads : (n : ℕ) → n < 2 ^ 8 → Reads take_uint8_from_buffer n (to_bytes 1 n)
unfolding take_uint8_from_buffer
take_uint8-Reads n h = take_word-Reads 1 n of_bytes n (of_bytes-to_bytes_1 n h)

pub take_double-Reads : (n : ℕ) → n < 2 ^ 64 → Reads take_double_from_buffer n (to_bytes 8 n)
unfolding take_double_from_buffer
take_double-Reads n h = take_word-Reads 8 n of_bytes n (of_bytes-to_bytes_8 n h)

take_chars-Reads :
    (s : CString) → IsCString s → Reads (take_chars (length (s ++ 0 ∷ []))) s (s ++ 0 ∷ [])
take_chars-Reads s h = record {
  at = λ b ds r.
      let (b1, e1, h1) = (buffer_take-Reads (s ++ 0 ∷ [])).at b ds r in
      (b1, rw e1 (rw (until_zero-append s h)), h1);
}

pub take_string-Reads :
    (s : CString)
    → IsCString s
    → length s + 1 < 2 ^ 32
    → Reads take_string_from_buffer s (string_bytes s)
unfolding take_string_from_buffer
take_string-Reads s h small =
    Reads-then take_chars (take_uint32-Reads (add_u32 (length s) 1) (omega arith)) (
      subst (λ n. Reads (take_chars n) s (s ++ 0 ∷ [])) (omega (arith, length-append s (0 ∷ [])))
        (take_chars-Reads s h))

module _ (lib : Commons) {A : Type 0} (enc : A → List ℕ) (take_value : Buffer → Option (A × Buffer))
    (Good : A → Type 0) (take-Reads : (x : A) → Good x → Reads take_value x (enc x)) where
  items-Reads :
      (xs done : List A)
      → All Good xs
      → Reads (take_items lib (length xs) done take_value) (done ++ xs) (item_bytes enc xs)
  unfolding take_items
  items-Reads [] done g = record { at = λ b ds h. (b, rw append-nil, h) }
  items-Reads (x ∷ xs) done g =
      subst
        (λ ys.
          Reads (take_items lib (suc (length xs)) done take_value) ys (item_bytes enc (x ∷ xs)))
        (ap (λ ys. ys ++ xs) (lib.list_add_lem done x) ∙ append_assoc done (x ∷ []) xs)
        (Reads-then (λ a. take_items lib (length xs) (lib.list_add done a) take_value)
          (take-Reads x g.0) (items-Reads xs (lib.list_add done x) g.1))

  pub take_list-Reads :
      (xs : List A)
      → All Good xs
      → length xs < 2 ^ 32
      → Reads (λ b. take_list_from_buffer lib b take_value) xs (list_bytes enc xs)
  unfolding take_list_from_buffer
  take_list-Reads xs g small =
      Reads-then (λ n. take_items lib n [] take_value)
        (take_uint32-Reads (length xs % 2 ^ 32) (omega arith))
        (subst (λ n. Reads (take_items lib n [] take_value) xs (item_bytes enc xs)) (omega arith)
          (items-Reads xs [] g))
