-- ===== src/Shared/Socket/Send.antt =====
-- `send_all` over calls of `send` that take a part each.
use old_so_tp.Prelude.{
  ℕ, zero, suc, ◌+◌, ◌≤◌, ◌<◌, ◌≡◌, refl, ap, ◌∙◌, ◌⊎◌, inl, inr, some, List, [], ◌∷◌, ◌++◌,
  append_assoc, append-nil, arith, length, take, drop, length-drop, take-append-drop,
  take-take-drop, All,
}
use old_so_tp.Prelude.Int.{ℤ, pos, negsuc}
use old_so_tp.Shared.Socket.{Outgoing, send_loop, send_all, socket_send}

-- An answer that accepts at least one byte.
abbrev pub Accepts : ℤ → Type 0
Accepts (pos n) = 0 < n
Accepts (negsuc n) = ⊥

-- A socket that goes on to accept bytes for at least `n` calls.
pub record IsOpen (n : ℕ) (s : Outgoing) : Type 0 where
  pub accepting : All Accepts s.answers
  pub enough : n ≤ length s.answers

send_loop_lem :
    (answers : List ℤ) (bs wire : List ℕ)
    → All Accepts answers
    → length bs ≤ length answers
    → (rest : List ℤ) × (send_loop answers bs wire
        ≡ some (pos 1, record { answers = rest; wire = wire ++ bs }))
      × All Accepts rest
      × (length answers ≤ length rest + length bs)
unfolding send_loop
send_loop_lem answers [] wire ok h = (answers, rw append-nil, ok, omega arith)
send_loop_lem [] (b ∷ bs) wire ok h = absurd (omega arith)
send_loop_lem (pos zero ∷ answers) (b ∷ bs) wire ok h = absurd (omega arith)
send_loop_lem (negsuc n ∷ answers) (b ∷ bs) wire ok h = absurd ok.0
send_loop_lem (pos (suc n) ∷ answers) (b ∷ bs) wire ok h =
    let l = length-drop n bs in
    let (rest, e, ok', k) =
      send_loop_lem answers (drop n bs) (wire ++ b ∷ take n bs) ok.1 (omega arith) in
    (
      rest,
      e
          ∙ ap (λ w. some (pos 1, record { answers = rest; wire = w }))
              (append_assoc wire (b ∷ take n bs) (drop n bs)
                ∙ ap (λ t. wire ++ b ∷ t) (take-append-drop n bs)),
      ok',
      omega arith,
    )

-- On a connection that goes on to accept at least one byte in each call, `send_all` returns 1 with
-- all the bytes out, in order.
pub send_all-sends :
    (s : Outgoing) (bs : List ℕ) (n : ℕ)
    → IsOpen (length bs + n) s
    → (s' : Outgoing) × (send_all s bs ≡ some (pos 1, s')) × (s'.wire ≡ s.wire ++ bs) × IsOpen n s'
unfolding send_all
send_all-sends s bs n open_socket =
    let k = open_socket.enough in
    let (rest, e, ok, l) = send_loop_lem s.answers bs s.wire open_socket.accepting (omega arith) in
    (
      record { answers = rest; wire = s.wire ++ bs },
      e,
      refl,
      record { accepting = ok; enough = omega arith },
    )

pub socket_send-sends :
    (s : Outgoing) (bs : List ℕ) (n : ℕ)
    → IsOpen (length bs + n) s
    → (s' : Outgoing) × (socket_send s bs ≡ some s') × (s'.wire ≡ s.wire ++ bs) × IsOpen n s'
unfolding socket_send
socket_send-sends s bs n open_socket =
    let (s', e, w, o) = send_all-sends s bs n open_socket in (s', rw e, w, o)

-- The wire after `send_all`: a prefix of the bytes was added, all of them if the result is 1, and
-- otherwise the result is what `send` returned, 0 or an error.
pub record Sent (wire bs : List ℕ) (result : ℤ) (s : Outgoing) : Type 0 where
  pub count : ℕ
  pub added : s.wire ≡ wire ++ take count bs
  pub outcome :
      ((result ≡ pos 1) × (s.wire ≡ wire ++ bs))
      ⊎ ((result ≡ pos 0) ⊎ ((n : ℕ) × (result ≡ negsuc n)))

Sent-prefix :
    {wire bs : List ℕ} {result : ℤ} {s : Outgoing} (n : ℕ)
    → Sent (wire ++ take n bs) (drop n bs) result s
    → Sent wire bs result s
Sent-prefix {wire} {bs} n sent = record {
  count = n + sent.count;
  added =
      sent.added
      ∙ append_assoc wire (take n bs) (take sent.count (drop n bs))
      ∙ ap (◌++◌ wire) (take-take-drop n sent.count bs);
  outcome = elim sent.outcome [
    | inl (one, whole) ↦ inl (
      one,
      whole ∙ append_assoc wire (take n bs) (drop n bs) ∙ ap (◌++◌ wire) (take-append-drop n bs),
    )
    | inr other ↦ inr other
  ];
}

send_loop-Sent :
    (answers : List ℤ) (bs wire : List ℕ) (result : ℤ) (s : Outgoing)
    → send_loop answers bs wire ≡ some (result, s)
    → Sent wire bs result s
unfolding send_loop
send_loop-Sent answers [] wire result s h = record {
  count = 0;
  added = ground (arith, append-nil wire);
  outcome = inl (ground arith, ground (arith, append-nil wire));
}
send_loop-Sent [] (b ∷ bs) wire result s h = absurd (ground arith)
send_loop-Sent (pos zero ∷ answers) (b ∷ bs) wire result s h = record {
  count = 0;
  added = ground (arith, append-nil wire);
  outcome = inr (inl (ground arith));
}
send_loop-Sent (negsuc n ∷ answers) (b ∷ bs) wire result s h = record {
  count = 0;
  added = ground (arith, append-nil wire);
  outcome = inr (inr (n, ground arith));
}
send_loop-Sent (pos (suc n) ∷ answers) (b ∷ bs) wire result s h =
    Sent-prefix (suc n) (send_loop-Sent answers (drop n bs) (wire ++ b ∷ take n bs) result s h)

-- Whatever `send` answers, when `send_all` returns, a prefix of the bytes is out behind what was
-- sent before; the result is 1 and all of them are out, or it is 0 or an error of `send`.
pub send_all-Sent :
    (s s' : Outgoing) (bs : List ℕ) (result : ℤ)
    → send_all s bs ≡ some (result, s')
    → Sent s.wire bs result s'
unfolding send_all
send_all-Sent s s' bs result h = send_loop-Sent s.answers bs s.wire result s' h
