-- ===== src/Gateway/Connection/Backlog.antt =====
-- The send queue of a connection as one stream of bytes.
use shared_bike_refactor.Base.{
  ℕ, zero, suc, ◌-◌, ◌≤◌, ◌≡◌, refl, List, [], ◌∷◌, ◌++◌, length, drop, arith, length-append,
  length-drop, ltb, Bool-cases, inl, inr, ap, sym, ◌∙◌, drop-append_le, true,
}
use shared_bike_refactor.Base.Dict.{Bytes}
use shared_bike_refactor.Gateway.Connection.{Connection, send_pop, pop_loop}

abbrev pub stream : List Bytes → Bytes
stream [] = []
stream (b ∷ q) = b ++ stream q

minus_zero : (n : ℕ) → n - 0 ≡ n
minus_zero n = omega arith

minus_suc : (n m : ℕ) → suc n - suc m ≡ n - m
minus_suc n m = omega arith

suc-ltb : (n : ℕ) → ltb 0 (suc n) ≡ true
suc-ltb n = ground arith

drop_nil : (n : ℕ) → drop {A = ℕ} n [] ≡ []
drop_nil zero = refl
drop_nil (suc n) = refl

drop-append_ge :
    (n : ℕ) (xs ys : Bytes) → length xs ≤ n → drop n (xs ++ ys) ≡ drop (n - length xs) ys
drop-append_ge n [] ys h = rw (minus_zero n) refl
drop-append_ge zero (x ∷ xs) ys h = absurd (omega arith)
drop-append_ge (suc n) (x ∷ xs) ys h =
    drop-append_ge n xs ys (omega arith) ∙ ap (λ k. drop k ys) (sym (minus_suc n (length xs)))

pop_loop-stream :
    (n : ℕ) (q : List Bytes) (total : ℕ)
    → total ≡ length (stream q)
    → let (q', total') = pop_loop n q total in
      (stream q' ≡ drop n (stream q)) × (total' ≡ length (stream q'))
unfolding pop_loop
pop_loop-stream n [] total e = (sym (drop_nil n), e)
pop_loop-stream zero (head ∷ q) total e = (refl, e)
pop_loop-stream (suc n) (head ∷ q) total e =
    let sum = e ∙ length-append head (stream q) in
    let rest = pop_loop-stream (suc n - length head) q (total - length head) (omega (arith, sum)) in
    elim (Bool-cases (ltb (suc n) (length head))) [
      | inl lt ↦
          rw (suc-ltb n, lt, pop_loop)
            (
              sym (drop-append_le (suc n) head (stream q) (ground (arith, lt))),
              ground (
                arith,
                lt,
                sum,
                length-append (drop (suc n) head) (stream q),
                length-drop (suc n) head,
              ),
            )
      | inr ge ↦
          rw (suc-ltb n, ge, pop_loop)
            (rest.0 ∙ sym (drop-append_ge (suc n) head (stream q) (ground (arith, ge))), rest.1)
    ]

-- Of a connection whose count is the number of bytes that wait, `send_pop` takes the first `n` bytes
-- off the stream, whichever blocks they stand in, and the count stays right.
pub send_pop-stream :
    (c : Connection) (n : ℕ)
    → c.send_bytes ≡ length (stream c.send_q)
    → let c' = send_pop c n in
      (stream c'.send_q ≡ drop n (stream c.send_q)) × (c'.send_bytes ≡ length (stream c'.send_q))
unfolding send_pop
send_pop-stream c n e = pop_loop-stream n c.send_q c.send_bytes e
