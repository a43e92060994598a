-- ===== src/Protocol/Prefix.antt =====
-- `decode_frame` on a growing buffer: a verdict other than `need_more` is final, and a proper prefix
-- of an encoding needs more.
use shared_bike_refactor.Base.{
  ℕ, ◌+◌, ◌*◌, ◌^◌, ◌≤◌, ◌≡◌, ◌≢◌, refl, sym, ◌∙◌, ap, ◌⊎◌, inl, inr, [], ◌∷◌, ◌++◌, length, arith,
  length-append, take-append_le, append-nil,
}
use shared_bike_refactor.Base.Dict.{Bytes}
use shared_bike_refactor.Base.Outcome.{ok}
use shared_bike_refactor.Protocol.{
  Frame, IsFrame, encode, decode_frame, decoded, need_more, bad_frame, stopped, header_len,
  DecodeStatus,
}
use shared_bike_refactor.Protocol.Header.{by_header, decoded_has_header}
use shared_bike_refactor.Protocol.RoundTrip.{decode_frame-encode}

-- A decoded frame takes its header at least, and no more than the buffer holds.
pub consumed_bounds :
    (xs : Bytes)
    → (decode_frame xs).status ≡ decoded
    → (header_len ≤ (decode_frame xs).consumed) × ((decode_frame xs).consumed ≤ length xs)
unfolding decode_frame
consumed_bounds xs s = ground arith

pub need_more_stopped :
    (xs : Bytes) → (decode_frame xs).status ≡ need_more → decode_frame xs ≡ stopped need_more
unfolding decode_frame
need_more_stopped xs s = ground arith

append_header :
    (ys : Bytes) (a b c d e f g h i j k l m n : ℕ) (rest : Bytes)
    → let xs : Bytes = a ∷ b ∷ c ∷ d ∷ e ∷ f ∷ g ∷ h ∷ i ∷ j ∷ k ∷ l ∷ m ∷ n ∷ rest in
      (decode_frame xs).status ≢ need_more → decode_frame (xs ++ ys) ≡ decode_frame xs
unfolding decode_frame
append_header ys a b c d e f g h i j k l m n rest s =
    ground (
      arith,
      length-append rest ys,
      take-append_le (k + l * 2 ^ 8 + m * 2 ^ 16 + n * 2 ^ 24) rest ys,
    )

-- Bytes that arrive later change neither a decoded frame nor the verdict that a frame is bad.
pub decode_frame-append :
    (xs ys : Bytes)
    → (decode_frame xs).status ≢ need_more
    → decode_frame (xs ++ ys) ≡ decode_frame xs
decode_frame-append xs ys s =
    by_header
      (λ zs. (decode_frame zs).status ≢ need_more → decode_frame (zs ++ ys) ≡ decode_frame zs)
      (append_header ys) xs (decoded_has_header xs s) s

DecodeStatus-cases :
    (s : DecodeStatus) → (s ≡ need_more) ⊎ ((s ≢ need_more) × ((s ≡ decoded) ⊎ (s ≡ bad_frame)))
DecodeStatus-cases need_more = inl refl
DecodeStatus-cases bad_frame = inr (λ e. cc, inr refl)
DecodeStatus-cases decoded = inr (λ e. cc, inl refl)

-- On every proper prefix of an encoded frame the decoder answers that it needs more bytes.
decode_frame_truncated :
    (f : Frame) (front : Bytes) (x : ℕ) (back : Bytes)
    → IsFrame f
    → encode f ≡ ok (front ++ (x ∷ back))
    → decode_frame front ≡ stopped need_more
decode_frame_truncated f front x back v e = elim (DecodeStatus-cases (decode_frame front).status) [
  | inl s ↦ need_more_stopped front s
  | inr (s, _) ↦ absurd (
      ground (
        arith,
        consumed_bounds front,
        length-append front (x ∷ back),
        sym (decode_frame-append front (x ∷ back) s)
            ∙ ap decode_frame (sym (append-nil (front ++ (x ∷ back))))
            ∙ decode_frame-encode f (front ++ (x ∷ back)) [] v e,
      ))
]

pub empty_needs_more : (decode_frame []).status ≡ need_more
unfolding decode_frame
empty_needs_more = refl
