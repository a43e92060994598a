-- ===== src/Protocol/Canonical.antt =====
-- What `decode_frame` accepts is the encoding of what it returns.
use shared_bike_refactor.Base.{
  ℕ, suc, ◌+◌, ◌*◌, ◌<◌, ◌≤◌, ◌≡◌, [], ◌∷◌, length, take, arith, All, ap, length-take, ltb, ◌^◌,
  ap₂, ◌++◌, false,
}
use shared_bike_refactor.Base.Dict.{Bytes}
use shared_bike_refactor.Protocol.Header.{by_header, decoded_has_header}
use shared_bike_refactor.Base.Outcome.{ok}
use shared_bike_refactor.Protocol.{
  Frame, IsFrame, IsByte, encode, decode_frame, decoded, header_len, max_message_len, put_u16_le,
  put_u32_le,
}

-- The bytes of a number that was put together from bytes.
put-get_u16 : (a b : ℕ) → a < 256 → b < 256 → put_u16_le (a + b * 2 ^ 8) ≡ a ∷ b ∷ []
put-get_u16 a b ha hb = ap₂ (λ x y. x ∷ y ∷ []) (omega arith) (omega arith)

put-get_u32 :
    (a b c d : ℕ)
    → a < 256
    → b < 256
    → c < 256
    → d < 256
    → put_u32_le (a + b * 2 ^ 8 + c * 2 ^ 16 + d * 2 ^ 24) ≡ a ∷ b ∷ c ∷ d ∷ []
put-get_u32 a b c d ha hb hc hd =
    ap₂ ◌++◌ (ap₂ (λ x y. x ∷ y ∷ []) (omega arith) (omega arith))
      (ap₂ (λ x y. x ∷ y ∷ []) (omega arith) (omega arith))

-- The statement about one buffer.
abbrev IsCanonical : Bytes → Type 0
IsCanonical buf =
    (decode_frame buf).status ≡ decoded
    → IsFrame (decode_frame buf).frame
      × (encode (decode_frame buf).frame ≡ ok (take (decode_frame buf).consumed buf))

-- At a buffer whose fourteen header bytes are named.
module _ (a b c d e f g h i j k l m n : ℕ) (rest : Bytes) where
  abbrev buf : Bytes
  buf = a ∷ b ∷ c ∷ d ∷ e ∷ f ∷ g ∷ h ∷ i ∷ j ∷ k ∷ l ∷ m ∷ n ∷ rest

  abbrev len : ℕ
  len = k + l * 2 ^ 8 + m * 2 ^ 16 + n * 2 ^ 24

  -- The frame that is read from it.
  abbrev read : Frame
  read = record {
    event_id = e + f * 2 ^ 8;
    seq = g + h * 2 ^ 8 + i * 2 ^ 16 + j * 2 ^ 24;
    payload = take len rest;
  }

  accepted :
      (decode_frame buf).status ≡ decoded
      → ((decode_frame buf).frame ≡ read)
        × ((decode_frame buf).consumed ≡ header_len + len)
        × (a ≡ b'F')
        × (b ≡ b'B')
        × (c ≡ b'E')
        × (d ≡ b'B')
        × (len ≤ max_message_len)
        × (len ≤ length rest)
  unfolding decode_frame
  accepted s = ground arith

  take_header :
      take (header_len + len) buf
      ≡ a ∷ b ∷ c ∷ d ∷ e ∷ f ∷ g ∷ h ∷ i ∷ j ∷ k ∷ l ∷ m ∷ n ∷ take len rest
  take_header =
      ap {B = Bytes} (λ (t : ℕ). take t buf)
        {y = suc (suc (suc (suc (suc (suc (suc (suc (suc (suc (suc (suc (suc (suc len)))))))))))))}
        (omega arith)

  encode-read :
      All IsByte buf
      → a ≡ b'F'
      → b ≡ b'B'
      → c ≡ b'E'
      → d ≡ b'B'
      → len ≤ max_message_len
      → len ≤ length rest
      → encode read ≡ ok (take (header_len + len) buf)
  unfolding encode
  encode-read v ha hb hc hd small fits = cc (
    payload_len,
    payload_small,
    put-get_u16 e f (omega arith) (omega arith),
    put-get_u32 g h i j (omega arith) (omega arith) (omega arith) (omega arith),
    put-get_u32 k l m n (omega arith) (omega arith) (omega arith) (omega arith),
    take_header,
  )
    where
      payload_len : length (take len rest) ≡ len
      payload_len = omega (arith, length-take len rest)

      payload_small : ltb max_message_len len ≡ false
      payload_small = ground arith

  IsCanonical-header : All IsByte buf → IsCanonical buf
  IsCanonical-header v s =
      let (eq_frame, eq_consumed, ha, hb, hc, hd, small, fits) = accepted s in
      rw (eq_frame, eq_consumed)
        (
          record { event_fits = omega arith; seq_fits = omega arith },
          encode-read v ha hb hc hd small fits,
        )

-- A buffer that decodes holds, in the bytes consumed, exactly the encoding of the decoded frame,
-- whose fields are in range.
pub encode-decode_frame :
    (xs : Bytes)
    → All IsByte xs
    → (decode_frame xs).status ≡ decoded
    → IsFrame (decode_frame xs).frame
      × (encode (decode_frame xs).frame ≡ ok (take (decode_frame xs).consumed xs))
encode-decode_frame xs v s =
    by_header (λ ys. All IsByte ys → IsCanonical ys) IsCanonical-header xs
      (decoded_has_header xs (λ e. cc)) v s
