-- ===== src/Legacy/NetworkInterface/Stages.antt =====
-- The two stages of a request: its header, and its payload.
use shared_bike_refactor.Base.{
  ℕ, zero, suc, ◌+◌, ◌-◌, ◌^◌, ◌≤◌, ◌<◌, ◌≡◌, refl, sym, ap, ap₂, ◌∙◌, true, false, Option, some,
  [], ◌∷◌, ◌++◌, length, take, drop, ◌==◌, arith, append_assoc, length-append, take_all,
  drop-append_le, length-drop, take-append_le, take-append-drop,
}
use shared_bike_refactor.Base.Dict.{Bytes, bytes_eq}
use shared_bike_refactor.Protocol.{
  frame_magic, max_message_len, put_u16_le, put_u32_le, get_u16_le, get_u32_le,
}
use shared_bike_refactor.Legacy.NetworkInterface.{
  ConnectSession, kept, enqueued, ss_request, ss_response, ms_read_header, ms_read_message,
  handle_request, handle_body, read_header, read_message, check_header, after_header, is_request,
  is_header,
}

take-append_more :
    (n : ℕ) (xs ys : Bytes) → length xs ≤ n → take n (xs ++ ys) ≡ xs ++ take (n - length xs) ys
take-append_more n [] ys h = ap (λ (k : ℕ). take k ys) (omega arith)
take-append_more zero (x ∷ xs) ys h = absurd (omega arith)
take-append_more (suc n) (x ∷ xs) ys h =
    ap (◌∷◌ x)
      (take-append_more n xs ys (omega arith) ∙ ap (λ (k : ℕ). xs ++ take k ys) (omega arith))

drop-append_more :
    (n : ℕ) (xs ys : Bytes) → length xs ≤ n → drop n (xs ++ ys) ≡ drop (n - length xs) ys
drop-append_more n [] ys h = ap (λ (k : ℕ). drop k ys) (omega arith)
drop-append_more zero (x ∷ xs) ys h = absurd (omega arith)
drop-append_more (suc n) (x ∷ xs) ys h =
    drop-append_more n xs ys (omega arith) ∙ ap (λ (k : ℕ). drop k ys) (omega arith)

pub drop_all : (n : ℕ) (xs : Bytes) → length xs ≤ n → drop n xs ≡ []
drop_all zero [] h = refl
drop_all zero (x ∷ xs) h = absurd (omega arith)
drop_all (suc n) [] h = refl
drop_all (suc n) (x ∷ xs) h = drop_all n xs (omega arith)

module _ (eid : ℕ) (payload : Bytes) where
  abbrev pub head : Bytes
  head = frame_magic ++ put_u16_le eid ++ put_u32_le (length payload)

  -- The session has read `q`, a part of the request that is not the whole.
  pub data IsReading {E : Type 0} (q : Bytes) (cs : ConnectSession E) : Type 0 where
    in_header :
        length q < 10
        → cs.session_stat ≡ ss_request
        → cs.req_stat ≡ ms_read_header
        → cs.header ≡ q
        → IsReading q cs
    in_message :
        10 ≤ length q
        → cs.session_stat ≡ ss_request
        → cs.req_stat ≡ ms_read_message
        → cs.eid ≡ eid
        → cs.message_len ≡ length payload
        → cs.read_buf ≡ drop 10 q
        → IsReading q cs

module _ {E : Type 0} (eid : ℕ) (payload : Bytes) where
  -- A session whose header has been read.
  abbrev pub headed : ConnectSession E → ConnectSession E
  headed cs = record cs {
    header = head eid payload;
    eid = eid;
    message_len = length payload;
    read_buf = [];
    req_stat = ms_read_message;
  }

module _ (eid : ℕ) (payload : Bytes) where
  -- Where the header ends within the bytes that came.
  module _ (q input more : Bytes) (lt : length q < 10) (ge : 10 ≤ length q + length input)
      (e : q ++ (input ++ more) ≡ head eid payload ++ payload) where
    abbrev room : ℕ
    room = 10 - length q

    pub header_bytes : q ++ take room input ≡ head eid payload
    header_bytes =
        ap (◌++◌ q) (sym (take-append_le room input more (omega arith)))
        ∙ sym (take-append_more 10 q (input ++ more) (omega arith))
        ∙ ap (take 10) e

    pub payload_bytes : drop room input ++ more ≡ payload
    payload_bytes =
        sym (drop-append_le room input more (omega arith))
        ∙ sym (drop-append_more 10 q (input ++ more) (omega arith))
        ∙ ap (drop 10) e

    pub joined_bytes : head eid payload ++ drop room input ≡ q ++ input
    joined_bytes =
        ap (λ h. h ++ drop room input) (sym header_bytes)
        ∙ append_assoc q (take room input) (drop room input)
        ∙ ap (◌++◌ q) (take-append-drop room input)

module _ {E : Type 0} (parse_event : Bytes → ℕ → Option E) (eid : ℕ) (payload : Bytes)
    (eid_fits : eid < 2 ^ 16) (some_payload : 0 < length payload)
    (payload_fits : length payload ≤ max_message_len) where
  head_checked :
      (cs : ConnectSession E)
      → cs.header ≡ head eid payload
      → check_header cs
        ≡ some (record cs {
          eid = eid;
          message_len = length payload;
          read_buf = [];
          req_stat = ms_read_message;
        })
  unfolding check_header bytes_eq
  head_checked cs e =
      let e16 : get_u16_le (head eid payload) 4 ≡ eid = omega arith in
      let e32 : get_u32_le (head eid payload) 6 ≡ length payload = omega arith in
      let magic : bytes_eq (take 4 cs.header) frame_magic ≡ true =
        ap (λ h. bytes_eq (take 4 h) frame_magic) e in
      let at4 : get_u16_le cs.header 4 ≡ eid = ap (λ h. get_u16_le h 4) e ∙ e16 in
      let at6 : get_u32_le cs.header 6 ≡ length payload = ap (λ h. get_u32_le h 6) e ∙ e32 in
      rw (magic, at4, at6) (ground arith)

  module _ (cs : ConnectSession E) (input : Bytes) (req : cs.req_stat ≡ ms_read_message)
      (some_input : 0 < length input) where
    body_lem : handle_body parse_event cs input ≡ read_message parse_event cs input
    unfolding handle_body
    body_lem = ground arith

    read_part :
        length cs.read_buf + length input < cs.message_len
        → handle_body parse_event cs input ≡ kept (record cs { read_buf = cs.read_buf ++ input }) []
    unfolding read_message
    read_part lt =
        let room = cs.message_len - length cs.read_buf in
        let t = take_all room input (omega arith) in
        let d = drop_all room input (omega arith) in
        let short : (length (cs.read_buf ++ input) == cs.message_len) ≡ false =
          ground (arith, length-append cs.read_buf input) in
        body_lem ∙ rw (t, d, short) refl

    read_end :
        (ev : E)
        → length cs.read_buf + length input ≡ cs.message_len
        → parse_event (cs.read_buf ++ input) cs.eid ≡ some ev
        → handle_body parse_event cs input
          ≡ enqueued
              (record cs { session_stat = ss_response; read_buf = []; request = some ev })
              []
              ev
    unfolding read_message
    read_end ev full parsed =
        let room = cs.message_len - length cs.read_buf in
        let t = take_all room input (omega arith) in
        let d = drop_all room input (omega arith) in
        let whole : (length (cs.read_buf ++ input) == cs.message_len) ≡ true =
          ground (arith, length-append cs.read_buf input) in
        body_lem ∙ rw (t, whole) (rw (parsed, read_message) (rw d))

  -- The payload, from a part of it on.
  pub message_part :
      (cs : ConnectSession E) (q input more : Bytes)
      → IsReading eid payload q cs
      → 10 ≤ length q
      → 0 < length input
      → 0 < length more
      → q ++ (input ++ more) ≡ head eid payload ++ payload
      → (cs' : ConnectSession E) × (handle_body parse_event cs input ≡ kept cs' [])
        × IsReading eid payload (q ++ input) cs'
  message_part cs q input more (in_header lt _ _ _) ge some_input some_more e = absurd (omega arith)
  message_part cs q input more (in_message _ stat req at len buf) ge some_input some_more e =
      let total = ap length e in
      let sizes : length q + (length input + length more) ≡ 10 + length payload = omega (
        arith,
        total,
        length-append q (input ++ more),
        length-append input more,
        length-append (head eid payload) payload,
      ) in
      let had = ap length buf in
      (
        record cs { read_buf = cs.read_buf ++ input },
        read_part cs input req some_input (omega (arith, had, length-drop 10 q)),
        in_message (omega (arith, length-append q input)) stat req at len
            (ap (λ b. b ++ input) buf ∙ sym (drop-append_le 10 q input ge)),
      )

  pub message_end :
      (cs : ConnectSession E) (q input : Bytes) (ev : E)
      → IsReading eid payload q cs
      → 10 ≤ length q
      → 0 < length input
      → q ++ input ≡ head eid payload ++ payload
      → parse_event payload eid ≡ some ev
      → (cs' : ConnectSession E) × (handle_body parse_event cs input ≡ enqueued cs' [] ev)
        × (cs'.session_stat ≡ ss_response)
        × (cs'.request ≡ some ev)
  message_end cs q input ev (in_header lt _ _ _) ge some_input e parsed = absurd (omega arith)
  message_end cs q input ev (in_message _ stat req at len buf) ge some_input e parsed =
      let sizes : length q + length input ≡ 10 + length payload =
        omega
          (arith, ap length e, length-append q input, length-append (head eid payload) payload) in
      let had = ap length buf in
      let body : cs.read_buf ++ input ≡ payload =
        ap (λ b. b ++ input) buf ∙ sym (drop-append_le 10 q input ge) ∙ ap (drop 10) e in
      (
        record cs { session_stat = ss_response; read_buf = []; request = some ev },
        read_end cs input req some_input ev (omega (arith, had, length-drop 10 q))
            (ap₂ parse_event body at ∙ parsed),
        refl,
        refl,
      )

  -- The header, and what follows it.
  module _ (cs : ConnectSession E) (stat : cs.session_stat ≡ ss_request)
      (req : cs.req_stat ≡ ms_read_header) where
    header_stage :
        (cs' : ConnectSession E) (input rest : Bytes)
        → read_header cs input ≡ (some cs', rest)
        → handle_request parse_event cs input ≡ handle_body parse_event cs' rest
    unfolding handle_request after_header
    header_stage cs' input rest e =
        let asks = ap is_request stat in let heads = ap is_header req in rw (asks, heads, e)

    pub header_short :
        (input : Bytes)
        → length cs.header + length input < 10
        → handle_request parse_event cs input ≡ kept (record cs { header = cs.header ++ input }) []
    unfolding read_header handle_body
    header_short input lt =
        let room = 10 - length cs.header in
        let t = take_all room input (omega arith) in
        let d = drop_all room input (omega arith) in
        let short : (length (cs.header ++ input) == 10) ≡ false =
          ground (arith, length-append cs.header input) in
        let heads = ap is_header req in
        header_stage (record cs { header = cs.header ++ input }) input [] (rw (t, d, short))
        ∙ rw heads

    pub header_whole :
        (input : Bytes)
        → 10 ≤ length cs.header + length input
        → length cs.header < 10
        → cs.header ++ take (10 - length cs.header) input ≡ head eid payload
        → handle_request parse_event cs input
          ≡ handle_body parse_event
              (record cs {
                header = head eid payload;
                eid = eid;
                message_len = length payload;
                read_buf = [];
                req_stat = ms_read_message;
              })
              (drop (10 - length cs.header) input)
    unfolding read_header
    header_whole input ge lt e =
        let checked = head_checked (record cs { header = head eid payload }) refl in
        header_stage _ input (drop (10 - length cs.header) input) (rw (e, checked))

  pub message_stage :
      (cs : ConnectSession E) (input : Bytes)
      → cs.session_stat ≡ ss_request
      → cs.req_stat ≡ ms_read_message
      → handle_request parse_event cs input ≡ handle_body parse_event cs input
  unfolding handle_request
  message_stage cs input stat req =
      let asks = ap is_request stat in let heads = ap is_header req in rw (asks, heads)
