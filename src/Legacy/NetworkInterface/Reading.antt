-- ===== src/Legacy/NetworkInterface/Reading.antt =====
-- A request is read whole, however its bytes arrive.
use shared_bike_refactor.Base.{
  ℕ, ◌+◌, ◌-◌, ◌^◌, ◌≤◌, ◌<◌, ◌≡◌, ◌≢◌, refl, sym, ap, ◌∙◌, subst, Option, some, List, [], ◌∷◌,
  ◌++◌, length, take, drop, ltb, leb, arith, append-nil, append_assoc, length-append, length-drop,
  Bool-cases, inl, inr, All,
}
use shared_bike_refactor.Base.Dict.{Bytes}
use shared_bike_refactor.Protocol.{max_message_len}
use shared_bike_refactor.Gateway.FrameCut.Stream.{concat}
use shared_bike_refactor.Legacy.NetworkInterface.{
  ConnectSession, Handled, kept, closed, enqueued, ss_request, ss_response, ms_read_header,
  handle_request, handle_body, assemble_hb,
}
use shared_bike_refactor.Legacy.NetworkInterface.Stages.{
  IsReading, in_header, in_message, head, headed, drop_all, message_part, message_end, header_short,
  header_whole, message_stage, header_bytes, payload_bytes, joined_bytes,
}

module _ {E : Type 0} (parse_event : Bytes → ℕ → Option E) where
  -- The callback at each arrival of bytes, as long as the session reads a request.
  pub feed : ConnectSession E → Bytes → List Bytes → Handled E
  feed cs buffered [] = kept cs buffered
  feed cs buffered (c ∷ chunks) = elim (handle_request parse_event cs (buffered ++ c)) [
    | kept cs' rest ↦ feed cs' rest chunks
    | closed ↦ closed
    | enqueued cs' rest ev ↦ enqueued cs' (rest ++ concat chunks) ev
  ]

abbrev IsNonempty : Bytes → Type 0
IsNonempty bs = 0 < length bs

module _ {E : Type 0} (parse_event : Bytes → ℕ → Option E) (eid : ℕ) (payload : Bytes)
    (eid_fits : eid < 2 ^ 16) (some_payload : 0 < length payload)
    (payload_fits : length payload ≤ max_message_len) where
  past_header :
      (cs : ConnectSession E) (q input more : Bytes) (lt : length q < 10)
      (ge : 10 ≤ length q + length input) (e : q ++ (input ++ more) ≡ head eid payload ++ payload)
      → cs.session_stat ≡ ss_request
      → cs.req_stat ≡ ms_read_header
      → cs.header ≡ q
      → handle_request parse_event cs input
        ≡ handle_body parse_event (headed eid payload cs) (drop (10 - length q) input)
  past_header cs q input more lt ge e stat req at =
      header_whole parse_event eid payload eid_fits some_payload payload_fits cs stat req input
        (omega (arith, ap length at)) (omega (arith, ap length at))
        (ap (λ h. h ++ take (10 - length h) input) at
          ∙ header_bytes eid payload q input more lt ge e)
      ∙ ap (λ h. handle_body parse_event (headed eid payload cs) (drop (10 - length h) input)) at

  headed-IsReading :
      (cs : ConnectSession E)
      → cs.session_stat ≡ ss_request
      → IsReading eid payload (head eid payload) (headed eid payload cs)
  headed-IsReading cs stat = in_message (omega arith) stat refl refl refl refl

  body_empty : (cs : ConnectSession E) → handle_body parse_event cs [] ≡ kept cs []
  unfolding handle_body
  body_empty cs = ground arith

  handle_part :
      (cs : ConnectSession E) (q input more : Bytes)
      → IsReading eid payload q cs
      → 0 < length input
      → 0 < length more
      → q ++ (input ++ more) ≡ head eid payload ++ payload
      → (cs' : ConnectSession E) × (handle_request parse_event cs input ≡ kept cs' [])
        × IsReading eid payload (q ++ input) cs'
  handle_part cs q input more (in_message ge stat req at len buf) some_input some_more e =
      let (cs', done, reading) =
        message_part parse_event eid payload eid_fits some_payload payload_fits cs q input more
          (in_message ge stat req at len buf) ge some_input some_more e in
      (
        cs',
        message_stage parse_event eid payload eid_fits some_payload payload_fits cs input stat req
            ∙ done,
        reading,
      )
  handle_part cs q input more (in_header lt stat req at) some_input some_more e =
      elim (Bool-cases (ltb (length q + length input) 10)) [
        | inl short ↦ (
          record cs { header = cs.header ++ input },
          header_short parse_event eid payload eid_fits some_payload payload_fits cs stat req input
              (ground (arith, ap length at)),
          in_header (ground (arith, length-append q input)) stat req (ap (λ h. h ++ input) at),
        )
        | inr long ↦
            let ge : 10 ≤ length q + length input = ground arith in
            let k = 10 - length q in
            let over = past_header cs q input more lt ge e stat req at in
            let joined = joined_bytes eid payload q input more lt ge e in
            elim (Bool-cases (leb (length input) k)) [
              | inl none_left ↦
                  let d = drop_all k input (ground arith) in
                  (
                    headed eid payload cs,
                    over
                        ∙ ap (handle_body parse_event (headed eid payload cs)) d
                        ∙ body_empty (headed eid payload cs),
                    subst (λ p. IsReading eid payload p (headed eid payload cs))
                        (sym (append-nil (head eid payload))
                          ∙ ap (◌++◌ (head eid payload)) (sym d)
                          ∙ joined)
                        (headed-IsReading cs stat),
                  )
              | inr some_left ↦
                  let (cs', done, reading) =
                    message_part parse_event eid payload eid_fits some_payload payload_fits
                      (headed eid payload cs) (head eid payload) (drop k input) more
                      (headed-IsReading cs stat) (omega arith) (ground (arith, length-drop k input))
                      some_more
                      (ap (◌++◌ (head eid payload))
                        (payload_bytes eid payload q input more lt ge e)) in
                  (cs', over ∙ done, subst (λ p. IsReading eid payload p cs') joined reading)
            ]
      ]

  pub handle_end :
      (cs : ConnectSession E) (q input : Bytes) (ev : E)
      → IsReading eid payload q cs
      → 0 < length input
      → q ++ input ≡ head eid payload ++ payload
      → parse_event payload eid ≡ some ev
      → (cs' : ConnectSession E) × (handle_request parse_event cs input ≡ enqueued cs' [] ev)
        × (cs'.session_stat ≡ ss_response)
        × (cs'.request ≡ some ev)
  handle_end cs q input ev (in_message ge stat req at len buf) some_input e parsed =
      let (cs', done, waits, asked) =
        message_end parse_event eid payload eid_fits some_payload payload_fits cs q input ev
          (in_message ge stat req at len buf) ge some_input e parsed in
      (
        cs',
        message_stage parse_event eid payload eid_fits some_payload payload_fits cs input stat req
            ∙ done,
        waits,
        asked,
      )
  handle_end cs q input ev (in_header lt stat req at) some_input e parsed =
      let k = 10 - length q in
      let e' : q ++ (input ++ []) ≡ head eid payload ++ payload =
        ap (◌++◌ q) (append-nil input) ∙ e in
      let sizes : length q + length input ≡ 10 + length payload =
        omega
          (arith, ap length e, length-append q input, length-append (head eid payload) payload) in
      let ge : 10 ≤ length q + length input = omega arith in
      let rest = sym (append-nil (drop k input)) ∙ payload_bytes eid payload q input [] lt ge e' in
      let (cs', done, waits, asked) =
        message_end parse_event eid payload eid_fits some_payload payload_fits
          (headed eid payload cs) (head eid payload) (drop k input) ev (headed-IsReading cs stat)
          (omega arith) (omega (arith, ap length rest)) (ap (◌++◌ (head eid payload)) rest)
          parsed in
      (cs', past_header cs q input [] lt ge e' stat req at ∙ done, waits, asked)

  -- Whatever non-empty pieces the bytes of a request arrive in, after the last of them, and not before,
  -- the event with its number and its payload goes to the thread pool, once; all bytes are used up.
  pub feed-assemble_hb :
      (chunks : List Bytes) (cs : ConnectSession E) (q : Bytes) (ev : E)
      → All IsNonempty chunks
      → chunks ≢ []
      → IsReading eid payload q cs
      → q ++ concat chunks ≡ assemble_hb eid payload
      → parse_event payload eid ≡ some ev
      → (cs' : ConnectSession E) × (feed parse_event cs [] chunks ≡ enqueued cs' [] ev)
        × (cs'.session_stat ≡ ss_response)
        × (cs'.request ≡ some ev)
  unfolding feed assemble_hb
  feed-assemble_hb [] cs q ev v some_chunk reading e parsed = absurd (some_chunk refl)
  feed-assemble_hb (c ∷ []) cs q ev v some_chunk reading e parsed =
      let (cs', done, waits, asked) =
        handle_end cs q c ev reading v.0 (ap (◌++◌ q) (sym (append-nil c)) ∙ e) parsed in
      (cs', rw (done, feed), waits, asked)
  feed-assemble_hb (c ∷ d ∷ chunks) cs q ev v some_chunk reading e parsed =
      let more = d ++ concat chunks in
      let (cs', done, reading') =
        handle_part cs q c more reading v.0 (omega (arith, length-append d (concat chunks), v.1.0))
          e in
      let (cs'', ends, waits, asked) =
        feed-assemble_hb (d ∷ chunks) cs' (q ++ c) ev v.1 (λ z. cc) reading'
          (append_assoc q c more ∙ e) parsed in
      (cs'', rw (done, feed) ends, waits, asked)
