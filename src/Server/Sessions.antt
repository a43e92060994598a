-- ===== src/Server/Sessions.antt =====
-- `InMemorySessionStore`: login codes and session tokens with a time to live. A time point is a number
-- of nanoseconds; a random draw is an argument.
use shared_bike_refactor.Base.{
  ℕ, zero, suc, ◌+◌, ◌*◌, ◌/◌, ◌%◌, ◌^◌, ◌≤◌, ◌<◌, ◌≡◌, Option, none, some, [], ◌∷◌, ◌++◌, ltb,
  if◌then◌else◌, arith,
}
use shared_bike_refactor.Base.Dict.{
  Bytes, Dict, lookup, insert, erase, bytes_key, lookup-insert_self, lookup-erase_self,
}

pub record CodeEntry : Type 0 where
  pub code : ℕ
  pub expiry : ℕ

-- `struct Entry`
pub record Entry : Type 0 where
  pub mobile : Bytes
  pub expiry : ℕ

pub record SessionStore : Type 0 where
  pub codes : Dict Bytes CodeEntry
  pub sessions : Dict Bytes Entry

abbrev pub empty : SessionStore
empty = record { codes = []; sessions = [] }

abbrev pub seconds : ℕ → ℕ
seconds n = n * 10 ^ 9

abbrev pub code_ttl : ℕ
code_ttl = seconds 300

abbrev pub session_ttl : ℕ
session_ttl = seconds (7 * 24 * 3600)

-- `c` is the draw from 100000 to 999999.
unfoldable pub set_code : SessionStore → Bytes → ℕ → ℕ → ℕ × SessionStore
set_code s m c now =
    (c, record s { codes = insert m (record { code = c; expiry = now + code_ttl }) s.codes })

-- An entry whose time has passed is erased.
unfoldable pub get_code : SessionStore → Bytes → ℕ → Option ℕ × SessionStore
get_code s m now = elim (lookup m s.codes) [
  | none ↦ (none, s)
  | some e ↦
      if ltb e.expiry now then (none, record s { codes = erase m s.codes }) else (some e.code, s)
]

unfoldable pub delete_code : SessionStore → Bytes → SessionStore
delete_code s m = record s { codes = erase m s.codes }

-- `std::hex` of an unsigned 64-bit number: sixteen digits at most, with no leading zero.
hex_digit : ℕ → ℕ
hex_digit d = if ltb d 10 then b'0' + d else 87 + d

hex_from : ℕ → ℕ → Bytes
unfolding hex_digit
hex_from zero n = []
hex_from (suc fuel) n =
    let more = hex_from fuel (n / 16) in
    if ltb n 16 then hex_digit n ∷ [] else more ++ (hex_digit (n % 16) ∷ [])

-- `a` and `b` are the two draws of the token.
unfoldable pub create_session : SessionStore → Bytes → ℕ → ℕ → ℕ → Bytes × SessionStore
unfolding hex_from
create_session s m a b now =
    let token = hex_from 16 a ++ hex_from 16 b in
    (
      token,
      record s {
        sessions = insert token (record { mobile = m; expiry = now + session_ttl }) s.sessions;
      },
    )

unfoldable pub lookup_session : SessionStore → Bytes → ℕ → Option Bytes × SessionStore
lookup_session s t now = elim (lookup t s.sessions) [
  | none ↦ (none, s)
  | some e ↦
      if ltb e.expiry now
      then (none, record s { sessions = erase t s.sessions })
      else (some e.mobile, s)
]

unfoldable pub destroy_session : SessionStore → Bytes → SessionStore
destroy_session s t = record s { sessions = erase t s.sessions }

-- A code can be read until 300 seconds after it was set, and not later; reading it does not use it up,
-- and once it has been found expired or was deleted it is gone at every time.
code_lifetime :
    (s : SessionStore) (m : Bytes) (c set_at now later : ℕ)
    → let s' = (set_code s m c set_at).1 in
      (now ≤ set_at + code_ttl → get_code s' m now ≡ (some c, s'))
      × (set_at + code_ttl < now
          → ((get_code s' m now).0 ≡ none) × ((get_code (get_code s' m now).1 m later).0 ≡ none))
      × ((get_code (delete_code s' m) m later).0 ≡ none)
unfolding set_code get_code delete_code
code_lifetime s m c set_at now later =
    let e : CodeEntry = record { code = c; expiry = set_at + code_ttl } in
    let found = lookup-insert_self m e s.codes in
    let gone = lookup-erase_self m (insert m e s.codes) in
    (
      λ h. ground (arith, found),
      λ h. (ground (arith, found), ground (arith, found, gone)),
      ground (arith, gone),
    )

-- A session token names its number for seven days and not later; once it has been found expired or
-- was destroyed it names nobody at any time.
pub session_lifetime :
    (s : SessionStore) (m : Bytes) (a b made_at now later : ℕ)
    → let (t, s') = create_session s m a b made_at in
      (now ≤ made_at + session_ttl → lookup_session s' t now ≡ (some m, s'))
      × (made_at + session_ttl < now
          → ((lookup_session s' t now).0 ≡ none)
            × ((lookup_session (lookup_session s' t now).1 t later).0 ≡ none))
      × ((lookup_session (destroy_session s' t) t later).0 ≡ none)
unfolding create_session lookup_session destroy_session
session_lifetime s m a b made_at now later =
    let e : Entry = record { mobile = m; expiry = made_at + session_ttl } in
    let t = hex_from 16 a ++ hex_from 16 b in
    let found = lookup-insert_self t e s.sessions in
    let gone = lookup-erase_self t (insert t e s.sessions) in
    (
      λ h. ground (arith, found),
      λ h. (ground (arith, found), ground (arith, found, gone)),
      ground (arith, gone),
    )
