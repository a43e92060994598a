-- ===== src/Server/Accounts.antt =====
-- `AccountRecord` and `InMemoryAccountRepo`: balances in cents. A sum of two `int`s is taken as the
-- compiled code takes it, modulo 2 ^ 32.
pub mod Ledger
use shared_bike_refactor.Base.{
  ℕ, ◌&&◌, Option, none, some, List, [], ◌∷◌, ◌++◌, reverse, take, if◌then◌else◌,
}
use shared_bike_refactor.Base.Dict.{Dict, lookup, insert, nat_key}
use shared_bike_refactor.Base.Int.{ℤ, pos, negsuc, ◌+ℤ◌, ltb_ℤ, to_int}

pub data RecordType : Type 0 where
  recharge consume : RecordType

abbrev pub record_type : RecordType → ℕ
record_type RecordType.recharge = 1
record_type RecordType.consume = 2

pub record AccountRecord : Type 0 where
  pub type : ℕ
  pub amount : ℤ
  pub balance_after : ℤ
  pub timestamp : ℕ

pub record AccountRepo : Type 0 where
  pub bal : Dict ℕ ℤ
  pub records : Dict ℕ (List AccountRecord)

abbrev pub fresh : AccountRepo
fresh = record { bal = []; records = [] }

abbrev pub or_else {ℓ} : {A : Type ℓ} → A → Option A → A
or_else d none = d
or_else d (some a) = a

unfoldable pub get_balance : AccountRepo → ℕ → ℤ
get_balance r uid = or_else (pos 0) (lookup uid r.bal)

-- `records_[uid]`
unfoldable pub records_of : AccountRepo → ℕ → List AccountRecord
records_of r uid = or_else [] (lookup uid r.records)

-- The result is -1, and nothing changes, where a charge would take the balance below 0.
unfoldable pub add_balance : AccountRepo → ℕ → RecordType → ℤ → ℕ → ℤ × AccountRepo
unfolding get_balance records_of
add_balance r uid type amount now =
    let cur = get_balance r uid in
    let b = to_int (cur +ℤ amount) in
    let entry : AccountRecord = record {
      type = record_type type;
      amount = amount;
      balance_after = b;
      timestamp = now;
    } in
    if ltb_ℤ amount (pos 0) && ltb_ℤ b (pos 0) then (negsuc 0, r) else (
      b,
      record {
        bal = insert uid b r.bal;
        records = insert uid (records_of r uid ++ (entry ∷ [])) r.records;
      },
    )

-- The `limit` latest entries, newest first.
unfoldable pub list_records : AccountRepo → ℕ → ℕ → List AccountRecord
unfolding records_of
list_records r uid limit = take limit (reverse (records_of r uid))
