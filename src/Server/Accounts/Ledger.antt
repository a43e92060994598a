-- ===== src/Server/Accounts/Ledger.antt =====
-- The accounts as a ledger: balances are sums of entries, and are never negative.
use shared_bike_refactor.Base.{
  ℕ, ◌+◌, ◌-◌, ◌^◌, ◌≤◌, ◌<◌, ◌≡◌, ◌≢◌, refl, sym, ap, ◌∙◌, List, [], ◌∷◌, ◌++◌, arith, ℕ_discrete,
  subst, inl, inr, ◌⊎◌,
}
use shared_bike_refactor.Base.Dict.{lookup, insert, nat_key, lookup-insert_self, lookup-insert_ne}
use shared_bike_refactor.Base.Int.{
  ℤ, pos, negsuc, ◌+ℤ◌, ◌≤ℤ◌, to_int, IsInt, to_int_self, int_laws, +ℤ_parts, eq_of_parts,
  to_int_above,
}
use shared_bike_refactor.Server.Accounts.{
  AccountRecord, AccountRepo, RecordType, get_balance, records_of, add_balance, record_type,
  or_else, fresh,
}

-- The entry that a call appends.
abbrev pub entry : RecordType → ℤ → ℤ → ℕ → AccountRecord
entry type amount b now = record {
  type = record_type type;
  amount = amount;
  balance_after = b;
  timestamp = now;
}

module _ (r : AccountRepo) (uid : ℕ) (type : RecordType) (amount : ℤ) (now : ℕ) where
  -- A charge that the balance does not cover is refused: the answer is -1 and nothing changes.
  pub add_balance_refused :
      IsInt (get_balance r uid +ℤ amount)
      → get_balance r uid +ℤ amount ≤ℤ negsuc 0
      → amount ≤ℤ negsuc 0
      → add_balance r uid type amount now ≡ (negsuc 0, r)
  unfolding add_balance
  add_balance_refused fits low charge =
      ground (arith, to_int_self (get_balance r uid +ℤ amount) fits)

  -- Any other call whose sum is an `int` answers the sum.
  add_balance_accepted :
      IsInt (get_balance r uid +ℤ amount)
      → (pos 0 ≤ℤ get_balance r uid +ℤ amount) ⊎ (pos 0 ≤ℤ amount)
      → let b = get_balance r uid +ℤ amount in
        add_balance r uid type amount now ≡ (
          b,
          record {
            bal = insert uid b r.bal;
            records = insert uid (records_of r uid ++ (entry type amount b now ∷ [])) r.records;
          },
        )
  unfolding add_balance
  add_balance_accepted fits ok = ground (arith, to_int_self (get_balance r uid +ℤ amount) fits)

  -- An accepted call answers the new balance, which is the sum, appends one entry that says so, and
  -- leaves every other account alone.
  pub add_balance_lem :
      IsInt (get_balance r uid +ℤ amount)
      → (pos 0 ≤ℤ get_balance r uid +ℤ amount) ⊎ (pos 0 ≤ℤ amount)
      → let (b, r') = add_balance r uid type amount now in
        (b ≡ get_balance r uid +ℤ amount)
        × (get_balance r' uid ≡ b)
        × (records_of r' uid ≡ records_of r uid ++ (entry type amount b now ∷ []))
        × ((other : ℕ)
            → uid ≢ other
            → (get_balance r' other ≡ get_balance r other)
              × (records_of r' other ≡ records_of r other))
  unfolding get_balance records_of
  add_balance_lem fits ok =
      let b = get_balance r uid +ℤ amount in
      let es = records_of r uid ++ (entry type amount b now ∷ []) in
      rw (add_balance_accepted fits ok) (
        refl,
        ap (or_else (pos 0)) (lookup-insert_self uid b r.bal),
        ap (or_else []) (lookup-insert_self uid es r.records),
        λ other ne. (
          ap (or_else (pos 0)) (lookup-insert_ne uid other b r.bal ne),
          ap (or_else []) (lookup-insert_ne uid other es r.records ne),
        ),
      )

sum_pos : (a b : ℕ) → pos a +ℤ pos b ≡ pos (a + b)
sum_pos a b = eq_of_parts (pos a +ℤ pos b) (pos (a + b)) (omega (arith, +ℤ_parts (pos a) (pos b)))

-- An amount that is not negative is always accepted.
credit :
    (r : AccountRepo) (uid : ℕ) (type : RecordType) (amount now : ℕ)
    → let b = to_int (get_balance r uid +ℤ pos amount) in
      add_balance r uid type (pos amount) now ≡ (
        b,
        record {
          bal = insert uid b r.bal;
          records = insert uid (records_of r uid ++ (entry type (pos amount) b now ∷ [])) r.records;
        },
      )
unfolding add_balance
credit r uid type amount now = ground arith

-- The bug: nothing guards the sum. A recharge that takes a balance past the largest `int` makes it
-- negative, for every such balance and amount.
pub recharge_overflow :
    (r : AccountRepo) (uid cur amount now : ℕ)
    → get_balance r uid ≡ pos cur
    → 2 ^ 31 ≤ cur + amount
    → cur + amount < 2 ^ 32
    → let (b, r') = add_balance r uid RecordType.recharge (pos amount) now in
      (b ≡ negsuc (2 ^ 32 - (cur + amount) - 1)) × (get_balance r' uid ≡ b)
recharge_overflow r uid cur amount now e lo hi =
    let b = to_int (get_balance r uid +ℤ pos amount) in
    rw (credit r uid RecordType.recharge amount now) (
      ap to_int (ap (λ z. z +ℤ pos amount) e ∙ sum_pos cur amount)
          ∙ to_int_above (cur + amount) lo hi,
      unfold get_balance in ap (or_else (pos 0)) (lookup-insert_self uid b r.bal),
    )

-- What the entries of an account add up to, and whether each of them states the balance after it.
abbrev pub total : List AccountRecord → ℤ
total [] = pos 0
total (e ∷ es) = e.amount +ℤ total es

abbrev pub Running : ℤ → List AccountRecord → Type 0
Running acc [] = Unit {0}
Running acc (e ∷ es) = (e.balance_after ≡ acc +ℤ e.amount) × Running e.balance_after es

-- Of every account: the balance is not negative, it is the sum of the entries, and each entry states
-- the balance that it left.
pub record IsLedger (r : AccountRepo) : Type 0 where
  pub nonneg : (uid : ℕ) → pos 0 ≤ℤ get_balance r uid
  pub summed : (uid : ℕ) → get_balance r uid ≡ total (records_of r uid)
  pub running : (uid : ℕ) → Running (pos 0) (records_of r uid)

pub fresh-IsLedger : IsLedger fresh
unfolding get_balance records_of lookup
fresh-IsLedger = record { nonneg = λ uid. omega arith; summed = λ uid. refl; running = λ uid. tt }

total-append :
    (es : List AccountRecord) (e : AccountRecord) → total (es ++ (e ∷ [])) ≡ total es +ℤ e.amount
total-append [] e = omega int_laws
total-append (x ∷ es) e = rw (total-append es e) (omega int_laws)

Running-append :
    (acc : ℤ) (es : List AccountRecord) (e : AccountRecord)
    → Running acc es
    → e.balance_after ≡ acc +ℤ total es +ℤ e.amount
    → Running acc (es ++ (e ∷ []))
Running-append acc [] e v h = (h ∙ omega int_laws, tt)
Running-append acc (x ∷ es) e v h =
    (v.0, Running-append x.balance_after es e v.1 (h ∙ rw v.0 (omega int_laws)))

sum_nonneg : (a b : ℤ) → pos 0 ≤ℤ a → (pos 0 ≤ℤ a +ℤ b) ⊎ (pos 0 ≤ℤ b) → pos 0 ≤ℤ a +ℤ b
sum_nonneg a b h (inl k) = k
sum_nonneg a b h (inr k) = omega int_laws

-- One more entry on one account.
IsLedger-extend :
    (r r' : AccountRepo) (uid : ℕ) (e : AccountRecord)
    → IsLedger r
    → records_of r' uid ≡ records_of r uid ++ (e ∷ [])
    → get_balance r' uid ≡ e.balance_after
    → e.balance_after ≡ get_balance r uid +ℤ e.amount
    → pos 0 ≤ℤ e.balance_after
    → ((other : ℕ)
        → uid ≢ other
        → (get_balance r' other ≡ get_balance r other) × (records_of r' other ≡ records_of r other))
    → IsLedger r'
IsLedger-extend r r' uid e v entries balance sum low others = record {
  nonneg = λ o. elim (ℕ_discrete uid o) [
    | yes p ↦ subst (λ x. pos 0 ≤ℤ get_balance r' x) p (rw balance low)
    | no ne ↦ rw ((others o ne).0) (v.nonneg o)
  ];
  summed = λ o. elim (ℕ_discrete uid o) [
    | yes p ↦
        subst (λ x. get_balance r' x ≡ total (records_of r' x)) p
          (rw (balance, entries)
            (sum
              ∙ ap (λ z. z +ℤ e.amount) (v.summed uid)
              ∙ sym (total-append (records_of r uid) e)))
    | no ne ↦ rw ((others o ne).0, (others o ne).1) (v.summed o)
  ];
  running = λ o. elim (ℕ_discrete uid o) [
    | yes p ↦
        subst (λ x. Running (pos 0) (records_of r' x)) p
          (rw entries (
            Running-append (pos 0) (records_of r uid) e (v.running uid)
              (sum ∙ ap (λ z. z +ℤ e.amount) (v.summed uid ∙ omega int_laws))))
    | no ne ↦ rw ((others o ne).1) (v.running o)
  ];
}

charge_cases :
    (b amount : ℤ) → ((b ≤ℤ negsuc 0) × (amount ≤ℤ negsuc 0)) ⊎ ((pos 0 ≤ℤ b) ⊎ (pos 0 ≤ℤ amount))
charge_cases (pos b) amount = inr (inl (omega arith))
charge_cases (negsuc b) (pos a) = inr (inr (omega arith))
charge_cases (negsuc b) (negsuc a) = inl (omega arith, omega arith)

-- Every call whose sum is an `int` keeps the ledger, whether it is accepted or refused.
pub add_balance-IsLedger :
    (r : AccountRepo) (uid : ℕ) (type : RecordType) (amount : ℤ) (now : ℕ)
    → IsInt (get_balance r uid +ℤ amount)
    → IsLedger r
    → IsLedger (add_balance r uid type amount now).1
add_balance-IsLedger r uid type amount now fits v =
    elim (charge_cases (get_balance r uid +ℤ amount) amount) [
      | inl (low, charge) ↦ rw (add_balance_refused r uid type amount now fits low charge) v
      | inr ok ↦
          let (eb, balance, entries, others) = add_balance_lem r uid type amount now fits ok in
          IsLedger-extend r _ uid (entry type amount _ now) v entries balance eb
            (rw eb (sum_nonneg (get_balance r uid) amount (v.nonneg uid) ok)) others
    ]
