-- ===== src/Client/ApiBridge/Ledger/Requests.antt =====
-- The requests in flight: each is a known one, and none is there twice.
use shared_bike_refactor.Base.{
  ℕ, ◌+◌, ◌≡◌, refl, sym, subst, true, none, some, List, [], ◌∷◌, ◌==◌, ==_iff, arith, inl, inr,
  Bool-cases, All,
}
use shared_bike_refactor.Base.Dict.{
  Dict, lookup, insert, erase, nat_key, lookup-insert, lookup-erase,
}
use shared_bike_refactor.Client.ApiBridge.{one_of}
use shared_bike_refactor.Client.ApiBridge.Steps.{kind_of_request, hit, flying}

abbrev pub requests : List ℕ
requests = 0x01 ∷ 0x03 ∷ 0x05 ∷ 0x07 ∷ 0x09 ∷ 0x11 ∷ 0x13 ∷ 0x17 ∷ 0x19 ∷ 0x1b ∷ 0x1d ∷ []

-- What holds of each number of a list holds of one that is found in it.
pub one_of-All {ℓ} : (P : ℕ → Type ℓ) (ns : List ℕ) (e : ℕ) → All P ns → one_of ns e ≡ true → P e
one_of-All P [] e ps h = cc
one_of-All P (n ∷ ns) e ps h = elim (Bool-cases (e == n)) [
  | inl hit ↦ subst P (sym ((==_iff e n).0 hit)) ps.0
  | inr miss ↦ one_of-All P ns e ps.1 (ground arith)
]

-- Known requests, and none twice.
abbrev pub IsOrderly : Dict ℕ ℕ → Type 0
IsOrderly [] = Unit {0}
IsOrderly ((e, seq) ∷ m) = (one_of requests e ≡ true) × (lookup e m ≡ none) × IsOrderly m

pub insert-IsOrderly :
    (a v : ℕ) (m : Dict ℕ ℕ)
    → one_of requests a ≡ true
    → lookup a m ≡ none
    → IsOrderly m
    → IsOrderly (insert a v m)
unfolding insert lookup
insert-IsOrderly a v [] r new o = (r, refl, tt)
insert-IsOrderly a v ((e, w) ∷ m) r new o =
    ground (arith, insert-IsOrderly a v m r, lookup-insert a e v m, ==_iff e a, ==_iff a e)

pub flying-insert :
    (k a v : ℕ) (m : Dict ℕ ℕ)
    → lookup a m ≡ none
    → flying k (insert a v m) ≡ hit k (kind_of_request a) + flying k m
unfolding insert lookup flying
flying-insert k a v [] new = refl
flying-insert k a v ((e, w) ∷ m) new = ground (arith, flying-insert k a v m)

still_absent : (a b : ℕ) (m : Dict ℕ ℕ) → lookup b m ≡ none → lookup b (erase a m) ≡ none
still_absent a b m h = ground (arith, lookup-erase a b m)

pub erase-IsOrderly : (a : ℕ) (m : Dict ℕ ℕ) → IsOrderly m → IsOrderly (erase a m)
unfolding erase
erase-IsOrderly a [] o = tt
erase-IsOrderly a ((e, w) ∷ m) o = ground (arith, erase-IsOrderly a m o.2, still_absent a e m o.1)

erase_absent : (a : ℕ) (m : Dict ℕ ℕ) → lookup a m ≡ none → erase a m ≡ m
unfolding erase lookup
erase_absent a [] h = refl
erase_absent a ((e, w) ∷ m) h = ground (arith, erase_absent a m)

pub flying-erase :
    (k a seq : ℕ) (m : Dict ℕ ℕ)
    → IsOrderly m
    → lookup a m ≡ some seq
    → hit k (kind_of_request a) + flying k (erase a m) ≡ flying k m
unfolding erase lookup flying
flying-erase k a seq [] o h = cc
flying-erase k a seq ((e, w) ∷ m) o h =
    ground (arith, ==_iff e a, erase_absent a m, flying-erase k a seq m o.2)
