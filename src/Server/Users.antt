-- ===== src/Server/Users.antt =====
-- `User` and `InMemoryUserRepo`. Identifiers are counted without bound.
use shared_bike_refactor.Base.{
  ℕ, ◌+◌, ◌<◌, ◌≡◌, ◌≢◌, Option, none, some, [], arith, Option-cases, inl, inr,
}
use shared_bike_refactor.Base.Dict.{
  Bytes, Dict, lookup, insert, bytes_key, lookup-insert, bytes_eq_iff, lookup-insert_self,
}

pub record User : Type 0 where
  pub id : ℕ
  pub mobile : Bytes

pub record UserRepo : Type 0 where
  pub by_mobile : Dict Bytes User
  pub next_id : ℕ

abbrev pub fresh : UserRepo
fresh = record { by_mobile = []; next_id = 1 }

unfoldable pub find_by_mobile : UserRepo → Bytes → Option User
find_by_mobile r m = lookup m r.by_mobile

unfoldable pub find_or_create : UserRepo → Bytes → User × UserRepo
find_or_create r m = elim (lookup m r.by_mobile) [
  | some u ↦ (u, r)
  | none ↦
      let u : User = record { id = r.next_id; mobile = m } in
      (u, record { by_mobile = insert m u r.by_mobile; next_id = r.next_id + 1 })
]

-- Every user is stored under his number with an identifier given out before, and no two numbers share
-- an identifier.
pub record IsValid (r : UserRepo) : Type 0 where
  pub known :
      (m : Bytes) (u : User) → lookup m r.by_mobile ≡ some u → (u.mobile ≡ m) × (u.id < r.next_id)
  pub distinct :
      (m m' : Bytes) (u u' : User)
      → lookup m r.by_mobile ≡ some u
      → lookup m' r.by_mobile ≡ some u'
      → u.id ≡ u'.id
      → m ≡ m'

pub fresh-IsValid : IsValid fresh
unfolding lookup
fresh-IsValid = record { known = λ m u e. cc; distinct = λ m m' u u' e. cc }

-- Asking for a number keeps the repository valid.
find_or_create-IsValid : (r : UserRepo) (m : Bytes) → IsValid r → IsValid (find_or_create r m).1
unfolding find_or_create
find_or_create-IsValid r m v = elim (Option-cases (lookup m r.by_mobile)) [
  | inr (u, e) ↦ rw (e, find_or_create) v
  | inl e ↦
      rw (e, find_or_create)
        (record {
          known = λ n u h. ground (
            arith,
            lookup-insert m n (record { id = r.next_id; mobile = m }) r.by_mobile,
            v.known n u,
            bytes_eq_iff m n,
          );
          distinct = λ n n' u u' h h' same. ground (
            arith,
            lookup-insert m n (record { id = r.next_id; mobile = m }) r.by_mobile,
            bytes_eq_iff m n,
            lookup-insert m n' (record { id = r.next_id; mobile = m }) r.by_mobile,
            bytes_eq_iff m n',
            v.known n u,
            v.known n' u',
            v.distinct n n' u u',
          );
        })
]

-- The user that is returned has the number asked for, is found from then on, and is returned again by
-- every later call for that number, which changes nothing.
find_or_create_again :
    (r : UserRepo) (m : Bytes)
    → IsValid r
    → let (u, r') = find_or_create r m in
      (u.mobile ≡ m) × (find_by_mobile r' m ≡ some u) × (find_or_create r' m ≡ (u, r'))
unfolding find_or_create find_by_mobile
find_or_create_again r m v = elim (Option-cases (lookup m r.by_mobile)) [
  | inr (u, e) ↦ ground (arith, v.known m u)
  | inl e ↦ ground (arith, lookup-insert_self m (record { id = r.next_id; mobile = m }) r.by_mobile)
]

-- The users of other numbers are left as they were.
pub find_or_create_others :
    (r : UserRepo) (m n : Bytes)
    → m ≢ n
    → find_by_mobile (find_or_create r m).1 n ≡ find_by_mobile r n
unfolding find_or_create find_by_mobile
find_or_create_others r m n h = elim (Option-cases (lookup m r.by_mobile)) [
  | inr (u, e) ↦ rw (e, find_or_create)
  | inl e ↦
      rw (e, find_or_create)
        (ground (
          arith,
          lookup-insert m n (record { id = r.next_id; mobile = m }) r.by_mobile,
          bytes_eq_iff m n,
        ))
]
