-- ===== src/Legacy/Service/Subscribed.antt =====
-- The handlers of an event, as they are subscribed and unsubscribed.
use shared_bike_refactor.Base.{
  ℕ, ◌≡◌, refl, ap, ◌∙◌, true, false, some, List, [], ◌∷◌, ◌++◌, arith, inl, inr, Option-cases,
  Bool-cases,
}
use shared_bike_refactor.Base.Dict.{lookup, insert, nat_key, lookup-insert_self}
use shared_bike_refactor.Legacy.Service.{
  Subscribers, has_handler, remove_handler, subscribe, unsubscribe,
}

has_handler-append : (h : ℕ) (hs : List ℕ) → has_handler h (hs ++ (h ∷ [])) ≡ true
unfolding has_handler
has_handler-append h [] = ground arith
has_handler-append h (k ∷ hs) = ground (arith, has_handler-append h hs)

remove_handler-append :
    (h : ℕ) (hs : List ℕ) → has_handler h hs ≡ false → remove_handler h (hs ++ (h ∷ [])) ≡ hs
unfolding remove_handler has_handler
remove_handler-append h [] e = ground arith
remove_handler-append h (k ∷ hs) e =
    let rest : has_handler h hs ≡ false = ground arith in
    ground (arith, remove_handler-append h hs rest)

already :
    (eid h : ℕ) (subs : Subscribers) (hs : List ℕ)
    → lookup eid subs ≡ some hs
    → has_handler h hs ≡ true
    → subscribe eid h subs ≡ subs
unfolding subscribe
already eid h subs hs e there = rw (e, there, subscribe) refl

-- A handler that is subscribed twice is there once.
subscribe_again :
    (eid h : ℕ) (subs : Subscribers) → subscribe eid h (subscribe eid h subs) ≡ subscribe eid h subs
unfolding subscribe has_handler
subscribe_again eid h subs = elim (Option-cases (lookup eid subs)) [
  | inl new ↦
      let added : subscribe eid h subs ≡ insert eid (h ∷ []) subs = rw (new, subscribe) refl in
      rw added (
        already eid h (insert eid (h ∷ []) subs) (h ∷ []) (lookup-insert_self eid (h ∷ []) subs)
          (has_handler-append h []))
  | inr (hs, e) ↦ elim (Bool-cases (has_handler h hs)) [
    | inl there ↦ ap (subscribe eid h) (already eid h subs hs e there)
    | inr new ↦
        let more = hs ++ (h ∷ []) in
        let added : subscribe eid h subs ≡ insert eid more subs = rw (e, new, subscribe) refl in
        rw added (
          already eid h (insert eid more subs) more (lookup-insert_self eid more subs)
            (has_handler-append h hs))
  ]
]

-- A handler that comes and goes leaves the others, in their order.
unsubscribe-subscribe :
    (eid h : ℕ) (subs : Subscribers) (hs : List ℕ)
    → lookup eid subs ≡ some hs
    → has_handler h hs ≡ false
    → lookup eid (unsubscribe eid h (subscribe eid h subs)) ≡ some hs
unfolding subscribe unsubscribe
unsubscribe-subscribe eid h subs hs e new =
    let more = hs ++ (h ∷ []) in
    let added : subscribe eid h subs ≡ insert eid more subs = rw (e, new, subscribe) refl in
    let gone : unsubscribe eid h (insert eid more subs)
        ≡ insert eid (remove_handler h more) (insert eid more subs) =
      rw (lookup-insert_self eid more subs, unsubscribe) refl in
    rw (added, gone)
      (lookup-insert_self eid (remove_handler h more) (insert eid more subs)
        ∙ ap some (remove_handler-append h hs new))
