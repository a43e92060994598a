-- ===== src/Dispatch/ThreadPool.antt =====
-- server/include/server/util/thread_pool.hpp: a queue of tasks, and workers that take them in turn.
-- A step is what a thread does while it holds the mutex.
use shared_bike_refactor.Base.{
  ℕ, ◌+◌, ◌<◌, ◌≡◌, refl, sym, ◌∙◌, Bool, true, false, List, [], ◌∷◌, ◌++◌, if◌then◌else◌,
  append_assoc, append-nil, arith,
}

-- `size` is the number of threads, as it was asked for.
pub record ThreadPool (T : Type 0) : Type 0 where
  pub q : List T
  pub stop : Bool
  pub size : ℕ

-- What a worker that has the mutex does next.
pub data Turn (T : Type 0) : Type 0 where
  waits returns : Turn T
  takes : T → ThreadPool T → Turn T

-- The pool with the tasks that were posted and those that were started, in order, and the number of
-- workers that have returned.
pub record Run (T : Type 0) : Type 0 where
  pub pool : ThreadPool T
  pub posted : List T
  pub started : List T
  pub returned : ℕ

module _ {T : Type 0} where
  unfoldable pub make_pool : ℕ → ThreadPool T
  make_pool n = record { q = []; stop = false; size = n }

  unfoldable pub post : ThreadPool T → T → ThreadPool T
  post p f = record p { q = p.q ++ (f ∷ []) }

  -- The condition of `cv_.wait`, and the test of `stop_` behind it.
  unfoldable pub worker_turn : ThreadPool T → Turn T
  worker_turn p = elim (p.q) [
    | [] ↦ if p.stop then returns else waits
    | task ∷ rest ↦ takes task (record p { q = rest })
  ]

  -- The first part of the destructor, which then joins the workers.
  unfoldable pub shut_down : ThreadPool T → ThreadPool T
  shut_down p = record p { stop = true }

  -- Nobody posts to a pool that is being destroyed.
  pub data Step (r : Run T) : Run T → Type 0 where
    posts :
        (f : T)
        → r.pool.stop ≡ false
        → Step r (record r { pool = post r.pool f; posted = r.posted ++ (f ∷ []) })
    starts :
        (f : T) (p : ThreadPool T)
        → worker_turn r.pool ≡ takes f p
        → Step r (record r { pool = p; started = r.started ++ (f ∷ []) })
    leaves : worker_turn r.pool ≡ returns → Step r (record r { returned = r.returned + 1 })
    stops : Step r (record r { pool = shut_down r.pool })

  pub data Reach (r : Run T) : Run T → Type 0 where
    here : Reach r r
    next : {t u : Run T} → Reach r t → Step t u → Reach r u

  abbrev pub start : ℕ → Run T
  start n = record { pool = make_pool n; posted = []; started = []; returned = 0 }

  -- A worker has returned only from a stopped pool without tasks.
  record Sound (pool : ThreadPool T) (posted started : List T) (returned : ℕ) : Type 0 where
    conserved : posted ≡ started ++ pool.q
    idle : 0 < returned → (pool.stop ≡ true) × (pool.q ≡ [])

  abbrev SoundRun : Run T → Type 0
  SoundRun r = Sound r.pool r.posted r.started r.returned

  pub taken :
      (q : List T) (stop : Bool) (size : ℕ) (p' : ThreadPool T) (f : T)
      → worker_turn (record { q = q; stop = stop; size = size }) ≡ takes f p'
      → (q ≡ f ∷ p'.q) × (p'.stop ≡ stop)
  unfolding worker_turn
  taken [] true size p' f h = absurd cc
  taken [] false size p' f h = absurd cc
  taken (g ∷ rest) stop size p' f h = (cc, cc)

  left :
      (q : List T) (stop : Bool) (size : ℕ)
      → worker_turn (record { q = q; stop = stop; size = size }) ≡ returns
      → (stop ≡ true) × (q ≡ [])
  unfolding worker_turn
  left [] true size h = (refl, refl)
  left [] false size h = cc
  left (g ∷ rest) stop size h = cc

  stepped-Sound : (r r' : Run T) → Step r r' → SoundRun r → SoundRun r'
  unfolding post shut_down
  stepped-Sound r r' (posts f on) s = record {
    conserved = rw s.conserved (append_assoc r.started r.pool.q (f ∷ []));
    idle = λ out. let same = (s.idle out).0 in cc;
  }
  stepped-Sound r r' (starts f p turn) s =
      let (front, same) = taken r.pool.q r.pool.stop r.pool.size p f turn in
      record {
        conserved = s.conserved ∙ (rw front (sym (append_assoc r.started (f ∷ []) p.q)));
        idle = λ out. let none_left = (s.idle out).1 in cc;
      }
  stepped-Sound r r' (leaves turn) s = record {
    conserved = s.conserved;
    idle = λ out. left r.pool.q r.pool.stop r.pool.size turn;
  }
  stepped-Sound r r' stops s = record {
    conserved = s.conserved;
    idle = λ out. (refl, (s.idle out).1);
  }

  reached-Sound : (n : ℕ) (r : Run T) → Reach (start n) r → SoundRun r
  unfolding make_pool
  reached-Sound n r here = record { conserved = refl; idle = λ out. absurd (omega (arith, out)) }
  reached-Sound n r (next {t} before step) = stepped-Sound t r step (reached-Sound n t before)

  -- In every interleaving the tasks start in the order in which they were posted, each once: what was
  -- posted is what was started and then what waits. When a worker has returned nothing waits, so all
  -- that was posted has been started.
  pub worker_turn-reach :
      (n : ℕ) (r : Run T)
      → Reach (start n) r
      → (r.posted ≡ r.started ++ r.pool.q) × (0 < r.returned → r.started ≡ r.posted)
  worker_turn-reach n r h =
      let s = reached-Sound n r h in
      (s.conserved, λ out. sym (s.conserved ∙ (rw (s.idle out).1 (append-nil r.started))))
