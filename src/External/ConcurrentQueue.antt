-- ===== src/External/ConcurrentQueue.antt =====
-- `moodycamel::ConcurrentQueue` with one producer and one consumer, for which its calls are first in,
-- first out. Between messages of several producers it keeps no order, so nothing can be concluded
-- from these laws about a queue that more than one thread fills: what is said of the order queue has
-- the condition that only the session of the prices fills it. The trade queue is filled by the
-- session of the trades alone.
use trader_cpp.Base.{◌≡◌, refl, Option, none, some, List, [], ◌∷◌, ◌++◌}

pub record ConcurrentQueue (M Q : Type 0) : Type 0 where
  pub contents : Q → List M
  pub enqueue : M → Q → Q
  pub try_dequeue : Q → Option (M × Q)
  pub contents-enqueue : (m : M) (q : Q) → contents (enqueue m q) ≡ contents q ++ m ∷ []
  pub try_dequeue-none : (q : Q) → try_dequeue q ≡ none → contents q ≡ []
  pub try_dequeue-some :
      (q : Q) (m : M) (rest : Q) → try_dequeue q ≡ some (m, rest) → contents q ≡ m ∷ contents rest

-- The laws can be met: a list, oldest first.
module _ {M : Type 0} where
  abbrev pub list_try_dequeue : List M → Option (M × List M)
  list_try_dequeue [] = none
  list_try_dequeue (m ∷ q) = some (m, q)

  pub list_try_dequeue-none : (q : List M) → list_try_dequeue q ≡ none → q ≡ []
  list_try_dequeue-none [] e = refl
  list_try_dequeue-none (m ∷ q) e = cc

  pub list_try_dequeue-some :
      (q : List M) (m : M) (rest : List M) → list_try_dequeue q ≡ some (m, rest) → q ≡ m ∷ rest
  list_try_dequeue-some [] m rest e = cc
  list_try_dequeue-some (x ∷ q) m rest e = cc

  instance abbrev pub list_queue : ConcurrentQueue M (List M)
  list_queue = record {
    contents = λ q. q;
    enqueue = λ m q. q ++ m ∷ [];
    try_dequeue = list_try_dequeue;
    contents-enqueue = λ m q. refl;
    try_dequeue-none = list_try_dequeue-none;
    try_dequeue-some = list_try_dequeue-some;
  }
