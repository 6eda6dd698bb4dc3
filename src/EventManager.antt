-- ===== src/EventManager.antt =====
-- src/event_manager.cpp: the bounded queue of events, oldest first. The clock is an argument; each
-- call holds the mutex throughout, so calls do not overlap.
pub mod Queue
use phm.Base.{
  ℕ, ◌+◌, suc, Bool, true, false, ◌||◌, not, if◌then◌else◌, ltb, leb, Text, text_eq, List, [], ◌∷◌,
  ◌++◌, length, keep, Outcome, done, failed, pop_of_empty, ◌>>=◌,
}
use phm.Types.{PhmEvent, Severity, severity_to_index}

pub record EventManager : Type 0 where
  pub max_size : ℕ
  pub queue : List PhmEvent

unfoldable pub create : ℕ → EventManager
create n = record { max_size = n; queue = [] }

-- std::deque::pop_front, which must not be called on an empty deque.
unfoldable pub pop_front : List PhmEvent → Outcome (List PhmEvent)
pop_front [] = failed pop_of_empty
pop_front (e ∷ es) = done es

unfoldable pub push : EventManager → PhmEvent → Outcome (EventManager × Bool)
push em event = do
  queue ← (if leb em.max_size (length em.queue) then pop_front em.queue else done em.queue)
  done (record em { queue = queue ++ event ∷ [] }, true)

-- The loop of getEvents.
unfoldable pub get_events : EventManager → Severity → List PhmEvent
get_events em min_severity =
    keep (λ (evt : PhmEvent). leb (severity_to_index min_severity) (severity_to_index evt.severity))
      em.queue

-- std::find over the ids.
unfoldable pub contains : List Text → Text → Bool
contains [] id = false
contains (i ∷ is) id = text_eq i id || contains is id

-- The loop shared by acknowledge and purge: erase what passes the test, and count it.
unfoldable pub erase_if : (PhmEvent → Bool) → List PhmEvent → List PhmEvent × ℕ
erase_if p [] = ([], 0)
erase_if p (e ∷ es) =
    let (rest, count) = erase_if p es in if p e then (rest, suc count) else (e ∷ rest, count)

unfoldable pub acknowledge : EventManager → List Text → EventManager × ℕ
acknowledge em event_ids =
    let (queue, count) = erase_if (λ (e : PhmEvent). contains event_ids e.id) em.queue in
    (record em { queue = queue }, count)

unfoldable pub clear : EventManager → EventManager
clear em = record em { queue = [] }

unfoldable pub size : EventManager → ℕ
size em = length em.queue

unfoldable pub capacity : EventManager → ℕ
capacity em = em.max_size

-- timestamp < now - ttl, written without the subtraction.
unfoldable pub purge : EventManager → ℕ → ℕ → EventManager × ℕ
purge em now ttl =
    let (queue, count) = erase_if (λ (e : PhmEvent). ltb (e.timestamp + ttl) now) em.queue in
    (record em { queue = queue }, count)
