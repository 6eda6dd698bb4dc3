-- ===== src/EventManager/Queue.antt =====
-- src/event_manager.cpp: the queue as a window on the events pushed, and what the scans remove.
use phm.Base.{
  ℕ, zero, suc, ◌+◌, ◌-◌, ◌≤◌, ◌<◌, Bool, true, false, not, ◌≡◌, refl, ap, ◌∙◌, ltb, leb, Text,
  List, [], ◌∷◌, ◌++◌, length, drop, keep, length-append, arith, Outcome, done, failed,
  pop_of_empty, ◌>>=◌,
}
use mathlib.Core.List.{append_assoc, append-nil}
use native.Mathlib.Decide.{dec_lt}
use phm.Types.{PhmEvent}
use phm.EventManager.{
  EventManager, create, pop_front, push, contains, erase_if, acknowledge, size, purge,
}

-- Pushes one after another.
unfoldable pub push_all : EventManager → List PhmEvent → Outcome EventManager
push_all em [] = done em
push_all em (e ∷ es) = do r ← push em e; push_all r.0 es

-- The newest n of a list that ends with the newest.
abbrev pub newest : ℕ → List PhmEvent → List PhmEvent
newest n l = drop (length l - n) l

drop-append : (n : ℕ) (xs ys : List PhmEvent) → n ≤ length xs → drop n (xs ++ ys) ≡ drop n xs ++ ys
drop-append zero xs ys h = refl
drop-append (suc n) [] ys h = absurd (omega arith)
drop-append (suc n) (x ∷ xs) ys h = drop-append n xs ys (omega arith)

length-drop : (n : ℕ) (xs : List PhmEvent) → length (drop n xs) ≡ length xs - n
length-drop zero xs = omega arith
length-drop (suc n) [] = omega arith
length-drop (suc n) (x ∷ xs) = omega (arith, length-drop n xs)

pop_front-drop :
    (n : ℕ) (xs : List PhmEvent) → n < length xs → pop_front (drop n xs) ≡ done (drop (suc n) xs)
unfolding pop_front
pop_front-drop n [] h = absurd (omega arith)
pop_front-drop zero (x ∷ xs) h = refl
pop_front-drop (suc n) (x ∷ xs) h = pop_front-drop n xs (omega arith)

-- The manager that keeps the newest n events of a history.
abbrev window : ℕ → List PhmEvent → EventManager
window n h = record { max_size = n; queue = newest n h }

push-full :
    (n : ℕ) (h : List PhmEvent) (e : PhmEvent)
    → 0 < n
    → n ≤ length h
    → push (window n h) e ≡ done (window n (h ++ e ∷ []), true)
unfolding push
push-full n h e p full =
    let k = length h - n in
    let long : leb n (length (drop k h)) ≡ true = rw (length-drop k h) (ground arith) in
    let shift : length (h ++ e ∷ []) - n ≡ suc k = omega (arith, length-append h (e ∷ [])) in
    rw (long, pop_front-drop k h (omega arith), shift, drop-append (suc k) h (e ∷ []) (omega arith))
      refl

push-room :
    (n : ℕ) (h : List PhmEvent) (e : PhmEvent)
    → length h < n
    → push (window n h) e ≡ done (window n (h ++ e ∷ []), true)
unfolding push
push-room n h e room =
    let none_dropped : length h - n ≡ 0 = omega arith in
    let short : leb n (length h) ≡ false = ground arith in
    let still : length (h ++ e ∷ []) - n ≡ 0 = omega (arith, length-append h (e ∷ [])) in
    rw (none_dropped, short, still) refl

push-window :
    (n : ℕ) (h : List PhmEvent) (e : PhmEvent)
    → 0 < n
    → push (window n h) e ≡ done (window n (h ++ e ∷ []), true)
push-window n h e p = elim (dec_lt (length h) n) [
  | yes room ↦ push-room n h e room
  | no full ↦ push-full n h e p (omega arith)
]

push_all-window :
    (n : ℕ) (h es : List PhmEvent) → 0 < n → push_all (window n h) es ≡ done (window n (h ++ es))
unfolding push_all
push_all-window n h [] p = rw (append-nil h) refl
push_all-window n h (e ∷ es) p = rw (push-window n h e p) (
    push_all-window n (h ++ e ∷ []) es p ∙ ap (λ l. done (window n l)) (append_assoc h (e ∷ []) es))

-- A queue with room for at least one event never fails, and after any pushes holds the newest of
-- all events pushed, in order, as many as fit: what is dropped is always the oldest.
pub push_all-newest :
    (n : ℕ) (es : List PhmEvent)
    → 0 < n
    → push_all (create n) es ≡ done (record { max_size = n; queue = newest n es })
unfolding create
push_all-newest n es p =
    let none_yet : 0 - n ≡ 0 = omega arith in rw none_yet at (push_all-window n [] es p)

-- With a capacity of 0 the first push uses pop_front on the empty deque.
pub push-zero_capacity : (e : PhmEvent) → push (create 0) e ≡ failed pop_of_empty
unfolding push create pop_front
push-zero_capacity e = refl

erase_if-keep :
    (p : PhmEvent → Bool) (es : List PhmEvent) → (erase_if p es).0 ≡ keep (λ e. not (p e)) es
unfolding erase_if
erase_if-keep p [] = refl
erase_if-keep p (e ∷ es) = ground (arith, erase_if-keep p es)

erase_if-count :
    (p : PhmEvent → Bool) (es : List PhmEvent)
    → (erase_if p es).1 + length (erase_if p es).0 ≡ length es
unfolding erase_if
erase_if-count p [] = omega arith
erase_if-count p (e ∷ es) = ground (arith, erase_if-count p es)

-- acknowledge keeps, in order, exactly the events whose id is not listed, and returns how many it
-- removed; purge does the same with the events whose time plus the ttl is not before now.
pub acknowledge-purge-keep :
    (em : EventManager) (ids : List Text) (now ttl : ℕ)
    → let (acked, removed) = acknowledge em ids in
      let (purged, expired) = purge em now ttl in
      (acked.queue ≡ keep (λ (e : PhmEvent). not (contains ids e.id)) em.queue)
      × (removed + size acked ≡ size em)
      × (purged.queue ≡ keep (λ (e : PhmEvent). not (ltb (e.timestamp + ttl) now)) em.queue)
      × (expired + size purged ≡ size em)
unfolding acknowledge purge size
acknowledge-purge-keep em ids now ttl = (
  erase_if-keep _ em.queue,
  erase_if-count _ em.queue,
  erase_if-keep _ em.queue,
  erase_if-count _ em.queue,
)
