-- ===== src/Event/Rounds.antt =====
-- cynthia/src/platform/event/listener.rs: what the operations make of the two lists.
use cynthia.Base.{
  ℕ, zero, suc, ◌+◌, ◌-◌, ◌≡◌, refl, sym, ap, ◌∙◌, Bool, true, false, ==_iff, if◌then◌else◌, List,
  [], ◌∷◌, ◌++◌, length, length-append, take, drop, arith,
}
use mathlib.Core.List.{append_assoc, append-nil}
use cynthia.Event.{
  notified, is_notified, Entry, first_id, starts_at, wake, notify_entry, notify_rounds, remove,
}
use cynthia.Event.Inv.{
  Ascends, listeners, next_of-append, state_of-append, set_state-append, unlink-append, Ascends-set,
  Ascends-from, before,
}

-- The entries once they are notified, and those that are woken by it.
abbrev pub marks : Bool → List Entry → List Entry
marks additional [] = []
marks additional (e ∷ l) = record { id = e.id; state = notified additional } ∷ marks additional l

abbrev pub wakes : List Entry → List ℕ → List ℕ
wakes [] woken = woken
wakes (e ∷ l) woken = wakes l (wake e.state woken)

-- A round notifies the first listener that waits.
notify_entry_lem :
    (additional : Bool) (a : List Entry) (e : Entry) (b : List Entry) (next_id : ℕ) (woken : List ℕ)
    → Ascends 0 next_id (a ++ e ∷ b)
    → notify_entry additional e.id (listeners a (e ∷ b) next_id woken)
      ≡ listeners
          (a ++ record { id = e.id; state = notified additional } ∷ [])
          b
          next_id
          (wake e.state woken)
notify_entry_lem additional a e b next_id woken h =
    let e' : Entry = record { id = e.id; state = notified additional } in
    let entries =
      set_state-append e b next_id (notified additional) a 0 h ∙ sym (append_assoc a (e' ∷ []) b) in
    let longer : length (a ++ e' ∷ []) ≡ length a + 1 = length-append a (e' ∷ []) in
    let len : length a + length (e ∷ b) ≡ length (a ++ e' ∷ []) + length b =
      omega (arith, longer) in
    rw (next_of-append e b next_id a 0 h, state_of-append e b next_id a 0 h, entries, len, longer)

pub notify_rounds_lem :
    (additional : Bool) (n : ℕ) (a b : List Entry) (next_id : ℕ) (woken : List ℕ)
    → Ascends 0 next_id (a ++ b)
    → notify_rounds additional n (listeners a b next_id woken)
      ≡ listeners (a ++ marks additional (take n b)) (drop n b) next_id (wakes (take n b) woken)
unfolding notify_rounds
notify_rounds_lem additional zero a b next_id woken h = rw (append-nil a)
notify_rounds_lem additional (suc n) a [] next_id woken h =
    ap (λ l. listeners l [] next_id woken) (sym (append-nil a))
notify_rounds_lem additional (suc n) a (e ∷ b) next_id woken h =
    let e' : Entry = record { id = e.id; state = notified additional } in
    let asc : Ascends 0 next_id ((a ++ e' ∷ []) ++ b) =
      rw (append_assoc a (e' ∷ []) b) (Ascends-set e b next_id (notified additional) a 0 h) in
    ap (notify_rounds additional n) (notify_entry_lem additional a e b next_id woken h)
    ∙ notify_rounds_lem additional n (a ++ e' ∷ []) b next_id (wake e.state woken) asc
    ∙ ap (λ l. listeners l (drop n b) next_id (wakes (take n b) (wake e.state woken)))
        (append_assoc a (e' ∷ []) (marks additional (take n b)))

Ascends-suffix :
    (a l : List Entry) (lo hi : ℕ) → Ascends lo hi (a ++ l) → (lo' : ℕ) × Ascends lo' hi l
Ascends-suffix [] l lo hi h = (lo, h)
Ascends-suffix (f ∷ a) l lo hi h = Ascends-suffix a l (f.id + 1) hi h.1

-- `start` stands behind a notified listener, and at a waiting one only if that is the first.
start-behind :
    (e : Entry) (a b : List Entry) (lo hi : ℕ)
    → Ascends lo hi (e ∷ a ++ b)
    → starts_at e.id (first_id b) ≡ false
start-behind e a [] lo hi h = refl
start-behind e a (f ∷ b) lo hi h =
    let later = Ascends-from a f b (e.id + 1) hi h.1 in ground (arith, later)

start-first :
    (b : List Entry) (e : Entry) (b' : List Entry) (lo hi : ℕ)
    → Ascends lo hi (b ++ e ∷ b')
    → (if starts_at e.id (first_id (b ++ e ∷ b')) then first_id b' else first_id (b ++ e ∷ b'))
      ≡ first_id (b ++ b')
start-first [] e b' lo hi h = rw ((==_iff e.id e.id).1 refl)
start-first (f ∷ b) e b' lo hi h = rw (before f b e b' lo hi h)

-- A notified listener that goes, and one that waits.
pub remove-notified :
    (a : List Entry) (e : Entry) (a' b : List Entry) (next_id : ℕ) (woken : List ℕ)
    → is_notified e.state ≡ true
    → Ascends 0 next_id ((a ++ e ∷ a') ++ b)
    → remove e.id (listeners (a ++ e ∷ a') b next_id woken)
      ≡ (e.state, listeners (a ++ a') b next_id woken)
unfolding remove
remove-notified a e a' b next_id woken is h =
    let moved : (a ++ e ∷ a') ++ b ≡ a ++ (e ∷ a' ++ b) = append_assoc a (e ∷ a') b in
    let asc : Ascends 0 next_id (a ++ (e ∷ a' ++ b)) = rw moved at h in
    let behind =
      start-behind e a' b (Ascends-suffix a (e ∷ a' ++ b) 0 next_id asc).0 next_id
        (Ascends-suffix a (e ∷ a' ++ b) 0 next_id asc).1 in
    let more : length (a ++ e ∷ a') ≡ suc (length (a ++ a')) =
      omega (arith, length-append a (e ∷ a'), length-append a a') in
    let len : suc (length (a ++ a')) + length b - 1 ≡ length (a ++ a') + length b = omega arith in
    let fewer : suc (length (a ++ a')) - 1 ≡ length (a ++ a') = omega arith in
    rw (
      moved,
      state_of-append e (a' ++ b) next_id a 0 asc,
      unlink-append e (a' ++ b) next_id a 0 asc,
      behind,
      is,
      more,
      len,
      fewer,
      append_assoc a a' b,
    )

pub remove-waiting :
    (a b : List Entry) (e : Entry) (b' : List Entry) (next_id : ℕ) (woken : List ℕ)
    → is_notified e.state ≡ false
    → Ascends 0 next_id (a ++ (b ++ e ∷ b'))
    → remove e.id (listeners a (b ++ e ∷ b') next_id woken)
      ≡ (e.state, listeners a (b ++ b') next_id woken)
unfolding remove
remove-waiting a b e b' next_id woken is h =
    let moved : a ++ (b ++ e ∷ b') ≡ (a ++ b) ++ e ∷ b' = sym (append_assoc a b (e ∷ b')) in
    let asc : Ascends 0 next_id ((a ++ b) ++ e ∷ b') = rw moved at h in
    let rest = Ascends-suffix a (b ++ e ∷ b') 0 next_id h in
    let len : length a + length (b ++ e ∷ b') - 1 ≡ length a + length (b ++ b') =
      omega (arith, length-append b (e ∷ b'), length-append b b') in
    rw (
      moved,
      state_of-append e b' next_id (a ++ b) 0 asc,
      unlink-append e b' next_id (a ++ b) 0 asc,
      next_of-append e b' next_id (a ++ b) 0 asc,
      start-first b e b' rest.0 next_id rest.1,
      is,
      len,
      append_assoc a b b',
    )
