-- ===== src/Event/Places.antt =====
-- cynthia/src/platform/event/listener.rs: the operations on one listener keep the order of the list.
use cynthia.Base.{
  ℕ, ◌≡◌, ◌⊎◌, refl, sym, ap, subst, ◌∙◌, Bool, true, false, ◌==◌, ==_iff, some, List, [], ◌∷◌,
  ◌++◌, length, length-append, Bool-cases, inl, inr, arith,
}
use mathlib.Core.List.{append_assoc}
use cynthia.Event.{
  State, created, notified, polling, waiting, is_notified, Entry, Listeners, first_id, state_of,
  set_state, remove, notify_additional, hand_on, drop_listener, has,
}
use cynthia.Event.Inv.{
  Ascends, Each, Inv, listeners, state_of-append, set_state-append, Ascends-set, Ascends-unlink,
  Each-append, Each-left, Each-right,
}
use cynthia.Event.Rounds.{remove-notified, remove-waiting}
use cynthia.Event.Steps.{make, by_lists, notify_rounds-Inv, notify-Inv}

-- Where a listener stands in a list.
pub data Found (i : ℕ) (l : List Entry) : Type 0 where
  at : (l₁ : List Entry) (e : Entry) (l₂ : List Entry) → l ≡ l₁ ++ e ∷ l₂ → e.id ≡ i → Found i l

found-cons : (i : ℕ) (f : Entry) (l : List Entry) → Found i l → Found i (f ∷ l)
found-cons i f l (at l₁ e l₂ same id) = at (f ∷ l₁) e l₂ (ap (λ k. f ∷ k) same) id

found-has : (i : ℕ) (l : List Entry) → has i l ≡ true → Found i l
found-has i [] h = absurd (cc h)
found-has i (f ∷ l) h = elim (Bool-cases (f.id == i)) [
  | inl here ↦ at [] f l refl ((==_iff f.id i).0 here)
  | inr there ↦ found-cons i f l (found-has i l (rw there at h))
]

found-append : (i : ℕ) (a b : List Entry) → has i (a ++ b) ≡ true → Found i a ⊎ Found i b
found-append i [] b h = inr (found-has i b h)
found-append i (f ∷ a) b h = elim (Bool-cases (f.id == i)) [
  | inl here ↦ inl (at [] f a refl ((==_iff f.id i).0 here))
  | inr there ↦ elim (found-append i a b (rw there at h)) [
    | inl found ↦ inl (found-cons i f a found)
    | inr found ↦ inr found
  ]
]

-- Where listener `i` stands among the two lists.
found-Inv :
    (i : ℕ) {x : Listeners} (v : Inv x) → has i x.entries ≡ true → Found i v.done ⊎ Found i v.waits
found-Inv i {x} v h = found-append i v.done v.waits (subst (λ y. has i y.entries ≡ true) v.same h)

-- The others, without one of them or with its state changed.
Each-others :
    (v : Bool) (l₁ : List Entry) (e : Entry) (l₂ : List Entry)
    → Each v (l₁ ++ e ∷ l₂)
    → Each v (l₁ ++ l₂)
Each-others v l₁ e l₂ h =
    Each-append v l₁ l₂ (Each-left v l₁ (e ∷ l₂) h) (Each-right v l₁ (e ∷ l₂) h).1

gone-notified :
    (a₁ : List Entry) (e : Entry) (a₂ b : List Entry) (next_id : ℕ) (woken : List ℕ)
    → Each true (a₁ ++ e ∷ a₂)
    → Each false b
    → Ascends 0 next_id ((a₁ ++ e ∷ a₂) ++ b)
    → Inv (remove e.id (listeners (a₁ ++ e ∷ a₂) b next_id woken)).1
gone-notified a₁ e a₂ b next_id woken all nobody asc =
    let moved : (a₁ ++ e ∷ a₂) ++ b ≡ a₁ ++ (e ∷ a₂ ++ b) = append_assoc a₁ (e ∷ a₂) b in
    let asc' : Ascends 0 next_id ((a₁ ++ a₂) ++ b) =
      rw (append_assoc a₁ a₂ b) (Ascends-unlink a₁ e (a₂ ++ b) 0 next_id (rw moved at asc)) in
    let is = (Each-right true a₁ (e ∷ a₂) all).0 in
    subst (λ q. Inv q.1) (sym (remove-notified a₁ e a₂ b next_id woken is asc))
      (make (a₁ ++ a₂) b next_id woken (Each-others true a₁ e a₂ all) nobody asc')

gone-waiting :
    (a b₁ : List Entry) (e : Entry) (b₂ : List Entry) (next_id : ℕ) (woken : List ℕ)
    → Each true a
    → Each false (b₁ ++ e ∷ b₂)
    → Ascends 0 next_id (a ++ (b₁ ++ e ∷ b₂))
    → Inv (remove e.id (listeners a (b₁ ++ e ∷ b₂) next_id woken)).1
gone-waiting a b₁ e b₂ next_id woken all nobody asc =
    let moved : a ++ (b₁ ++ e ∷ b₂) ≡ (a ++ b₁) ++ e ∷ b₂ = sym (append_assoc a b₁ (e ∷ b₂)) in
    let asc' : Ascends 0 next_id (a ++ (b₁ ++ b₂)) =
      rw (sym (append_assoc a b₁ b₂)) (Ascends-unlink (a ++ b₁) e b₂ 0 next_id (rw moved at asc)) in
    let is = (Each-right false b₁ (e ∷ b₂) nobody).0 in
    subst (λ q. Inv q.1) (sym (remove-waiting a b₁ e b₂ next_id woken is asc))
      (make a (b₁ ++ b₂) next_id woken all (Each-others false b₁ e b₂ nobody) asc')

remove-lists :
    (i : ℕ) (a b : List Entry) (next_id : ℕ) (woken : List ℕ)
    → Each true a
    → Each false b
    → Ascends 0 next_id (a ++ b)
    → Found i a ⊎ Found i b
    → Inv (remove i (listeners a b next_id woken)).1
remove-lists i a b next_id woken all nobody asc (inl (at a₁ e a₂ same id)) =
    subst (λ l. Inv (remove i (listeners l b next_id woken)).1) (sym same)
      (subst (λ k. Inv (remove k (listeners (a₁ ++ e ∷ a₂) b next_id woken)).1) id
        (gone-notified a₁ e a₂ b next_id woken (subst (Each true) same all) nobody
          (subst (λ l. Ascends 0 next_id (l ++ b)) same asc)))
remove-lists i a b next_id woken all nobody asc (inr (at b₁ e b₂ same id)) =
    subst (λ l. Inv (remove i (listeners a l next_id woken)).1) (sym same)
      (subst (λ k. Inv (remove k (listeners a (b₁ ++ e ∷ b₂) next_id woken)).1) id
        (gone-waiting a b₁ e b₂ next_id woken all (subst (Each false) same nobody)
          (subst (λ l. Ascends 0 next_id (a ++ l)) same asc)))

pub remove-Inv : (i : ℕ) {x : Listeners} → Inv x → has i x.entries ≡ true → Inv (remove i x).1
remove-Inv i {x} v h =
    by_lists (λ y. Inv (remove i y).1) v
      (remove-lists i v.done v.waits x.next_id x.woken v.all_notified v.none_notified v.ascends
        (found-Inv i v h))

hand_on-Inv : (q : State × Listeners) → Inv q.1 → Inv (hand_on q)
unfolding hand_on notify_additional
hand_on-Inv (notified true, x) v = notify_rounds-Inv true 1 v
hand_on-Inv (notified false, x) v = notify-Inv 1 v
hand_on-Inv (created, x) v = v
hand_on-Inv (polling w, x) v = v
hand_on-Inv (waiting t, x) v = v

pub drop-Inv : (i : ℕ) {x : Listeners} → Inv x → has i x.entries ≡ true → Inv (drop_listener i x)
unfolding drop_listener
drop-Inv i {x} v h = hand_on-Inv (remove i x) (remove-Inv i v h)

first_id-set :
    (b₁ : List Entry) (e e' : Entry) (b₂ : List Entry)
    → e.id ≡ e'.id
    → first_id (b₁ ++ e ∷ b₂) ≡ first_id (b₁ ++ e' ∷ b₂)
first_id-set [] e e' b₂ h = ap some h
first_id-set (f ∷ b₁) e e' b₂ h = refl

-- A listener that is not notified may change its state to another such one.
set-lists :
    (i : ℕ) (st : State) (a b : List Entry) (next_id : ℕ) (woken : List ℕ)
    → is_notified st ≡ false
    → Each true a
    → Each false b
    → Ascends 0 next_id (a ++ b)
    → is_notified (state_of i (a ++ b)) ≡ false
    → Found i a ⊎ Found i b
    → Inv (record (listeners a b next_id woken) { entries = set_state i st (a ++ b) })
set-lists i st a b next_id woken open_ all nobody asc is (inl (at a₁ e a₂ same id)) =
    let entries : a ++ b ≡ a₁ ++ (e ∷ a₂ ++ b) =
      ap (λ l. l ++ b) same ∙ append_assoc a₁ (e ∷ a₂) b in
    let read = state_of-append e (a₂ ++ b) next_id a₁ 0 (subst (Ascends 0 next_id) entries asc) in
    let its : state_of i (a ++ b) ≡ e.state =
      ap (state_of i) entries ∙ ap (λ k. state_of k (a₁ ++ (e ∷ a₂ ++ b))) (sym id) ∙ read in
    let done = (Each-right true a₁ (e ∷ a₂) (subst (Each true) same all)).0 in
    let clash : true ≡ false = sym (ap is_notified its ∙ done) ∙ is in absurd (cc clash)
set-lists i st a b next_id woken open_ all nobody asc is (inr (at b₁ e b₂ same id)) =
    let e' : Entry = record { id = e.id; state = st } in
    let split : a ++ b ≡ (a ++ b₁) ++ e ∷ b₂ =
      ap (λ l. a ++ l) same ∙ sym (append_assoc a b₁ (e ∷ b₂)) in
    let asc' = subst (Ascends 0 next_id) split asc in
    let entries : set_state i st (a ++ b) ≡ a ++ (b₁ ++ e' ∷ b₂) =
      ap (set_state i st) split
      ∙ ap (λ k. set_state k st ((a ++ b₁) ++ e ∷ b₂)) (sym id)
      ∙ set_state-append e b₂ next_id st (a ++ b₁) 0 asc'
      ∙ append_assoc a b₁ (e' ∷ b₂) in
    let first : first_id b ≡ first_id (b₁ ++ e' ∷ b₂) =
      ap first_id same ∙ first_id-set b₁ e e' b₂ refl in
    let len : length b ≡ length (b₁ ++ e' ∷ b₂) =
      ap length same ∙ omega (arith, length-append b₁ (e ∷ b₂), length-append b₁ (e' ∷ b₂)) in
    let others = subst (Each false) same nobody in
    let nobody' : Each false (b₁ ++ e' ∷ b₂) =
      Each-append false b₁ (e' ∷ b₂) (Each-left false b₁ (e ∷ b₂) others)
        (open_, (Each-right false b₁ (e ∷ b₂) others).1) in
    let ascends : Ascends 0 next_id (a ++ (b₁ ++ e' ∷ b₂)) =
      subst (Ascends 0 next_id) (append_assoc a b₁ (e' ∷ b₂))
        (Ascends-set e b₂ next_id st (a ++ b₁) 0 asc') in
    let lists : record (listeners a b next_id woken) { entries = set_state i st (a ++ b) }
        ≡ listeners a (b₁ ++ e' ∷ b₂) next_id woken =
      rw (entries, first, len) in
    subst Inv (sym lists) (make a (b₁ ++ e' ∷ b₂) next_id woken all nobody' ascends)

pub set-Inv :
    (i : ℕ) (st : State) {x : Listeners}
    → is_notified st ≡ false
    → Inv x
    → has i x.entries ≡ true
    → is_notified (state_of i x.entries) ≡ false
    → Inv (record x { entries = set_state i st x.entries })
set-Inv i st {x} open_ v h is =
    by_lists (λ y. Inv (record y { entries = set_state i st y.entries })) v
      (set-lists i st v.done v.waits x.next_id x.woken open_ v.all_notified v.none_notified
        v.ascends (subst (λ y. is_notified (state_of i y.entries) ≡ false) v.same is)
        (found-Inv i v h))
