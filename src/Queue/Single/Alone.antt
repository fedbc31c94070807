-- ===== src/Queue/Single/Alone.antt =====
-- cynthia/src/platform/queue/single.rs: the loop of `pop`, and what one thread alone finds.
use cynthia.Base.{
  ◌∙◌, ◌≡◌, refl, Bool, true, false, Option, none, some, List, [], ◌∷◌, ◌++◌, sym, ap,
}
use cynthia.Queue.{closed, empty}
use cynthia.Queue.Single.{Word, word, PopTry, takes, fails, again, pop_try}

abbrev next_of : PopTry → Word → Word
next_of (takes w) d = d
next_of (fails e) d = d
next_of (again w) d = w

form :
    (d l p c : Bool) (next : Word)
    → pop_try (word false true d) (word l p c) ≡ again next
    → next ≡ word false true c
unfolding pop_try
form false false false false next e = cc e
form false false false true next e = cc e
form false false true false next e = cc e
form false false true true next e = sym (ap (λ t. next_of t next) e)
form false true false false next e = cc e
form false true false true next e = cc e
form false true true false next e = sym (ap (λ t. next_of t next) e)
form false true true true next e = sym (ap (λ t. next_of t next) e)
form true false false false next e = cc e
form true false false true next e = cc e
form true false true false next e = sym (ap (λ t. next_of t next) e)
form true false true true next e = cc e
form true true false false next e = cc e
form true true false true next e = cc e
form true true true false next e = sym (ap (λ t. next_of t next) e)
form true true true true next e = sym (ap (λ t. next_of t next) e)

-- The variable of the loop stays pushed and not locked.
pub keeps_form :
    (d : Bool) (prev next : Word)
    → pop_try (word false true d) prev ≡ again next
    → next ≡ word false true prev.is_closed
keeps_form d prev next e = form d prev.is_locked prev.is_pushed prev.is_closed next e

unfoldable pub after_round : PopTry → (Word → Option PopTry) → Option PopTry
after_round (takes w) loop = some (takes w)
after_round (fails e) loop = some (fails e)
after_round (again next) loop = loop next

-- The loop, whose rounds find the words of a list; `none` if they run out before it ends.
unfoldable pub pop_loop : Word → List Word → Option PopTry
pop_loop state [] = none
pop_loop state (prev ∷ later) = after_round (pop_try state prev) (λ next. pop_loop next later)

abbrev Ends : Option PopTry → Type 0
Ends o = (t : PopTry) × (o ≡ some t)

settled :
    (d p c : Bool) → Ends (pop_loop (word false true d) (word false p c ∷ word false p c ∷ []))
unfolding pop_loop after_round pop_try
settled d false false = (fails empty, refl)
settled d false true = (fails closed, refl)
settled false true false = (takes (word true false false), refl)
settled true true false = (takes (word true false false), refl)
settled false true true = (takes (word true false true), refl)
settled true true true = (takes (word true false true), refl)

-- A round on any word ends the loop, or leaves a variable of the same form.
round_or :
    (d : Bool) (prev : Word) (later : List Word)
    → ((c : Bool) → Ends (pop_loop (word false true c) later))
    → (t : PopTry) → pop_try (word false true d) prev ≡ t
    → Ends (pop_loop (word false true d) (prev ∷ later))
unfolding pop_loop after_round
round_or d prev later ih (takes w) e =
    (takes w, ap (λ t. after_round t (λ next. pop_loop next later)) e)
round_or d prev later ih (fails w) e =
    (fails w, ap (λ t. after_round t (λ next. pop_loop next later)) e)
round_or d prev later ih (again next) e =
    let here = ap (λ t. after_round t (λ n. pop_loop n later)) e in
    let formed = ap (λ n. pop_loop n later) (keeps_form d prev next e) in
    let (t, found) = ih prev.is_closed in (t, here ∙ formed ∙ found)

-- Whatever words a pop finds first, it ends once it finds the same word, not locked, in two rounds.
pub pop_loop-ends :
    (d p c : Bool) (before : List Word)
    → (t : PopTry) × (pop_loop (word false true d) (before ++ word false p c ∷ word false p c ∷ [])
        ≡ some t)
pop_loop-ends d p c [] = settled d p c
pop_loop-ends d p c (prev ∷ before) =
    round_or d prev (before ++ word false p c ∷ word false p c ∷ [])
      (λ d'. pop_loop-ends d' p c before) (pop_try (word false true d) prev) refl
