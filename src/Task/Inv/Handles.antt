-- ===== src/Task/Inv/Handles.antt =====
-- The steps of the `Task` handle keep the invariant of a task.
use cynthia.Base.{
  ℕ, ◌+◌, ◌≡◌, ◌∙◌, Bool, true, false, ◌&&◌, ◌||◌, not, ◌==◌, Option, none, some, if_holds, arith,
}
use cynthia.Task.Word.{is_fresh}
use cynthia.Task.Cell.{Cell, take, notify, register, register_begin, register_end}
use cynthia.Task.Raw.{schedule, destroy, drop_output, closing_word, notify_if}
use cynthia.Task.Handle.{Poll, set_canceled, detach_round, poll_closed, poll_completed, poll_task}
use cynthia.Task.Inv.{Inv}

module _ {c : Cell} (v : Inv c) where
  pub register_end-Inv : Inv (register_end c)
  unfolding register_end
  register_end-Inv = ground arith

  pub register_begin-Inv : (w : ℕ) → Inv (register_begin w c).0
  unfolding register_begin
  register_begin-Inv w = ground arith

pub register-Inv : (w : ℕ) {c : Cell} → Inv c → Inv (register w c)
unfolding register
register-Inv w {c} v =
    if_holds Inv (register_begin w c).1 (λ go_on. register_end-Inv (register_begin-Inv v w))
      (λ stop. register_begin-Inv v w)

pub register-handle : (w : ℕ) (c : Cell) → (register w c).handle ≡ c.handle
unfolding register register_begin register_end
register-handle w c = ground arith

module _ {c : Cell} (v : Inv c) (held : c.handle ≡ true) where
  give_up :
      (c.word.completed && not c.word.closed) ≡ false
      → (c.word.reference == 0) ≡ false
      → Inv (record c { word = record (c.word) { task = false }; handle = false })
  give_up h more = ground arith

  fresh-open :
      is_fresh c.word ≡ true
      → ((c.word.completed && not c.word.closed) ≡ false) × ((c.word.reference == 0) ≡ false)
  unfolding is_fresh
  fresh-open h = ground arith

  read_output :
      (c.word.completed && not c.word.closed) ≡ true
      → Inv (drop_output (record c { word = record (c.word) { closed = true } }))
  unfolding drop_output
  read_output h = ground arith

  last_handle :
      (c.word.reference == 0) ≡ true
      → c.word.closed ≡ true
      → Inv (destroy (record c { word = record (c.word) { task = false }; handle = false }))
  unfolding destroy
  last_handle none_left over = ground arith

  one_run_more :
      (c.word.completed && not c.word.closed) ≡ false
      → (c.word.reference == 0) ≡ true
      → c.word.closed ≡ false
      → Inv (schedule (record c { word = closing_word; handle = false }))
  unfolding schedule
  one_run_more h none_left unclosed = ground arith

  pub detach_round-Inv : Inv (detach_round c).0
  unfolding detach_round
  detach_round-Inv =
      let P : Cell × Bool → Type 0 = λ r. Inv r.0 in
      if_holds P (is_fresh c.word) (λ fresh. give_up (fresh-open fresh).0 (fresh-open fresh).1)
        (λ _.
          if_holds P (c.word.completed && not c.word.closed) (λ unread. read_output unread)
            (λ read.
              if_holds P (c.word.reference == 0)
                (λ none_left.
                  if_holds P (c.word.closed) (λ over. last_handle none_left over)
                    (λ unclosed. one_run_more read none_left unclosed))
                (λ more. give_up read more)))

module _ (will_wake : ℕ → ℕ → Bool) where
  pub notify-Inv : (current : Option ℕ) {c : Cell} → Inv c → Inv (notify will_wake current c)
  unfolding notify take
  notify-Inv current v = ground arith

  pub notify_if-Inv : (b : Bool) {c : Cell} → Inv c → Inv (notify_if will_wake b c)
  notify_if-Inv true v = notify-Inv none v
  notify_if-Inv false v = v

module _ (will_wake : ℕ → ℕ → Bool) {c : Cell} (v : Inv c) where
  close_running :
      (c.word.completed || c.word.closed) ≡ false
      → (c.word.scheduled || c.word.running) ≡ true
      → Inv (record c { word = record (c.word) { closed = true } })
  close_running unclosed busy = ground arith

  close_idle :
      c.handle ≡ true
      → (c.word.completed || c.word.closed) ≡ false
      → (c.word.scheduled || c.word.running) ≡ false
      → Inv (
          schedule (record c {
            word = record (c.word) {
              scheduled = true;
              closed = true;
              reference = c.word.reference + 1;
            };
          }))
  unfolding schedule
  close_idle held unclosed idle = ground arith

  pub set_canceled-Inv : c.handle ≡ true → Inv (set_canceled will_wake c)
  unfolding set_canceled
  set_canceled-Inv held =
      if_holds Inv (c.word.completed || c.word.closed) (λ over. v)
        (λ unclosed.
          if_holds Inv (c.word.scheduled || c.word.running)
            (λ busy. notify_if-Inv will_wake c.word.awaiter (close_running unclosed busy))
            (λ idle. notify_if-Inv will_wake c.word.awaiter (close_idle held unclosed idle)))

  pub poll_closed-Inv : (w : ℕ) → Inv (poll_closed will_wake w c).0
  unfolding poll_closed
  poll_closed-Inv w =
      let P : Cell × Poll → Type 0 = λ r. Inv r.0 in
      if_holds P (c.word.scheduled || c.word.running)
        (λ busy.
          if_holds P ((register w c).word.scheduled || (register w c).word.running)
            (λ still. register-Inv w v) (λ idle. notify-Inv will_wake (some w) (register-Inv w v)))
        (λ idle. notify-Inv will_wake (some w) v)

  pub poll_completed-Inv :
      (w : ℕ)
      → c.handle ≡ true
      → c.word.completed ≡ true
      → c.word.closed ≡ false
      → Inv (poll_completed will_wake w c).0
  unfolding poll_completed
  poll_completed-Inv w held done unread = ground arith

pub poll_task-Inv :
    (will_wake : ℕ → ℕ → Bool) (w : ℕ) {c : Cell}
    → Inv c
    → c.handle ≡ true
    → Inv (poll_task will_wake w c).0
unfolding poll_task
poll_task-Inv s w {c} v held =
    let P : Cell × Poll → Type 0 = λ r. Inv r.0 in
    let v' = register-Inv w v in
    if_holds P (c.word.closed) (λ _. poll_closed-Inv s v w)
      (λ unread.
        if_holds P (c.word.completed) (λ done. poll_completed-Inv s v w held done unread)
          (λ _.
            if_holds P ((register w c).word.closed) (λ _. poll_closed-Inv s v' w)
              (λ unread'.
                if_holds P ((register w c).word.completed)
                  (λ done'. poll_completed-Inv s v' w (register-handle w c ∙ held) done' unread')
                  (λ _. v'))))
