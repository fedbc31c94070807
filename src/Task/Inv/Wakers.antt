-- ===== src/Task/Inv/Wakers.antt =====
-- The steps of wakers keep the invariant of a task.
use cynthia.Base.{◌-◌, ◌≡◌, ◌<◌, true, false, ◌&&◌, ◌||◌, not, ◌==◌, some, if_holds, arith}
use cynthia.Task.Cell.{Cell}
use cynthia.Task.Raw.{
  schedule, destroy, sub_reference, closing_word, clone_waker, drop_waker, wake, wake_by_ref,
}
use cynthia.Task.System.{Action, can}
use cynthia.Task.Inv.{Inv}

module _ {c : Cell} (v : Inv c) where
  one_closed_run :
      0 < c.wakers
      → c.word.reference ≡ 1
      → c.word.task ≡ false
      → (c.word.completed || c.word.closed) ≡ false
      → Inv (
          schedule
            (record (sub_reference (record c { wakers = c.wakers - 1 })) { word = closing_word }))
  unfolding schedule sub_reference
  one_closed_run h one gone unclosed = ground arith

  last_waker :
      0 < c.wakers
      → c.word.reference ≡ 1
      → c.word.task ≡ false
      → (c.word.completed || c.word.closed) ≡ true
      → Inv (destroy (sub_reference (record c { wakers = c.wakers - 1 })))
  unfolding destroy sub_reference
  last_waker h one gone over = ground arith

  not_last_waker :
      0 < c.wakers
      → ((c.word.reference - 1 == 0) && not c.word.task) ≡ false
      → Inv (sub_reference (record c { wakers = c.wakers - 1 }))
  unfolding sub_reference
  not_last_waker h more = ground arith

  last :
      0 < c.wakers
      → ((c.word.reference - 1 == 0) && not c.word.task) ≡ true
      → (c.word.reference ≡ 1) × (c.word.task ≡ false)
  last h e = ground arith

  pub drop_waker-Inv : 0 < c.wakers → Inv (drop_waker c)
  unfolding drop_waker sub_reference
  drop_waker-Inv h =
      if_holds Inv ((c.word.reference - 1 == 0) && not c.word.task)
        (λ e.
          let (one, gone) = last h e in
          if_holds Inv (c.word.completed || c.word.closed) (λ over. last_waker h one gone over)
            (λ unclosed. one_closed_run h one gone unclosed))
        (λ more. not_last_waker h more)

  schedule_waker :
      0 < c.wakers
      → (c.word.completed || c.word.closed) ≡ false
      → c.word.scheduled ≡ false
      → c.word.running ≡ false
      → Inv (
          schedule
            (record c { word = record (c.word) { scheduled = true }; wakers = c.wakers - 1 }))
  unfolding schedule
  schedule_waker h unclosed idle paused = ground arith

  mark_scheduled :
      c.word.running ≡ true → Inv (record c { word = record (c.word) { scheduled = true } })
  mark_scheduled h = ground arith

  pub clone_waker-Inv : {c' : Cell} → can Action.clones c ≡ true → clone_waker c ≡ some c' → Inv c'
  unfolding clone_waker can
  clone_waker-Inv h e = ground arith

  pub wake_by_ref-Inv :
      {c' : Cell} → can Action.wakes_by_ref c ≡ true → wake_by_ref c ≡ some c' → Inv c'
  unfolding wake_by_ref can
  wake_by_ref-Inv h e = ground arith

pub wake-Inv : {c : Cell} → Inv c → 0 < c.wakers → Inv (wake c)
unfolding wake
wake-Inv {c} v h =
    if_holds Inv (c.word.completed || c.word.closed) (λ over. drop_waker-Inv v h)
      (λ unclosed.
        if_holds Inv (c.word.scheduled) (λ already. drop_waker-Inv v h)
          (λ idle.
            if_holds Inv (c.word.running) (λ running. drop_waker-Inv (mark_scheduled v running) h)
              (λ paused. schedule_waker v h unclosed idle paused)))
