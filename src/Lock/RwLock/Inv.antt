-- ===== src/Lock/RwLock/Inv.antt =====
-- The steps of the tasks that share a readers-writer lock, and what they keep.
use cynthia.Base.{
  ◌+◌, ◌-◌, ◌*◌, ◌≤◌, ◌<◌, ◌≡◌, Bool, true, false, ltb, Option, some, arith, inl, inr, Option-cases,
  not, ◌&&◌, some_kept, sym, ap, ◌∙◌, ltb→lt,
}
use mathlib.Core.Option
use cynthia.Base.Word.{isize_max}
use cynthia.Base.Machine.{Machine, Reach, Reach-Keeps}
use cynthia.Lock.Mutex
use cynthia.Lock.RwLock.{
  RwLock, new, try_read, pass_on, use_mutex, unlock, check_upgradable, upgradable_read, try_write,
  write, grant, drop_read, drop_upgradable, drop_write, drop_waiting, downgrade_upgradable,
  try_upgrade, upgrade, downgrade, downgrade_to_upgradable,
}

pub data Action : Type 0 where
  uses_mutex : Mutex.Action → Action
  unlocks tries_read passes_on checks reads_upgradable tries_write writes grants : Action
  drops_read drops_upgradable drops_write drops_waiting : Action
  downgrades_upgradable tries_upgrade upgrades downgrades downgrades_to_upgradable : Action

-- A guard of the mutex is given up with what holds it, never by itself.
unfoldable pub can : Action → RwLock → Bool
can (uses_mutex a) l = Mutex.can a l.mutex && not (Mutex.is_unlock a)
can unlocks l = ltb 0 l.claims
can tries_read l = true
can passes_on l = true
can checks l = ltb 0 l.claims
can reads_upgradable l = ltb 0 l.checked
can tries_write l = ltb 0 l.claims
can writes l = ltb 0 l.claims
can grants l = ltb 0 l.waiting
can drops_read l = ltb 0 l.readers
can drops_upgradable l = ltb 0 l.upgradable
can drops_write l = ltb 0 l.writers
can drops_waiting l = ltb 0 l.waiting
can downgrades_upgradable l = ltb 0 l.upgradable
can tries_upgrade l = ltb 0 l.upgradable
can upgrades l = ltb 0 l.upgradable
can downgrades l = ltb 0 l.writers
can downgrades_to_upgradable l = ltb 0 l.writers

unfoldable pub act : Action → RwLock → Option RwLock
unfolding try_read pass_on check_upgradable upgradable_read try_write write grant drop_read
    drop_upgradable drop_write drop_waiting downgrade_upgradable try_upgrade upgrade downgrade
    downgrade_to_upgradable
act (uses_mutex a) l = use_mutex a l
act unlocks l = some (unlock l)
act tries_read l = Option.map (λ r. r.0) (try_read l)
act passes_on l = some (pass_on l)
act checks l = check_upgradable l
act reads_upgradable l = some (upgradable_read l)
act tries_write l = some (try_write l).0
act writes l = some (write l)
act grants l = some (grant l).0
act drops_read l = some (drop_read l)
act drops_upgradable l = some (drop_upgradable l)
act drops_write l = some (drop_write l)
act drops_waiting l = some (drop_waiting l)
act downgrades_upgradable l = some (downgrade_upgradable l)
act tries_upgrade l = some (try_upgrade l).0
act upgrades l = some (upgrade l)
act downgrades l = some (downgrade l)
act downgrades_to_upgradable l = some (downgrade_to_upgradable l)

abbrev pub machine : Machine
machine = record { State = RwLock; Action = Action; first = new; can = can; act = act }

pub record Inv (l : RwLock) : Type 0 where
  pub lock : Mutex.Inv l.mutex
  pub held : l.mutex.holders ≡ l.claims + l.checked + l.upgradable + l.waiting + l.writers
  pub word : l.state ≡ 2 * (l.readers + l.upgradable) + l.waiting + l.writers
  pub alone : 0 < l.writers → l.readers ≡ 0
  pub fits : l.state + 2 * l.checked ≤ isize_max + 4

new-Inv : Inv new
unfolding new
new-Inv = ground arith

and_true : {a b : Bool} → (a && not b) ≡ true → (a ≡ true) × (b ≡ false)
and_true h = ground arith

unlock-Inv : {l : RwLock} → Inv l → 0 < l.claims → Inv (unlock l)
unfolding unlock Mutex.unlock
unlock-Inv {l} v h = record {
  lock = Mutex.unlock-Inv v.lock (omega (arith, v.held));
  held = omega (arith, v.held);
  word = v.word;
  alone = v.alone;
  fits = v.fits;
}

use_mutex-Inv :
    (a : Mutex.Action) (m : Mutex.Mutex) {l : RwLock}
    → Inv l
    → Mutex.can a l.mutex ≡ true
    → Mutex.is_unlock a ≡ false
    → Mutex.act a l.mutex ≡ some m
    → Inv (record l { mutex = m; claims = l.claims + (m.holders - l.mutex.holders) })
use_mutex-Inv a m {l} v h safe e = record {
  lock = Mutex.act-Inv a l.mutex m v.lock h e;
  held = omega (arith, v.held, Mutex.act_acquires a l.mutex m e safe);
  word = v.word;
  alone = v.alone;
  fits = v.fits;
}

step-Inv : (a : Action) (l l' : RwLock) → Inv l → can a l ≡ true → act a l ≡ some l' → Inv l'
unfolding can act use_mutex
step-Inv (uses_mutex a) l l' v h e = elim (Option-cases (Mutex.act a l.mutex)) [
  | inl none_e ↦ ground (arith, none_e)
  | inr (m, m_e) ↦
      let (h', safe) = and_true h in
      some_kept Inv _ (sym (ap (Option.map _) m_e) ∙ e) (use_mutex-Inv a m v h' safe m_e)
]
step-Inv unlocks l l' v h e = some_kept Inv _ e (unlock-Inv v (ltb→lt _ _ h))
step-Inv tries_read l l' v h e = ground arith
step-Inv a l l' v h e = ground arith

pub Reach-Inv : {l : RwLock} → Reach machine l → Inv l
Reach-Inv = Reach-Keeps machine Inv (record { at_first = new-Inv; at_step = step-Inv })
