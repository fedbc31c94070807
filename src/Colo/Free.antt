-- ===== src/Colo/Free.antt =====
-- The vacant slots of a slab, and the list that runs through them.
use cynthia.Base.{
  ℕ, zero, suc, ◌+◌, ◌<◌, ◌≡◌, ◌≢◌, refl, ap, Bool, true, false, Option, none, some, List, [], ◌∷◌,
  arith, length, get_elem?, set, tally, get_elem?-set_ne,
}
use cynthia.Colo.{Slot, vacant, occupied, nil}

module _ {ℓ} {A : Type ℓ} where
  abbrev pub vacant_weight : Slot A → ℕ
  vacant_weight (vacant n) = 1
  vacant_weight (occupied a) = 0

  abbrev pub occupied_weight : Slot A → ℕ
  occupied_weight (vacant n) = 0
  occupied_weight (occupied a) = 1

  abbrev pub is_vacant : Option (Slot A) → Bool
  is_vacant none = false
  is_vacant (some (vacant n)) = true
  is_vacant (some (occupied a)) = false

  abbrev pub next_of : Option (Slot A) → ℕ
  next_of (some (vacant n)) = n
  next_of _ = 0

  -- The list of vacant slots from `h` on has the indices `free`.
  abbrev pub Chain : List (Slot A) → ℕ → List ℕ → Type 0
  Chain slots h [] = h ≡ nil
  Chain slots h (i ∷ free) =
      (h ≡ i)
      × (is_vacant (get_elem? slots i) ≡ true)
      × Chain slots (next_of (get_elem? slots i)) free

  pub tally-length :
      (slots : List (Slot A))
      → tally vacant_weight slots + tally occupied_weight slots ≡ length slots
  tally-length [] = refl
  tally-length (vacant n ∷ slots) = omega (arith, tally-length slots)
  tally-length (occupied a ∷ slots) = omega (arith, tally-length slots)

  pub vacant-lt :
      (slots : List (Slot A)) (i : ℕ) → is_vacant (get_elem? slots i) ≡ true → i < length slots
  vacant-lt [] i h = cc
  vacant-lt (x ∷ slots) zero h = omega arith
  vacant-lt (x ∷ slots) (suc i) h = omega (arith, vacant-lt slots i h)

abbrev pub Absent : ℕ → List ℕ → Type 0
Absent j [] = Unit
Absent j (i ∷ free) = (j ≢ i) × Absent j free

abbrev pub Distinct : List ℕ → Type 0
Distinct [] = Unit
Distinct (i ∷ free) = Absent i free × Distinct free

module _ {ℓ} {A : Type ℓ} where
  -- A slot that is not vacant is not in the list.
  pub Chain-Absent :
      (slots : List (Slot A)) (h j : ℕ) (free : List ℕ)
      → Chain slots h free
      → is_vacant (get_elem? slots j) ≡ false
      → Absent j free
  Chain-Absent slots h j [] ch e = tt
  Chain-Absent slots h j (i ∷ free) ch e = (
    (λ same. cc (ap (λ k. is_vacant (get_elem? slots k)) same)),
    Chain-Absent slots (next_of (get_elem? slots i)) j free ch.2 e,
  )

  -- Writing to a slot that is not in the list leaves it as it is.
  pub Chain-set :
      (slots : List (Slot A)) (h j : ℕ) (s : Slot A) (free : List ℕ)
      → Absent j free
      → Chain slots h free
      → Chain (set slots j s) h free
  Chain-set slots h j s [] ab ch = ch
  Chain-set slots h j s (i ∷ free) ab ch =
      let e = get_elem?-set_ne slots s ab.0 in
      (ch.0, rw e ch.1, rw e (Chain-set slots (next_of (get_elem? slots i)) j s free ab.1 ch.2))
