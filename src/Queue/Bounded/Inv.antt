-- ===== src/Queue/Bounded/Inv.antt =====
-- cynthia/src/platform/queue/bounded.rs: where each slot stands, in every state that is reached.
use cynthia.Base.{ℕ, ◌+◌, ◌*◌, ◌%◌, ◌^◌, ◌≤◌, ◌<◌, ◌≡◌, ◌⊎◌, none, some, List, length, get_elem?}
use cynthia.Queue.Bounded.{Slot, nobody, writer, reader, Bounded, one_lap}
use cynthia.Queue.Bounded.Position.{encode}

module _ (cap mark : ℕ) where
  -- A slot whose next or present use is for the position `k`, when `t` values have been pushed and `h`
  -- pops have claimed one.
  pub data Stands (t h : ℕ) (accepted : List ℕ) (k : ℕ) (s : Slot) : Type 0 where
    free :
        s.owner ≡ nobody
        → s.stamp ≡ encode cap mark k
        → s.value ≡ none
        → t ≤ k
        → k < h + cap
        → Stands t h accepted k s
    writing :
        (v : ℕ)
        → s.owner ≡ writer v (encode cap mark k)
        → s.stamp ≡ encode cap mark k
        → h ≤ k
        → k < t
        → get_elem? accepted k ≡ some v
        → Stands t h accepted k s
    full :
        (v : ℕ)
        → s.owner ≡ nobody
        → s.stamp ≡ encode cap mark k + 1
        → s.value ≡ some v
        → h ≤ k
        → k < t
        → get_elem? accepted k ≡ some v
        → Stands t h accepted k s
    reading :
        (v : ℕ)
        → s.owner ≡ reader (encode cap mark k)
        → s.stamp ≡ encode cap mark k + 1
        → s.value ≡ some v
        → k < h
        → t ≤ k + cap
        → get_elem? accepted k ≡ some v
        → Stands t h accepted k s

  abbrev pub At : Bounded → ℕ → Type 0
  At x j = (k : ℕ) × (k % cap ≡ j) × Stands (length x.accepted) x.pops x.accepted k (x.buffer j)

  pub record Inv (x : Bounded) : Type 0 where
    pub head : x.head ≡ encode cap mark x.pops
    pub tail :
        (x.tail ≡ encode cap mark (length x.accepted))
        ⊎ (x.tail ≡ encode cap mark (length x.accepted) + mark)
    pub lower : x.pops ≤ length x.accepted
    pub upper : length x.accepted ≤ x.pops + cap
    pub slots : (j : ℕ) → j < cap → At x j

  -- No word has wrapped round yet.
  abbrev pub Small : Bounded → Type 0
  Small x = encode cap mark (length x.accepted) + one_lap cap mark * 2 < 2 ^ 64
