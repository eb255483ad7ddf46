-- ===== src/Channel.antt =====
-- A buffered Go channel: values leave in the order in which they came, and a send waits while the
-- buffer is full. `received` records the values that have left, oldest first.
use mathlib.Core.List.{append_assoc}
use trade_pulse.Prelude.{
  ℕ, ◌≤◌, ◌<◌, ◌≡◌, ◌++◌, List, [], ◌∷◌, Option, none, some, arith, ltb, length, length-append,
  if◌then◌else◌,
}

pub record Chan {ℓ} (A : Type ℓ) : Type ℓ where
  pub cap : ℕ
  pub buffered : List A
  pub received : List A

module _ {ℓ} {A : Type ℓ} where
  -- make(chan A, cap)
  unfoldable pub make : ℕ → Chan A
  make size = record { cap = size; buffered = []; received = [] }

  -- `none` where the send would wait.
  unfoldable pub send : A → Chan A → Option (Chan A)
  send a c =
      if ltb (length c.buffered) c.cap
      then some (record c { buffered = c.buffered ++ a ∷ [] })
      else none

  take_front : List A → Chan A → Option (A × Chan A)
  take_front [] c = none
  take_front (a ∷ rest) c = some (a, record c { buffered = rest; received = c.received ++ a ∷ [] })

  -- `none` where the receive would wait.
  unfoldable pub receive : Chan A → Option (A × Chan A)
  unfolding take_front
  receive c = take_front c.buffered c

  -- All that was ever sent, oldest first.
  unfoldable pub sent : Chan A → List A
  sent c = c.received ++ c.buffered

  -- A send goes through exactly when there is room, and adds one value at the end.
  pub send-some :
      (a : A) (c d : Chan A)
      → send a c ≡ some d
      → (sent d ≡ sent c ++ a ∷ []) × (d.cap ≡ c.cap) × (length c.buffered < c.cap)
  unfolding send sent
  send-some a c d h = ground (arith, append_assoc c.received c.buffered (a ∷ []))

  pub send_with_room :
      (a : A) (c : Chan A)
      → length c.buffered < c.cap
      → send a c ≡ some (record c { buffered = c.buffered ++ a ∷ [] })
  unfolding send
  send_with_room a c h = ground arith

  receive-from :
      (xs : List A) (c d : Chan A) (a : A)
      → take_front xs c ≡ some (a, d)
      → (c.received ++ xs ≡ d.received ++ d.buffered)
        × (d.cap ≡ c.cap)
        × (d.received ≡ c.received ++ a ∷ [])
        × (xs ≡ a ∷ d.buffered)
  unfolding take_front
  receive-from [] c d a h = cc
  receive-from (x ∷ xs) c d a h = ground (arith, append_assoc c.received (x ∷ []) xs)

  -- A receive changes nothing of what was sent, and takes the oldest value in the buffer.
  pub receive-some :
      (c d : Chan A) (a : A)
      → receive c ≡ some (a, d)
      → (sent c ≡ sent d)
        × (d.cap ≡ c.cap)
        × (d.received ≡ c.received ++ a ∷ [])
        × (c.buffered ≡ a ∷ d.buffered)
  unfolding receive sent
  receive-some c d a h = receive-from c.buffered c d a h

  -- The buffer stays within the capacity.
  abbrev pub Fits : Chan A → Type 0
  Fits c = length c.buffered ≤ c.cap

  pub send-Fits : (a : A) (c d : Chan A) → send a c ≡ some d → Fits d
  unfolding send
  send-Fits a c d h = ground (arith, length-append c.buffered (a ∷ []))

  pub receive-Fits : (c d : Chan A) (a : A) → receive c ≡ some (a, d) → Fits c → Fits d
  receive-Fits c d a h f = ground (arith, receive-some c d a h)
