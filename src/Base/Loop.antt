-- ===== src/Base/Loop.antt =====
-- The ways in which a loop of a thread can go on: it ends, it waits for another thread or is at
-- fault, or the fuel of the model does not suffice.
pub data Loop {ℓ} (A : Type ℓ) : Type ℓ where
  finished : A → Loop A
  waits stuck : Loop A
