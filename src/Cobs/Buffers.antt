-- ===== src/Cobs/Buffers.antt =====
-- Reads and writes of a buffer that is given in pieces.
use omino.Prelude.{◌≡◌, refl, ap}
use omino.Prelude.{List, [], ◌∷◌, ◌++◌}
use omino.Prelude.{length, get_or}
use omino.Prelude.{set as write}

module _ {ℓ} {A : Type ℓ} where
  pub write-append :
      (xs ys : List A) (y v : A) → write (xs ++ (y ∷ ys)) (length xs) v ≡ xs ++ (v ∷ ys)
  write-append [] ys y v = refl
  write-append (x ∷ xs) ys y v = ap (◌∷◌ x) (write-append xs ys y v)

  pub get_or-append : (xs ys : List A) (y d : A) → get_or (xs ++ (y ∷ ys)) (length xs) d ≡ y
  get_or-append [] ys y d = refl
  get_or-append (x ∷ xs) ys y d = get_or-append xs ys y d
