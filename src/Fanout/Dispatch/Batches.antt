-- ===== src/Fanout/Dispatch/Batches.antt =====
-- The batches of a wave.
use mt_shards_back_test.Base.{
  ℕ, zero, suc, ◌≤◌, ◌<◌, ◌≡◌, refl, ap, ◌∙◌, Text, length, All, List, [], ◌∷◌, ◌++◌, arith,
}
use mt_shards_back_test.Fanout.Dispatch.{take, drop, slices, batches}

abbrev pub concat : {A : Type 0} → List (List A) → List A
concat [] = []
concat (xs ∷ xss) = xs ++ concat xss

take-drop : {A : Type 0} (n : ℕ) (xs : List A) → take n xs ++ drop n xs ≡ xs
take-drop zero xs = refl
take-drop (suc n) [] = refl
take-drop (suc n) (x ∷ xs) = ap (λ ys. x ∷ ys) (take-drop n xs)

length-take : {A : Type 0} (n : ℕ) (xs : List A) → length (take n xs) ≤ n
length-take zero xs = omega arith
length-take (suc n) [] = omega arith
length-take (suc n) (x ∷ xs) = omega (arith, length-take n xs)

length-drop : {A : Type 0} (n : ℕ) (xs : List A) → length (drop n xs) ≤ length xs
length-drop zero xs = omega arith
length-drop (suc n) [] = omega arith
length-drop (suc n) (x ∷ xs) = omega (arith, length-drop n xs)

-- A batch that is sent: neither empty nor over the size.
abbrev pub Sized : ℕ → List Text → Type 0
Sized n b = (0 < length b) × (length b ≤ n)

slices_lem :
    (fuel size : ℕ) (xs : List Text)
    → 0 < size
    → length xs ≤ fuel
    → (concat (slices fuel size xs) ≡ xs) × All (Sized size) (slices fuel size xs)
unfolding slices
slices_lem fuel size [] h k = (refl, tt)
slices_lem zero size (x ∷ xs) h k = absurd (omega arith)
slices_lem (suc fuel) zero (x ∷ xs) h k = absurd (omega arith)
slices_lem (suc fuel) (suc n) (x ∷ xs) h k =
    let (whole, sized) = slices_lem fuel (suc n) (drop n xs) h (omega (arith, length-drop n xs)) in
    (
      ap (λ ys. (x ∷ take n xs) ++ ys) whole ∙ ap (λ ys. x ∷ ys) (take-drop n xs),
      ((omega arith, omega (arith, length-take n xs)), sized),
    )

-- With a batch size other than 0 the batches are the list, in order and without a gap or a repeat,
-- and each has at least one schema and at most the batch size.
pub batches_lem :
    (size : ℕ) (xs : List Text)
    → 0 < size
    → (concat (batches size xs) ≡ xs) × All (Sized size) (batches size xs)
unfolding batches
batches_lem size xs h = slices_lem (length xs) size xs h (omega arith)
