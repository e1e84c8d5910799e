-- ===== src/Prelude/Lists.antt =====
-- Lists measured and indexed by native numbers, with the array methods that the program calls.
use Prim.Native.Nat.{ℕ, zero, suc, ◌+◌, ◌-◌, ◌≤◌, ◌<◌}
use mathlib.Core.Path.{◌≡◌, refl, ap, ◌∙◌}
use mathlib.Core.Bool.{Bool, true, false, ◌&&◌, ◌||◌}
use mathlib.Core.Option.{Option, none, some}
use mathlib.Core.List.{List, [], ◌∷◌, ◌++◌}
use native.Mathlib.Omega.{arith}
use tachiko_conductor.Prelude.Tests.{Eq, if◌then◌else◌, some_injective}

module _ {ℓ} {A : Type ℓ} where
  abbrev pub length : List A → ℕ
  length [] = 0
  length (x ∷ xs) = suc (length xs)

  abbrev pub get_elem? : List A → ℕ → Option A
  get_elem? [] i = none
  get_elem? (x ∷ xs) zero = some x
  get_elem? (x ∷ xs) (suc i) = get_elem? xs i

  abbrev pub drop : ℕ → List A → List A
  drop zero xs = xs
  drop (suc n) [] = []
  drop (suc n) (x ∷ xs) = drop n xs

  -- `array.at(-1)`
  abbrev pub get_last? : List A → Option A
  get_last? [] = none
  get_last? (x ∷ []) = some x
  get_last? (x ∷ y ∷ ys) = get_last? (y ∷ ys)

  -- `array.some`
  abbrev pub any : (A → Bool) → List A → Bool
  any p [] = false
  any p (x ∷ xs) = p x || any p xs

  -- `array.every`
  abbrev pub all : (A → Bool) → List A → Bool
  all p [] = true
  all p (x ∷ xs) = p x && all p xs

  -- `array.filter`
  abbrev pub filter_by : (A → Bool) → List A → List A
  filter_by p [] = []
  filter_by p (x ∷ xs) = let rest = filter_by p xs in if p x then x ∷ rest else rest

  -- `array.slice(-n)`: the last `n` elements.
  abbrev pub take_last : ℕ → List A → List A
  take_last n xs = drop (length xs - n) xs

  pub length-append : (xs ys : List A) → length (xs ++ ys) ≡ length xs + length ys
  length-append [] ys = omega arith
  length-append (x ∷ xs) ys = omega (arith, length-append xs ys)

  pub length-drop : (n : ℕ) (xs : List A) → length (drop n xs) ≡ length xs - n
  length-drop zero xs = omega arith
  length-drop (suc n) [] = omega arith
  length-drop (suc n) (x ∷ xs) = omega (arith, length-drop n xs)

  pub length-take_last-le : (n : ℕ) (xs : List A) → length (take_last n xs) ≤ n
  length-take_last-le n xs = omega (arith, length-drop (length xs - n) xs)

  pub take_last_all : (n : ℕ) (xs : List A) → length xs ≤ n → take_last n xs ≡ xs
  take_last_all n xs h = let e : length xs - n ≡ 0 = omega arith in ap (λ k. drop k xs) e

  pub get_last?-snoc : (xs : List A) (x : A) → get_last? (xs ++ x ∷ []) ≡ some x
  get_last?-snoc [] x = refl
  get_last?-snoc (y ∷ []) x = refl
  get_last?-snoc (y ∷ z ∷ zs) x = get_last?-snoc (z ∷ zs) x

  get_last?-drop : (n : ℕ) (xs : List A) → n < length xs → get_last? (drop n xs) ≡ get_last? xs
  get_last?-drop zero xs h = refl
  get_last?-drop (suc n) [] h = refl
  get_last?-drop (suc n) (x ∷ []) h = absurd (omega (arith, h))
  get_last?-drop (suc n) (x ∷ y ∷ ys) h = get_last?-drop n (y ∷ ys) (omega (arith, h))

  -- The last entries of a list end as the list does.
  pub get_last?-take_last : (n : ℕ) (xs : List A) → get_last? (take_last (suc n) xs) ≡ get_last? xs
  get_last?-take_last n [] = ap get_last? (take_last_all (suc n) [] (omega arith))
  get_last?-take_last n (x ∷ xs) = get_last?-drop (length (x ∷ xs) - suc n) (x ∷ xs) (omega arith)

  -- The last entry is found among the entries that pass a test, where it passes it.
  pub any-filter_by-last :
      (p q : A → Bool) (xs : List A) (x : A)
      → get_last? xs ≡ some x
      → p x ≡ true
      → q x ≡ true
      → any q (filter_by p xs) ≡ true
  any-filter_by-last p q [] x h p_x q_x = cc
  any-filter_by-last p q (y ∷ []) x h p_x q_x =
      let same : y ≡ x = some_injective h in
      let kept : p y ≡ true = ap p same ∙ p_x in
      let found : q y ≡ true = ap q same ∙ q_x in rw (kept, found) refl
  any-filter_by-last p q (y ∷ z ∷ zs) x h p_x q_x =
      ground (arith, any-filter_by-last p q (z ∷ zs) x h p_x q_x)

-- `array.includes`
abbrev pub includes {ℓ} : {A : Type ℓ} ⦃e : Eq A⦄ → A → List A → Bool
includes ⦃e⦄ a xs = any (λ x. e.beq x a) xs
