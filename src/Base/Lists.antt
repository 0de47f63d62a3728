-- ===== src/Base/Lists.antt =====
-- Arrays and memory blocks as lists with native indices.
use Prim.Native.Nat.{ℕ, zero, suc, ◌+◌, ◌-◌, ◌≤◌, ◌<◌}
use mathlib.Core.Path.{◌≡◌, refl, sym, ap, ap₂, ◌∙◌}
use mathlib.Core.List.{List, [], ◌∷◌, ◌++◌, map, append-nil, append_assoc}
use mathlib.Core.Option.{Option, none, some}
use native.Mathlib.Omega.{arith}
use native.Mathlib.Numerals.{add-one}

module _ {ℓ} {A : Type ℓ} where
  abbrev pub length : List A → ℕ
  length [] = 0
  length (x ∷ xs) = suc (length xs)

  abbrev pub get_elem? : List A → ℕ → Option A
  get_elem? [] i = none
  get_elem? (x ∷ xs) zero = some x
  get_elem? (x ∷ xs) (suc i) = get_elem? xs i

  abbrev pub get_or : List A → ℕ → A → A
  get_or [] i d = d
  get_or (x ∷ xs) zero d = x
  get_or (x ∷ xs) (suc i) d = get_or xs i d

  -- A write out of bounds changes nothing.
  abbrev pub set : List A → ℕ → A → List A
  set [] i v = []
  set (x ∷ xs) zero v = v ∷ xs
  set (x ∷ xs) (suc i) v = x ∷ set xs i v

  abbrev pub take : ℕ → List A → List A
  take zero xs = []
  take (suc n) [] = []
  take (suc n) (x ∷ xs) = x ∷ take n xs

  abbrev pub drop : ℕ → List A → List A
  drop zero xs = xs
  drop (suc n) [] = []
  drop (suc n) (x ∷ xs) = drop n xs

  abbrev pub replicate : ℕ → A → List A
  replicate zero a = []
  replicate (suc n) a = a ∷ replicate n a

  -- `memmove(xs + dst, xs + src, n)`, in elements.
  unfoldable pub memmove : ℕ → ℕ → ℕ → List A → List A
  memmove dst src n xs = take dst xs ++ (take n (drop src xs) ++ drop (dst + n) xs)

  pub length-append : (xs ys : List A) → length (xs ++ ys) ≡ length xs + length ys
  length-append [] ys = omega arith
  length-append (x ∷ xs) ys = omega (arith, length-append xs ys)

  pub length-set : (xs : List A) (i : ℕ) (v : A) → length (set xs i v) ≡ length xs
  length-set [] i v = refl
  length-set (x ∷ xs) zero v = refl
  length-set (x ∷ xs) (suc i) v = ap suc (length-set xs i v)

  pub take-append : (xs ys : List A) → take (length xs) (xs ++ ys) ≡ xs
  take-append [] ys = refl
  take-append (x ∷ xs) ys = ap (◌∷◌ x) (take-append xs ys)

  pub drop-append : (xs ys : List A) → drop (length xs) (xs ++ ys) ≡ ys
  drop-append [] ys = refl
  drop-append (x ∷ xs) ys = drop-append xs ys

  pub set-append :
      (xs : List A) (y : A) (ys : List A) (v : A)
      → set (xs ++ (y ∷ ys)) (length xs) v ≡ xs ++ (v ∷ ys)
  set-append [] y ys v = refl
  set-append (x ∷ xs) y ys v = ap (◌∷◌ x) (set-append xs y ys v)

  pub get_elem?-append :
      (xs : List A) (y : A) (ys : List A) → get_elem? (xs ++ (y ∷ ys)) (length xs) ≡ some y
  get_elem?-append [] y ys = refl
  get_elem?-append (x ∷ xs) y ys = get_elem?-append xs y ys

  pub length-take : (n : ℕ) (xs : List A) → n ≤ length xs → length (take n xs) ≡ n
  length-take zero xs h = refl
  length-take (suc n) [] h = absurd (omega arith)
  length-take (suc n) (x ∷ xs) h = omega (arith, length-take n xs)

  -- A nonempty list has a last element.
  pub last_split :
      (xs : List A) (n : ℕ)
      → length xs ≡ suc n
      → (ys : List A) × (y : A) × (xs ≡ ys ++ (y ∷ [])) × (length ys ≡ n)
  last_split [] n h = absurd (omega arith)
  last_split (x ∷ []) n h = ([], x, refl, omega arith)
  last_split (x ∷ (x' ∷ xs)) n h =
      let (ys, y, e, l) = last_split (x' ∷ xs) (n - 1) (omega arith) in
      (x ∷ ys, y, ap (◌∷◌ x) e, omega arith)

  pub length-replicate : (n : ℕ) (a : A) → length (replicate n a) ≡ n
  length-replicate zero a = refl
  length-replicate (suc n) a = ap suc (length-replicate n a)

abbrev pub All {ℓ κ} : {A : Type ℓ} → (A → Type κ) → List A → Type κ
All P [] = Unit
All P (x ∷ xs) = P x × All P xs

module _ {ℓ κ} {A : Type ℓ} (P : A → Type κ) where
  pub All-append : (xs ys : List A) → All P xs → All P ys → All P (xs ++ ys)
  All-append [] ys h k = k
  All-append (x ∷ xs) ys h k = (h.0, All-append xs ys h.1 k)

  pub All-left : (xs ys : List A) → All P (xs ++ ys) → All P xs
  All-left [] ys h = tt
  All-left (x ∷ xs) ys h = (h.0, All-left xs ys h.1)

  pub All-right : (xs ys : List A) → All P (xs ++ ys) → All P ys
  All-right [] ys h = h
  All-right (x ∷ xs) ys h = All-right xs ys h.1

  pub All-pull : (xs : List A) (y : A) (ys : List A) → All P (xs ++ (y ∷ ys)) → All P (xs ++ ys)
  All-pull [] y ys h = h.1
  All-pull (x ∷ xs) y ys h = (h.0, All-pull xs y ys h.1)

  pub All-replicate : (n : ℕ) (a : A) → P a → All P (replicate n a)
  All-replicate zero a h = tt
  All-replicate (suc n) a h = (h, All-replicate n a h)

module _ {ℓ} {A : Type ℓ} where
  -- A change of one element in place.
  abbrev pub modify : ℕ → (A → A) → List A → List A
  modify n f [] = []
  modify zero f (x ∷ xs) = f x ∷ xs
  modify (suc n) f (x ∷ xs) = x ∷ modify n f xs

  pub modify-append :
      (f : A → A) (xs : List A) (y : A) (ys : List A)
      → modify (length xs) f (xs ++ (y ∷ ys)) ≡ xs ++ (f y ∷ ys)
  modify-append f [] y ys = refl
  modify-append f (x ∷ xs) y ys = ap (◌∷◌ x) (modify-append f xs y ys)

  take_past :
      (xs : List A) (y : A) (ys : List A) → take (length xs + 1) (xs ++ (y ∷ ys)) ≡ xs ++ (y ∷ [])
  take_past [] y ys = refl
  take_past (x ∷ xs) y ys = rw add-one (ap (◌∷◌ x) (rw add-one at (take_past xs y ys)))

  drop_all : (n : ℕ) (xs : List A) → length xs ≤ n → drop n xs ≡ []
  drop_all zero [] h = refl
  drop_all (suc n) [] h = refl
  drop_all zero (x ∷ xs) h = absurd (omega arith)
  drop_all (suc n) (x ∷ xs) h = drop_all n xs (omega arith)

  -- `memmove` by one place to the right overwrites the last element and doubles one.
  pub memmove_right :
      (xs : List A) (y : A) (ys : List A) (z : A)
      → memmove (length xs + 1) (length xs) (length ys + 1) (xs ++ (y ∷ (ys ++ (z ∷ []))))
        ≡ xs ++ (y ∷ (y ∷ ys))
  unfolding memmove
  memmove_right xs y ys z =
      rw
        (
          take_past xs y (ys ++ (z ∷ [])),
          drop-append xs (y ∷ (ys ++ (z ∷ []))),
          drop_all (length xs + 1 + (length ys + 1)) (xs ++ (y ∷ (ys ++ (z ∷ []))))
              (omega (arith, length-append xs (y ∷ (ys ++ (z ∷ []))), length-append ys (z ∷ []))),
          append-nil,
          add-one,
          take-append ys (z ∷ []),
        )
        (append_assoc xs (y ∷ []) (y ∷ ys))

  -- `memmove` by one place to the left overwrites the first element and doubles one.
  pub memmove_left :
      (p : A) (ps qs : List A) (q : A) (rest : List A)
      → p ∷ ps ≡ qs ++ (q ∷ [])
      → memmove 0 1 (length ps) (p ∷ (ps ++ rest)) ≡ ps ++ (q ∷ rest)
  unfolding memmove
  memmove_left p ps qs q rest e =
      let same : length qs ≡ length ps = omega (arith, ap length e, length-append qs (q ∷ [])) in
      let whole : p ∷ (ps ++ rest) ≡ qs ++ (q ∷ rest) =
        ap (λ l. l ++ rest) e ∙ append_assoc qs (q ∷ []) rest in
      ap₂ ◌++◌ (take-append ps rest)
        (ap₂ drop (sym (omega arith)) whole ∙ drop-append qs (q ∷ rest))

module _ {ℓ κ} {A : Type ℓ} (P : A → Type κ) where
  pub get_elem?-All :
      (xs : List A) (i : ℕ) → i < length xs → All P xs → (x : A) × (get_elem? xs i ≡ some x) × P x
  get_elem?-All [] i h a = absurd (omega arith)
  get_elem?-All (x ∷ xs) zero h a = (x, refl, a.0)
  get_elem?-All (x ∷ xs) (suc i) h a = get_elem?-All xs i (omega arith) a.1

module _ {ℓ} {A : Type ℓ} where
  pub get_elem?-append_right :
      (xs ys : List A) (i : ℕ)
      → length xs ≤ i
      → get_elem? (xs ++ ys) i ≡ get_elem? ys (i - length xs)
  get_elem?-append_right [] ys i h = ap (get_elem? ys) (omega arith)
  get_elem?-append_right (x ∷ xs) ys zero h = absurd (omega arith)
  get_elem?-append_right (x ∷ xs) ys (suc i) h =
      get_elem?-append_right xs ys i (omega arith) ∙ ap (get_elem? ys) (omega arith)

pub length-map {ℓ κ} :
    {A : Type ℓ} {B : Type κ} (f : A → B) (xs : List A) → length (map f xs) ≡ length xs
length-map f [] = refl
length-map f (x ∷ xs) = ap suc (length-map f xs)
