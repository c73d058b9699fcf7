-- ===== src/Prelude/Table.antt =====
-- A table of a database as a list of rows, and what a primary key gives.
use mathlib.Core.Bool.{Bool, true, false, not}
use mathlib.Core.List.{List, [], ◌∷◌, ◌++◌, map, Memᴰ}
use mathlib.Core.Logic.{inl, inr}
use mathlib.Core.Option.{none, some, some-injective}
use mathlib.Core.Path.{◌≡◌, refl, subst}
use native.Mathlib.Omega.{arith}
use openuu_server.Prelude.Tests.{if◌then◌else◌, eqb, Bool-cases}
use Prim.Native.Nat.{ℕ, zero, suc}
use openuu_server.Prelude.Lists.{any, keep, count, find?, get_elem?, remove_at}

module _ {ℓ} {A : Type ℓ} where
  -- A property of every row.
  abbrev pub All {κ} : (A → Type κ) → List A → Type κ
  All P [] = Unit
  All P (x ∷ xs) = P x × All P xs

  pub All-append {κ} :
      (P : A → Type κ) (xs : List A) (y : A) → All P xs → P y → All P (xs ++ y ∷ [])
  All-append P [] y h k = (k, tt)
  All-append P (x ∷ xs) y h k = (h.0, All-append P xs y h.1 k)

  pub All-remove_at {κ} : (P : A → Type κ) (i : ℕ) (xs : List A) → All P xs → All P (remove_at i xs)
  All-remove_at P zero [] h = h
  All-remove_at P (suc i) [] h = h
  All-remove_at P zero (x ∷ xs) h = h.1
  All-remove_at P (suc i) (x ∷ xs) h = (h.0, All-remove_at P i xs h.1)

  pub All-get_elem? {κ} :
      (P : A → Type κ) (xs : List A) (i : ℕ) {y : A} → All P xs → get_elem? xs i ≡ some y → P y
  All-get_elem? P [] i h e = absurd (cc)
  All-get_elem? P (x ∷ xs) zero {y} h e = subst P (some-injective x y e) h.0
  All-get_elem? P (x ∷ xs) (suc i) h e = All-get_elem? P xs i h.1 e

  pub any-keep : (p q : A → Bool) (xs : List A) → any q xs ≡ false → any q (keep p xs) ≡ false
  unfolding any keep
  any-keep p q [] h = refl
  any-keep p q (x ∷ xs) h = ground (arith, any-keep p q xs)

  -- A row is found after a deletion if it was there and the deletion spares it.
  pub any-keep_spared :
      (p q : A → Bool) (xs : List A)
      → ((x : A) → q x ≡ true → p x ≡ true)
      → any q (keep p xs) ≡ any q xs
  unfolding any keep
  any-keep_spared p q [] h = refl
  any-keep_spared p q (x ∷ xs) h = ground (arith, h x, any-keep_spared p q xs h)

  pub any-keep_deleted :
      (p q : A → Bool) (xs : List A)
      → ((x : A) → p x ≡ true → q x ≡ false)
      → any q (keep p xs) ≡ false
  unfolding any keep
  any-keep_deleted p q [] h = refl
  any-keep_deleted p q (x ∷ xs) h = ground (arith, h x, any-keep_deleted p q xs h)

  pub find?-keep_spared :
      (p q : A → Bool) (xs : List A)
      → ((x : A) → q x ≡ true → p x ≡ true)
      → find? q (keep p xs) ≡ find? q xs
  unfolding find? keep
  find?-keep_spared p q [] h = refl
  find?-keep_spared p q (x ∷ xs) h = ground (arith, h x, find?-keep_spared p q xs h)

  pub find?-eq-some : (q : A → Bool) (xs : List A) (x : A) → find? q xs ≡ some x → q x ≡ true
  unfolding find?
  find?-eq-some q [] x h = cc
  find?-eq-some q (y ∷ xs) x h = ground (arith, find?-eq-some q xs x)

  pub find?-any : (q : A → Bool) (xs : List A) (x : A) → find? q xs ≡ some x → any q xs ≡ true
  unfolding find? any
  find?-any q [] x h = cc
  find?-any q (y ∷ xs) x h = ground (arith, find?-any q xs x)

  pub any_member :
      (q : A → Bool) (xs : List A) → any q xs ≡ true → (x : A) × Memᴰ x xs × (q x ≡ true)
  unfolding any
  any_member q [] h = cc
  any_member q (y ∷ xs) h = elim (Bool-cases (q y)) [
    | inl e ↦ (y, Memᴰ.head refl, e)
    | inr e ↦ let (x, m, f) = any_member q xs (ground arith) in (x, Memᴰ.tail m, f)
  ]

  pub any-find? : (q : A → Bool) (xs : List A) → any q xs ≡ true → (x : A) × (find? q xs ≡ some x)
  unfolding find? any
  any-find? q [] h = cc
  any-find? q (y ∷ xs) h = elim (Bool-cases (q y)) [
    | inl e ↦ (y, rw e)
    | inr e ↦ let (x, f) = any-find? q xs (ground arith) in (x, rw e f)
  ]

  pub find?-none : (q : A → Bool) (xs : List A) → any q xs ≡ false → find? q xs ≡ none
  unfolding find? any
  find?-none q [] h = refl
  find?-none q (y ∷ xs) h = ground (arith, find?-none q xs)

  pub any_mono :
      (p q : A → Bool) (xs : List A)
      → ((x : A) → p x ≡ true → q x ≡ true)
      → any p xs ≡ true
      → any q xs ≡ true
  unfolding any
  any_mono p q [] h e = cc
  any_mono p q (x ∷ xs) h e = ground (arith, h x, any_mono p q xs h)

  pub count-any : (q : A → Bool) (xs : List A) → any q xs ≡ false → count q xs ≡ 0
  unfolding any count
  count-any q [] h = refl
  count-any q (x ∷ xs) h = ground (arith, count-any q xs)

module _ {ℓ κ} {A : Type ℓ} {K : Type κ} (dec : Discrete K) (key : A → K) where
  abbrev pub has_key : K → A → Bool
  has_key k x = eqb dec (key x) k

  -- PRIMARY KEY: no two rows agree on `key`.
  abbrev pub Unique : List A → Type ℓ
  Unique [] = Unit
  Unique (x ∷ xs) = (any (has_key (key x)) xs ≡ false) × Unique xs

  pub keep-Unique : (p : A → Bool) (xs : List A) → Unique xs → Unique (keep p xs)
  unfolding keep
  keep-Unique p [] u = tt
  keep-Unique p (x ∷ xs) u =
      ground (arith, keep-Unique p xs u.1, any-keep p (has_key (key x)) xs u.0)

  any-map :
      (f : A → A) (k : K) (xs : List A)
      → ((x : A) → key (f x) ≡ key x)
      → any (has_key k) (map f xs) ≡ any (has_key k) xs
  unfolding any
  any-map f k [] h = refl
  any-map f k (x ∷ xs) h = ground (arith, h x, any-map f k xs h)

  pub map-Unique :
      (f : A → A) (xs : List A) → ((x : A) → key (f x) ≡ key x) → Unique xs → Unique (map f xs)
  map-Unique f [] h u = tt
  map-Unique f (x ∷ xs) h u = (rw (any-map f (key (f x)) xs h, h x) u.0, map-Unique f xs h u.1)

  -- Under a primary key, rows that share `k` are one row at most.
  pub count-le-one :
      (k : K) (q : A → Bool) (xs : List A)
      → Unique xs
      → ((x : A) → q x ≡ true → key x ≡ k)
      → count q xs ≡ (if any q xs then 1 else 0)
  unfolding any count
  count-le-one k q [] u h = refl
  count-le-one k q (x ∷ xs) u h = elim (Bool-cases (q x)) [
    | inl e ↦ ground (arith, rest e)
    | inr e ↦ ground (arith, count-le-one k q xs u.1 h)
  ]
    where
      spread : q x ≡ true → (ys : List A) → any (has_key (key x)) ys ≡ false → count q ys ≡ 0
      spread e [] n = refl
      spread e (y ∷ ys) n = ground (arith, h y, h x e, spread e ys)

      rest : q x ≡ true → count q xs ≡ 0
      rest e = spread e xs u.0

  -- Deleting a row that exists under `k` leaves no row with that key.
  pub keep-deletes_key :
      (k : K) (q : A → Bool) (xs : List A)
      → Unique xs
      → ((x : A) → q x ≡ true → key x ≡ k)
      → any q xs ≡ true
      → any (has_key k) (keep (λ x. not (q x)) xs) ≡ false
  unfolding any keep
  keep-deletes_key k q [] u h e = refl
  keep-deletes_key k q (x ∷ xs) u h e = elim (Bool-cases (q x)) [
    | inl f ↦ ground (
      arith,
      h x f,
      any-keep (λ y. not (q y)) (has_key k) xs,
      any-keep (λ y. not (q y)) (has_key (key x)) xs u.0,
    )
    | inr f ↦ ground (arith, keep-deletes_key k q xs u.1 h, other f)
  ]
    where
      clash : (ys : List A) → any (has_key (key x)) ys ≡ false → any q ys ≡ true → key x ≡ k → ⊥
      clash [] n a p = cc
      clash (y ∷ ys) n a p = ground (arith, h y, clash ys)

      other : q x ≡ false → eqb dec (key x) k ≡ false
      other f = ground (arith, clash xs u.0)

module _ {ℓ} {A : Type ℓ} where
  pub any-false_mono :
      (p q : A → Bool) (xs : List A)
      → ((x : A) → p x ≡ true → q x ≡ true)
      → any q xs ≡ false
      → any p xs ≡ false
  unfolding any
  any-false_mono p q [] h e = refl
  any-false_mono p q (x ∷ xs) h e = ground (arith, h x, any-false_mono p q xs h)

  pub keep_all : (q : A → Bool) (xs : List A) → any q xs ≡ false → keep (λ x. not (q x)) xs ≡ xs
  unfolding any keep
  keep_all q [] h = refl
  keep_all q (x ∷ xs) h = ground (arith, keep_all q xs)

  pub find?-keep-eq-some :
      (p q : A → Bool) (xs : List A) (x : A) → find? q (keep p xs) ≡ some x → p x ≡ true
  unfolding find? keep
  find?-keep-eq-some p q [] x h = cc
  find?-keep-eq-some p q (y ∷ xs) x h = ground (arith, find?-keep-eq-some p q xs x)

  -- The first match is found after a deletion that spares it, also by a test that differs on
  -- deleted rows only.
  pub find?-keep_same :
      (p q q' : A → Bool) (xs : List A) (x : A)
      → ((y : A) → p y ≡ true → q' y ≡ q y)
      → find? q xs ≡ some x
      → p x ≡ true
      → find? q' (keep p xs) ≡ some x
  unfolding find? keep
  find?-keep_same p q q' [] x same h e = cc
  find?-keep_same p q q' (y ∷ xs) x same h e =
      ground (arith, same y, find?-keep_same p q q' xs x same)

  pub any-map_same :
      (q : A → Bool) (f : A → A) (xs : List A)
      → ((y : A) → q (f y) ≡ q y)
      → any q (map f xs) ≡ any q xs
  unfolding any
  any-map_same q f [] same = refl
  any-map_same q f (y ∷ xs) same = ground (arith, same y, any-map_same q f xs same)
