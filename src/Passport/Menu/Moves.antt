-- ===== src/Passport/Menu/Moves.antt =====
-- Moving through the suggestions.
use native.Mathlib.Nat.{add-zero, mod-eq_of_lt}
use base_service.Base.Round.{next-mod}
use base_service.Base.{
  ℕ, zero, suc, ◌+◌, ◌≤◌, ◌<◌, ◌%◌, subst, ◌≡◌, refl, ◌∙◌, ap, sym, ◌⊎◌, inl, inr, Bool, Option,
  none, some, List, [], ◌∷◌, arith, ◌==◌, if◌then◌else◌, length, get_elem?, ==_refl, ==_ne,
  Bool-cases,
}
use base_service.Passport.Menu.{Item, Menu, place, idx_at, down, find}

-- The indices rise along the list, from `n` on.
abbrev pub Rising : ℕ → List Item → Type 0
Rising n [] = Unit
Rising n (x ∷ xs) = (n ≤ x.idx) × Rising (x.idx + 1) xs

-- The current index is that of an entry.
abbrev pub IsShown : Option ℕ → List Item → Type 0
IsShown cur [] = ⊥
IsShown cur (x ∷ xs) = (cur ≡ some x.idx) ⊎ IsShown cur xs

pub idx_at-get_elem? :
    (xs : List Item) (i : ℕ) {x : Item} → get_elem? xs i ≡ some x → idx_at xs i ≡ some x.idx
idx_at-get_elem? [] i e = cc
idx_at-get_elem? (y ∷ xs) zero e = cc
idx_at-get_elem? (y ∷ xs) (suc i) e = idx_at-get_elem? xs i e

-- Below the first index of a rising list nothing is found.
place_below : (k n : ℕ) (xs : List Item) → k < n → Rising n xs → place (some k) xs ≡ length xs
unfolding place
place_below k n [] lt r = refl
place_below k n (x ∷ xs) lt r =
    ground (arith, place_below k (x.idx + 1) xs (omega arith) r.1, ==_ne x.idx k)

-- In a rising list the entry at place `i` is found there.
place-idx_at :
    (n i : ℕ) (xs : List Item) {k : ℕ}
    → Rising n xs
    → idx_at xs i ≡ some k
    → (n ≤ k) × (place (some k) xs ≡ i) × (i < length xs)
unfolding place
place-idx_at n i [] r e = absurd (cc)
place-idx_at n zero (x ∷ xs) r e = ground (arith, ==_refl x.idx)
place-idx_at n (suc i) (x ∷ xs) {k} r e =
    let (le, p, lt) = place-idx_at (x.idx + 1) i xs r.1 e in ground (arith, ==_ne x.idx k)

idx_at-some : (xs : List Item) (i : ℕ) → i < length xs → (k : ℕ) × (idx_at xs i ≡ some k)
idx_at-some [] i h = absurd (omega arith)
idx_at-some (x ∷ xs) zero h = (x.idx, refl)
idx_at-some (x ∷ xs) (suc i) h = idx_at-some xs i (omega arith)

down_items :
    (v : Bool) (xs : List Item) (k n i : ℕ)
    → Rising n xs
    → i < length xs
    → some k ≡ idx_at xs i
    → (down (record { visible = v; items = xs; current = some k })).current
      ≡ idx_at xs (if i + 1 == length xs then 0 else i + 1)
unfolding down
down_items v [] k n i r lt c = absurd (omega arith)
down_items v (x ∷ xs) k n i r lt c =
    let (le, p, lt') = place-idx_at n i (x ∷ xs) r (sym c) in
    rw p (elim (Bool-cases (i + 1 == length (x ∷ xs))) [
      | inl e ↦ rw e (ground arith)
      | inr e ↦ rw e (ground arith)
    ])

pub items-down : (m : Menu) → (down m).items ≡ m.items
unfolding down
items-down m = ground arith

pub visible-down : (m : Menu) → (down m).visible ≡ m.visible
unfolding down
visible-down m = ground arith

-- With entry `i` current, `down` makes the next entry current, or the first after the last.
pub down-idx_at :
    (m : Menu) (n i : ℕ)
    → Rising n m.items
    → i < length m.items
    → m.current ≡ idx_at m.items i
    → (down m).current ≡ idx_at m.items (if i + 1 == length m.items then 0 else i + 1)
down-idx_at m n i r lt c =
    let (k, e) = idx_at-some m.items i lt in
    let by = down_items m.visible m.items k n i r lt (sym e) in
    let next = if i + 1 == length m.items then 0 else i + 1 in
    subst (λ d. (down (record m { current = d })).current ≡ idx_at m.items next) (sym (c ∙ e)) by

pub downs : ℕ → Menu → Menu
downs zero m = m
downs (suc j) m = downs j (down m)

-- Entries with rising indices and entry `i` current: after `j` presses of the down key the entry
-- `j` places on is current, counted round the end, and the entries are the same.
pub downs-idx_at :
    (j : ℕ) (m : Menu) (n i : ℕ)
    → Rising n m.items
    → i < length m.items
    → m.current ≡ idx_at m.items i
    → ((downs j m).current ≡ idx_at m.items ((i + j) % length m.items))
      × ((downs j m).items ≡ m.items)
unfolding downs
downs-idx_at zero m n i r lt c =
    (c ∙ ap (idx_at m.items) (sym (rw add-zero (mod-eq_of_lt lt))), refl)
downs-idx_at (suc j) m n i r lt c =
    let next = if i + 1 == length m.items then 0 else i + 1 in
    let it = items-down m in
    let below : next < length (down m).items = rw it (ground arith) in
    let (at, same) =
      downs-idx_at j (down m) n next (rw it r) below (rw it (down-idx_at m n i r lt c)) in
    (
      at
          ∙ ap (λ xs. idx_at xs ((next + j) % length xs)) it
          ∙ ap (idx_at m.items) (next-mod i j (length m.items) lt),
      same ∙ it,
    )

-- In a list with rising indices `find` gives the entry at the place of its index.
find_below : (k n : ℕ) (xs : List Item) → k < n → Rising n xs → find (some k) xs ≡ none
unfolding find
find_below k n [] lt r = refl
find_below k n (x ∷ xs) lt r =
    ground (arith, find_below k (x.idx + 1) xs (omega arith) r.1, ==_ne x.idx k)

pub find-idx_at :
    (n i : ℕ) (xs : List Item) {x : Item}
    → Rising n xs
    → get_elem? xs i ≡ some x
    → find (some x.idx) xs ≡ some x
unfolding find
find-idx_at n i [] r e = absurd (cc)
find-idx_at n zero (y ∷ xs) r e = ground (arith, ==_refl y.idx)
find-idx_at n (suc i) (y ∷ xs) {x} r e =
    let le = place-idx_at (y.idx + 1) i xs r.1 (idx_at-get_elem? xs i e) in
    ground (arith, ==_ne y.idx x.idx, find-idx_at (y.idx + 1) i xs r.1 e)
