-- ===== src/Passport/Menu.antt =====
-- The list of suggestions: `downDSindex`, `findDSindex` and the pointer on an entry. The class that
-- `setFocus` and `clearFocus` give an entry is styling, and left out.
pub mod Moves
use base_service.Base.{
  ℕ, zero, suc, ◌+◌, ◌-◌, Bool, true, false, ◌||◌, Option, none, some, List, [], ◌∷◌, ◌==◌, leb,
  if◌then◌else◌, length, get_elem?,
}
use base_service.Text.{Text}

-- An `li` with its `a`: the text of the link and the field `idx`.
pub record Item : Type 0 where
  pub label : Text
  pub idx : ℕ

-- `dsElement.style.display`, the entries of `dsAnchor`, and `curDSindex`, where `none` is -1.
pub record Menu : Type 0 where
  pub visible : Bool
  pub items : List Item
  pub current : Option ℕ

abbrev pub is_current : Option ℕ → ℕ → Bool
is_current none i = false
is_current (some k) i = i == k

-- The loop of `downDSindex`: the place of the current entry, or the number of entries.
pub place : Option ℕ → List Item → ℕ
place cur [] = 0
place cur (x ∷ xs) = if is_current cur x.idx then 0 else suc (place cur xs)

abbrev pub idx_at : List Item → ℕ → Option ℕ
idx_at [] i = none
idx_at (x ∷ xs) zero = some x.idx
idx_at (x ∷ xs) (suc i) = idx_at xs i

pub down : Menu → Menu
unfolding place
down m = elim m.items [
  | [] ↦ m
  | x ∷ xs ↦
      let c = place m.current (x ∷ xs) in
      if leb (length (x ∷ xs) - 1) c
      then record m { current = idx_at (x ∷ xs) 0 }
      else record m { current = idx_at (x ∷ xs) (c + 1) }
]

pub find : Option ℕ → List Item → Option Item
find g [] = none
find g (x ∷ xs) = if is_current g x.idx then some x else find g xs

-- `onmouseover` of an entry.
unfoldable pub hover : Item → Menu → Menu
hover x m = record m { current = some x.idx }
