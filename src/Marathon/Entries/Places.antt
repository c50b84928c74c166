-- ===== src/Marathon/Entries/Places.antt =====
-- Lists of views and of their numbers.
use base_service.Base.{
  ℕ, zero, suc, ◌≡◌, ◌≢◌, ◌⊎◌, refl, ap, inl, inr, ◌||◌, some, List, [], ◌∷◌, ◌++◌, arith, All,
  length, get_elem?, Bool-cases, ◌==◌, ==_refl,
}
use base_service.Browser.{contains, remove}
use base_service.Marathon.App.{AppView}
use base_service.Marathon.Entries.{modify}

pub All-imp : {P Q : ℕ → Type 0} (xs : List ℕ) → ((k : ℕ) → P k → Q k) → All P xs → All Q xs
All-imp [] f h = tt
All-imp (x ∷ xs) f h = (f x h.0, All-imp xs f h.1)

-- Elsewhere than at the removed number.
pub All-remove :
    {P Q : ℕ → Type 0} (i : ℕ) (xs : List ℕ)
    → ((k : ℕ) → k ≢ i → P k → Q k)
    → All P xs
    → All Q (remove i xs)
All-remove i [] f h = tt
All-remove i (x ∷ xs) f h = elim (Bool-cases (x == i)) [
  | inl e ↦ rw e (All-remove i xs f h.1)
  | inr e ↦
      rw e (f x (λ q. absurd (cc (e, ap (λ k. k == i) q, ==_refl i))) h.0, All-remove i xs f h.1)
]

pub get_elem?-append_left :
    (vs ws : List AppView) (k : ℕ) {v : AppView}
    → get_elem? vs k ≡ some v
    → get_elem? (vs ++ ws) k ≡ some v
get_elem?-append_left [] ws k e = absurd (cc)
get_elem?-append_left (x ∷ vs) ws zero e = e
get_elem?-append_left (x ∷ vs) ws (suc k) e = get_elem?-append_left vs ws k e

pub get_elem?-append_last :
    (vs : List AppView) (v : AppView) → get_elem? (vs ++ v ∷ []) (length vs) ≡ some v
get_elem?-append_last [] v = refl
get_elem?-append_last (x ∷ vs) v = get_elem?-append_last vs v

pub get_elem?-modify :
    (i : ℕ) (f : AppView → AppView) (vs : List AppView) {v : AppView}
    → get_elem? vs i ≡ some v
    → get_elem? (modify i f vs) i ≡ some (f v)
get_elem?-modify i f [] e = absurd (cc)
get_elem?-modify zero f (x ∷ vs) e = cc
get_elem?-modify (suc i) f (x ∷ vs) e = get_elem?-modify i f vs e

pub get_elem?-modify_ne :
    (i k : ℕ) (f : AppView → AppView) (vs : List AppView)
    → k ≢ i
    → get_elem? (modify i f vs) k ≡ get_elem? vs k
get_elem?-modify_ne i k f [] n = refl
get_elem?-modify_ne zero zero f (x ∷ vs) n = absurd (n refl)
get_elem?-modify_ne zero (suc k) f (x ∷ vs) n = refl
get_elem?-modify_ne (suc i) zero f (x ∷ vs) n = refl
get_elem?-modify_ne (suc i) (suc k) f (x ∷ vs) n = get_elem?-modify_ne i k f vs (λ e. n (ap suc e))

pub get_elem?-append_cases :
    (vs : List AppView) (w : AppView) (k : ℕ) {v : AppView}
    → get_elem? (vs ++ w ∷ []) k ≡ some v
    → (get_elem? vs k ≡ some v) ⊎ (k ≡ length vs)
get_elem?-append_cases [] w zero e = inr refl
get_elem?-append_cases [] w (suc k) e = absurd (cc)
get_elem?-append_cases (x ∷ vs) w zero e = inl e
get_elem?-append_cases (x ∷ vs) w (suc k) e = elim (get_elem?-append_cases vs w k e) [
  | inl q ↦ inl q
  | inr q ↦ inr (ap suc q)
]

pub get_elem?-modify-some :
    (i : ℕ) (f : AppView → AppView) (vs : List AppView) {v : AppView}
    → get_elem? (modify i f vs) i ≡ some v
    → (u : AppView) × (get_elem? vs i ≡ some u) × (some (f u) ≡ some v)
get_elem?-modify-some i f [] e = absurd (cc)
get_elem?-modify-some zero f (x ∷ vs) e = (x, refl, e)
get_elem?-modify-some (suc i) f (x ∷ vs) e = get_elem?-modify-some i f vs e

pub contains-concat :
    (xs : List ℕ) (n k : ℕ) → contains (xs ++ n ∷ []) k ≡ (contains xs k || n == k)
contains-concat [] n k = ground arith
contains-concat (x ∷ xs) n k = ground (arith, contains-concat xs n k)
