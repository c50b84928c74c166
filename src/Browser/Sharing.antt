-- ===== src/Browser/Sharing.antt =====
-- Two parts of a page that share the browser's intervals.
use base_service.Base.{
  ℕ, ◌+◌, ◌≤◌, ◌<◌, ◌≡◌, ◌≢◌, ◌⊎◌, refl, sym, subst, ◌∙◌, ap, inl, inr, Option, none, some, List,
  [], ◌∷◌, map, arith,
}
use base_service.Browser.{Intervals, contains, clear_interval, set_interval}
use base_service.Browser.Contains.{contains-remove}

-- Clearing a handle leaves every other identifier.
pub contains-clear_interval :
    (o : Option ℕ) (w : Intervals) (k : ℕ)
    → o ≢ some k
    → contains (clear_interval o w).live k ≡ contains w.live k
contains-clear_interval none w k n = refl
contains-clear_interval (some i) w k n = contains-remove i k w.live (λ e. n (ap some (sym e)))

pub contains-set_interval :
    (w : Intervals) (k : ℕ) → k < w.next → contains (set_interval w).live k ≡ contains w.live k
contains-set_interval w k h = ground arith

pub next-clear_interval : (o : Option ℕ) (w : Intervals) → (clear_interval o w).next ≡ w.next
next-clear_interval none w = refl
next-clear_interval (some k) w = refl

-- A handle that was just given out.
pub new_handle : (n k : ℕ) → some n ≡ some k → (n ≤ k) × (k < n + 1)
new_handle n k q = ground arith

-- A part of a page with states `S` and events `E`, which keeps a handle. Of the identifiers that
-- were given out before, an event touches the handle alone, and a new handle was given out by it.
pub record User (S E : Type 0) : Type 0 where
  pub step : E → S → S
  pub own : S → Option ℕ
  pub table : S → Intervals
  pub put : Intervals → S → S
  pub table-put : (w : Intervals) (s : S) → table (put w s) ≡ w
  pub own-put : (w : Intervals) (s : S) → own (put w s) ≡ own s
  pub next-step : (e : E) (s : S) → (table s).next ≤ (table (step e s)).next
  pub live-step :
      (e : E) (s : S) (k : ℕ)
      → own s ≢ some k
      → k < (table s).next
      → contains (table (step e s)).live k ≡ contains (table s).live k
  pub own-step :
      (e : E) (s : S) (k : ℕ)
      → own (step e s) ≡ some k
      → (own s ≡ some k) ⊎ ((table s).next ≤ k) × (k < (table (step e s)).next)

-- A turn of the part on the table that the page has.
module _ {S E : Type 0} (u : User S E) (e : E) (w : Intervals) (s : S) where
  abbrev turn : S
  turn = u.step e (u.put w s)

  next-turn : w.next ≤ (u.table turn).next
  next-turn =
      subst (λ x. Intervals.next x ≤ (u.table turn).next) (u.table-put w s)
        (u.next-step e (u.put w s))

  live-turn :
      (k : ℕ) → u.own s ≢ some k → k < w.next → contains (u.table turn).live k ≡ contains w.live k
  live-turn k n h =
      u.live-step e (u.put w s) k (λ q. n (sym (u.own-put w s) ∙ q))
        (subst (λ x. k < Intervals.next x) (sym (u.table-put w s)) h)
      ∙ ap (λ x. contains (Intervals.live x) k) (u.table-put w s)

  own-turn :
      (k : ℕ) → u.own turn ≡ some k → (u.own s ≡ some k) ⊎ (w.next ≤ k) × (k < (u.table turn).next)
  own-turn k q = elim (u.own-step e (u.put w s) k q) [
    | inl old ↦ inl (sym (u.own-put w s) ∙ old)
    | inr new ↦ inr (subst (λ x. Intervals.next x ≤ k) (u.table-put w s) new.0, new.1)
  ]

-- The states of the two parts, and the table that both see.
pub record Page (S T : Type 0) : Type 0 where
  pub left : S
  pub right : T
  pub shared : Intervals

module _ {S T E F : Type 0} (u : User S E) (v : User T F) where
  unfoldable pub act : E ⊎ F → Page S T → Page S T
  act (inl e) p =
      let s = u.step e (u.put p.shared p.left) in record p { left = s; shared = u.table s }
  act (inr f) p =
      let t = v.step f (v.put p.shared p.right) in record p { right = t; shared = v.table t }

  unfoldable pub act_all : List (E ⊎ F) → Page S T → Page S T
  act_all [] p = p
  act_all (e ∷ es) p = act_all es (act e p)

  -- The handles were given out, and are not the same.
  pub record AreApart (p : Page S T) : Type 0 where
    pub left_below : (k : ℕ) → u.own p.left ≡ some k → k < p.shared.next
    pub right_below : (k : ℕ) → v.own p.right ≡ some k → k < p.shared.next
    pub apart : (k : ℕ) → u.own p.left ≡ some k → v.own p.right ≢ some k

  act-AreApart : (e : E ⊎ F) (p : Page S T) → AreApart p → AreApart (act e p)
  unfolding act
  act-AreApart (inl e) p h = record {
    left_below = λ k q. elim (own-turn u e p.shared p.left k q) [
      | inl old ↦ omega (arith, h.left_below k old, next-turn u e p.shared p.left)
      | inr new ↦ new.1
    ];
    right_below = λ k q. omega (arith, h.right_below k q, next-turn u e p.shared p.left);
    apart = λ k q r. elim (own-turn u e p.shared p.left k q) [
      | inl old ↦ h.apart k old r
      | inr new ↦ absurd (omega (arith, new.0, h.right_below k r))
    ];
  }
  act-AreApart (inr f) p h = record {
    left_below = λ k q. omega (arith, h.left_below k q, next-turn v f p.shared p.right);
    right_below = λ k q. elim (own-turn v f p.shared p.right k q) [
      | inl old ↦ omega (arith, h.right_below k old, next-turn v f p.shared p.right)
      | inr new ↦ new.1
    ];
    apart = λ k q r. elim (own-turn v f p.shared p.right k r) [
      | inl old ↦ h.apart k q old
      | inr new ↦ absurd (omega (arith, new.0, h.left_below k q))
    ];
  }

  pub act_all-AreApart : (es : List (E ⊎ F)) (p : Page S T) → AreApart p → AreApart (act_all es p)
  unfolding act_all
  act_all-AreApart [] p h = h
  act_all-AreApart (e ∷ es) p h = act_all-AreApart es (act e p) (act-AreApart e p h)

  -- Events of the left part leave the right part's interval as it is.
  pub live-lefts :
      (es : List E) (p : Page S T) (k : ℕ)
      → AreApart p
      → v.own p.right ≡ some k
      → contains (act_all (map inl es) p).shared.live k ≡ contains p.shared.live k
  unfolding act_all
  live-lefts [] p k h o = refl
  live-lefts (e ∷ es) p k h o =
      live-lefts es (act (inl e) p) k (act-AreApart (inl e) p h) (unfold act in o)
      ∙ (unfold act in live-turn u e p.shared p.left k (λ q. h.apart k q o) (h.right_below k o))

  pub live-rights :
      (fs : List F) (p : Page S T) (k : ℕ)
      → AreApart p
      → u.own p.left ≡ some k
      → contains (act_all (map inr fs) p).shared.live k ≡ contains p.shared.live k
  unfolding act_all
  live-rights [] p k h o = refl
  live-rights (f ∷ fs) p k h o =
      live-rights fs (act (inr f) p) k (act-AreApart (inr f) p h) (unfold act in o)
      ∙ (unfold act in live-turn v f p.shared p.right k (λ q. h.apart k o q) (h.left_below k o))
