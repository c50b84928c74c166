-- ===== src/Passport/Suggest/Entries.antt =====
-- Addresses taken apart at their last `@`, and the state that the loop finds at each entry.
use native.Mathlib.Numerals.{add-one}
use base_service.Base.{
  ℕ, zero, suc, ◌+◌, ◌-◌, ◌≤◌, ◌<◌, ◌≡◌, ◌≢◌, refl, ap, ◌∙◌, ◌⊎◌, inl, inr, true, false, none, some,
  [], ◌∷◌, ◌++◌, arith, ◌==◌, length, take, drop, Bool-cases, Option-cases,
}
use base_service.Text.{Text, ◌==ₜ◌, last_index_of}
use base_service.Passport.Suggest.{
  Settings, Typed, Scan, label, split_address, present, consider_domain, outside_autopad,
  last_at_start,
}

abbrev pub at : Text
at = b'@' ∷ []

last_index-zero :
    (c : ℕ) (l : Text)
    → last_index_of (c ∷ l) at ≡ some 0
    → (c ≡ b'@') × (last_index_of l at ≡ none)
unfolding last_index_of
last_index-zero c l e = ground arith

last_index-suc :
    (c h : ℕ) (l : Text) → last_index_of (c ∷ l) at ≡ some (suc h) → last_index_of l at ≡ some h
unfolding last_index_of
last_index-suc c h l e = ground arith

split_at-suc :
    (l : Text) (h : ℕ)
    → last_index_of l at ≡ some h
    → (l ≡ take h l ++ b'@' ∷ drop (suc h) l)
      × (h < length l)
      × (last_index_of (drop (suc h) l) at ≡ none)
split_at-suc [] h e = absurd (unfold last_index_of in cc)
split_at-suc (c ∷ l) zero e =
    let (same, rest) = last_index-zero c l e in (ap (λ d. d ∷ l) same, omega arith, rest)
split_at-suc (c ∷ l) (suc h) e =
    let (same, lt, rest) = split_at-suc l h (last_index-suc c h l e) in
    (ap (c ∷◌) same, omega arith, rest)

-- A text with its last `@` at `h`.
pub split_at_last :
    (l : Text) (h : ℕ)
    → last_index_of l at ≡ some h
    → (l ≡ take h l ++ b'@' ∷ drop (h + 1) l)
      × (h < length l)
      × (last_index_of (drop (h + 1) l) at ≡ none)
split_at_last l h e = rw add-one (split_at-suc l h e)

drop_all : (l : Text) (n : ℕ) → length l ≤ n → drop n l ≡ []
drop_all [] zero h = refl
drop_all [] (suc n) h = refl
drop_all (c ∷ l) zero h = absurd (omega arith)
drop_all (c ∷ l) (suc n) h = drop_all l n (omega arith)

abbrev pub IsParts : Text → Text × Text → Type 0
IsParts l (name, host) = (l ≡ name) × (host ≡ []) ⊎ (l ≡ name ++ b'@' ∷ host)

-- The typed text is its name, or its name with an `@` and the host.
pub split_address-IsParts : (l : Text) → IsParts l (split_address l)
unfolding split_address
split_address-IsParts l = elim (Option-cases (last_index_of l at)) [
  | inl e ↦ rw (e, split_address) (inl (refl, refl))
  | inr (h, e) ↦
      let (same, lt, rest) = split_at_last l h e in
      rw (e, split_address)
        (elim (Bool-cases (h == length l - 1)) [
          | inl last ↦ rw last (
              inr (
                same ∙ ap (λ (r : Text). take h l ++ b'@' ∷ r) (drop_all l (h + 1) (ground arith))))
          | inr more ↦ rw more (inr same)
        ])
]

-- What the loop finds in its variables at each entry.
pub record IsClean (s : Scan) : Type 0 where
  pub not_whole : s.whole ≡ false
  pub plain_domain : last_index_of s.domain at ≡ none

pub present-cases :
    (o : Settings) (t : Typed) (j : ℕ) (y : Text) (s : Scan)
    → ((y ==ₜ s.domain) ≡ true) × (present o t j y s ≡ s)
      ⊎ ((y ==ₜ s.domain) ≡ false)
        × (present o t j y s ≡ record s {
          whole = false;
          items = s.items ++ (record { label = label o t s.whole y; idx = j }) ∷ [];
        })
unfolding present
present-cases o t j y s = elim (Bool-cases (y ==ₜ s.domain)) [
  | inl e ↦ inl (e, rw e)
  | inr e ↦ inr (e, rw e)
]

-- The outcomes of the loop's body for `y` at index `j`, from a clean state: nothing is added, or an
-- entry for a domain, or one for a whole address; the last sets the domain if its name is typed.
pub data Outcome (o : Settings) (t : Typed) (j : ℕ) (y : Text) (s r : Scan) : Type 0 where
  skipped : r.items ≡ s.items → Outcome o t j y s r
  domain_added :
      ((p : ℕ) → last_index_of y at ≢ some (suc p))
      → (t.host ≡ []) ⊎ (last_at_start y t.host ≡ true)
      → outside_autopad o y ≡ false
      → r.items ≡ s.items ++ (record { label = label o t false y; idx = j }) ∷ []
      → Outcome o t j y s r
  whole_added :
      (p : ℕ)
      → last_index_of y at ≡ some (suc p)
      → last_at_start (take (suc p) y) t.name ≡ true
      → outside_autopad o (drop (suc p + 1) y) ≡ false
      → r.items ≡ s.items ++ (record { label = label o t true y; idx = j }) ∷ []
      → Outcome o t j y s r

pub consider_domain-Outcome :
    (o : Settings) (t : Typed) (j : ℕ) (y : Text) (s : Scan)
    → IsClean s
    → ((p : ℕ) → last_index_of y at ≢ some (suc p))
    → (t.host ≡ []) ⊎ (last_at_start y t.host ≡ true)
    → IsClean (consider_domain o t j y s) × Outcome o t j y s (consider_domain o t j y s)
unfolding consider_domain
consider_domain-Outcome o t j y s c d h = elim (Bool-cases (outside_autopad o y)) [
  | inl e ↦ rw e (c, skipped refl)
  | inr e ↦ rw e (elim (present-cases o t j y s) [
    | inl (same, r) ↦ rw r (c, skipped refl)
    | inr (other, r) ↦ rw r (
      record { not_whole = refl; plain_domain = c.plain_domain },
      domain_added d h e (rw c.not_whole),
    )
  ])
]
