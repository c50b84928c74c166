-- ===== src/Passport/Suggest/Outcomes.antt =====
-- The loop's body from a clean state, and the whole loop.
use base_service.Base.{
  ℕ, zero, suc, ◌+◌, ◌≡◌, refl, ◌⊎◌, inl, inr, true, false, ◌&&◌, not, none, some, [], arith,
  if◌then◌else◌, take, drop, Bool-cases, Option-cases,
}
use base_service.Text.{Text, ◌==ₜ◌, eq_of_==, is_empty, last_index_of}
use base_service.Passport.Suggest.{
  Settings, Typed, Scan, consider, consider_whole, outside_autopad, last_at_start,
}
use base_service.Passport.Suggest.Entries.{
  at, split_at_last, IsClean, present-cases, Outcome, skipped, whole_added, consider_domain-Outcome,
}

-- The domain that a whole address leaves has no `@` behind its start.
whole_domain_plain :
    (y : Text) (p : ℕ) (t : Typed) (s : Scan)
    → IsClean s
    → last_index_of y at ≡ some p
    → last_index_of (if take p y ==ₜ t.name then drop (p + 1) y else s.domain) at ≡ none
whole_domain_plain y p t s c e = elim (Bool-cases (take p y ==ₜ t.name)) [
  | inl own ↦ rw own (split_at_last y p e).2
  | inr other ↦ rw other c.plain_domain
]

consider_whole-Outcome :
    (o : Settings) (t : Typed) (j : ℕ) (y : Text) (p : ℕ) (s : Scan)
    → IsClean s
    → last_index_of y at ≡ some (suc p)
    → IsClean (consider_whole o t j y (suc p) s)
      × Outcome o t j y s (consider_whole o t j y (suc p) s)
unfolding consider_whole
consider_whole-Outcome o t j y p s c e =
    elim (Bool-cases (outside_autopad o (drop (suc p + 1) y))) [
      | inl out ↦ rw out (c, skipped refl)
      | inr inside ↦ rw inside (elim (Bool-cases (last_at_start (take (suc p) y) t.name)) [
        | inr other ↦ rw other (c, skipped refl)
        | inl starts ↦ rw starts (elim (present-cases o t j y s') [
          | inl (same, r) ↦
              let eq = eq_of_== y s'.domain same in
              absurd (cc (whole_domain_plain y (suc p) t s c e))
          | inr (ne, r) ↦ rw r (
            record { not_whole = refl; plain_domain = whole_domain_plain y (suc p) t s c e },
            whole_added p e starts inside refl,
          )
        ])
      ])
    ]
  where
    s' : Scan
    s' = record s {
      whole = true;
      domain = if take (suc p) y ==ₜ t.name then drop (suc p + 1) y else s.domain;
    }

host-cases :
    (t : Typed) (y : Text)
    → (not (is_empty t.host) && not (last_at_start y t.host)) ≡ false
    → (t.host ≡ []) ⊎ (last_at_start y t.host ≡ true)
host-cases t y e = ground arith

-- From a clean state the loop's body leaves a clean state, with one of the outcomes.
pub consider-Outcome :
    (o : Settings) (t : Typed) (j : ℕ) (y : Text) (s : Scan)
    → IsClean s
    → IsClean (consider o t j y s) × Outcome o t j y s (consider o t j y s)
unfolding consider
consider-Outcome o t j y s c =
    elim (Bool-cases (not (is_empty t.host) && not (last_at_start y t.host))) [
      | inl e ↦ rw e (c, skipped refl)
      | inr e ↦ rw e (elim (Option-cases (last_index_of y at)) [
        | inl plain ↦ rw plain (consider_domain-Outcome o t j y s c (λ p h. cc) (host-cases t y e))
        | inr (zero, h) ↦ rw h (consider_domain-Outcome o t j y s c (λ p h'. cc) (host-cases t y e))
        | inr (suc p, h) ↦ rw h (consider_whole-Outcome o t j y p s c h)
      ])
    ]
