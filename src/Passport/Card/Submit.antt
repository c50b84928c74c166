-- ===== src/Passport/Card/Submit.antt =====
-- What a submission and its failure call.
use base_service.Base.{
  ℕ, ◌+◌, ◌≡◌, ◌∙◌, ap, Bool, true, false, ◌&&◌, not, List, [], ◌∷◌, ◌++◌, arith, if◌then◌else◌,
}
use base_service.Text.{Text, is_empty}
use base_service.Passport.Card.{
  Call, report, wait, request, navigate, Card, placeholder, submit, begin_login, do_login,
  refuses_host,
}

abbrev pub some_request : Call → Bool
some_request (request _ _ _) = true
some_request _ = false

abbrev pub requests : List Call → ℕ
requests [] = 0
requests (k ∷ ks) = (if some_request k then 1 else 0) + requests ks

abbrev pub some_message : Call → Bool
some_message (report _ _) = true
some_message (navigate _) = true
some_message _ = false

abbrev pub messages : List Call → ℕ
messages [] = 0
messages (k ∷ ks) = (if some_message k then 1 else 0) + messages ks

pub requests-concat :
    (ks : List Call) (k : Call) → requests (ks ++ k ∷ []) ≡ requests ks + requests (k ∷ [])
requests-concat [] k = omega arith
requests-concat (j ∷ ks) k = omega (arith, requests-concat ks k)

pub messages-concat :
    (ks : List Call) (k : Call) → messages (ks ++ k ∷ []) ≡ messages ks + messages (k ∷ [])
messages-concat [] k = omega arith
messages-concat (j ∷ ks) k = omega (arith, messages-concat ks k)

pub ruleset count_laws = (requests-concat, messages-concat)

-- The tests of `doLogin` on the stripped address and password, as one condition each.
abbrev pub accepted : Text → Text → Card → Bool
accepted h g c = not (is_empty h) && not (refuses_host c.autopad h) && not (is_empty g)

pub submit_sends :
    (h g : Text) (c : Card)
    → is_empty h ≡ false
    → refuses_host c.autopad h ≡ false
    → is_empty g ≡ false
    → c.use_post ≡ false
    → (submit h g c).calls ≡ (c.calls ++ wait ∷ []) ++ request h g c.remember ∷ []
unfolding submit
submit_sends h g c p q r s = rw (p, q, r, s)

pub running :
    (strip : Text → Text) (delegated : Bool) (c : Card)
    → c.e_interval ≡ false
    → do_login strip delegated c
      ≡ submit
          (strip c.email_value)
          (strip c.passwd_value)
          (begin_login delegated (strip c.email_value) c)
unfolding do_login
running strip delegated c e = simp e

-- The address field that was never filled still holds the placeholder, and that text is sent as the
-- account: with no `autopad`, no post and no login running, any password goes out with it.
pub do_login-placeholder :
    (strip : Text → Text) (c : Card)
    → c.email_value ≡ placeholder
    → strip placeholder ≡ placeholder
    → is_empty (strip c.passwd_value) ≡ false
    → c.autopad ≡ []
    → c.use_post ≡ false
    → c.e_interval ≡ false
    → (do_login strip false c).calls
      ≡ (c.calls ++ wait ∷ []) ++ request placeholder (strip c.passwd_value) c.remember ∷ []
do_login-placeholder strip c v s p a u e =
    let h : strip c.email_value ≡ placeholder = ap strip v ∙ s in
    let d = begin_login false (strip c.email_value) c in
    let sent =
      submit_sends (strip c.email_value) (strip c.passwd_value) d (ap is_empty h)
        (unfold begin_login refuses_host in rw a) p (unfold begin_login in u) in
    ap Card.calls (running strip false c e)
    ∙ sent
    ∙ unfold begin_login in
      ap (λ n. (c.calls ++ wait ∷ []) ++ request n (strip c.passwd_value) c.remember ∷ []) h
