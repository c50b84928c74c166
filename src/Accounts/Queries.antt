-- ===== src/Accounts/Queries.antt =====
-- What the account pages send.
use base_service.Base.{
  ◌≡◌, refl, arith, sym, ap, ◌∙◌, Bool, false, ◌||◌, ◌&&◌, not, Option, none, some, List, [], ◌∷◌,
  ◌++◌, ◌==◌, if◌then◌else◌, inl, inr, Bool-cases, All,
}
use mathlib.Core.List.{append_assoc}
use base_service.Text.{Text, codes, is_empty, ◌==ₜ◌, split, join}
use base_service.Text.Split.{split-join}
use base_service.Browser.{contains}
use base_service.Accounts.{
  Effect, requested, Login, Registration, Modification, logon, register, modify,
}

abbrev pub after_question : Text → Text
after_question [] = []
after_question (c ∷ s) = if c == b'?' then s else after_question s

-- The address that is asked for: `ajax` removes what stands behind the first `#`, and the `#`.
abbrev pub before_hash : Text → Text
before_hash [] = []
before_hash (c ∷ s) = if c == b'#' then [] else c ∷ before_hash s

-- The parameters of the first request, if there is one.
abbrev pub sent : List Effect → Option (List Text)
sent [] = none
sent (requested url ∷ _) = some (split b'&' (after_question (before_hash url)))
sent (_ ∷ es) = sent es

-- A value that adds no parameter of its own, and does not end the request.
abbrev pub Single : Text → Type 0
Single t = (contains t b'&' ≡ false) × (contains t b'#' ≡ false)

before_hash-append :
    (s t : Text) → contains s b'#' ≡ false → before_hash (s ++ t) ≡ s ++ before_hash t
before_hash-append [] t h = refl
before_hash-append (c ∷ s) t h = ground (arith, before_hash-append s t)

before_hash_id : (s : Text) → contains s b'#' ≡ false → before_hash s ≡ s
before_hash_id [] h = refl
before_hash_id (c ∷ s) h = ground (arith, before_hash_id s)

before_hash-join :
    (w : Text) (ws : List Text)
    → All Single (w ∷ ws)
    → before_hash (join (codes "&") (w ∷ ws)) ≡ join (codes "&") (w ∷ ws)
before_hash-join w [] s = before_hash_id w s.0.1
before_hash-join w (v ∷ ws) s =
    ap before_hash (append_assoc w (codes "&") (join (codes "&") (v ∷ ws)))
    ∙ before_hash-append w (codes "&" ++ join (codes "&") (v ∷ ws)) s.0.1
    ∙ ap (λ t. w ++ (b'&' ∷ t)) (before_hash-join v ws s.1)
    ∙ sym (append_assoc w (codes "&") (join (codes "&") (v ∷ ws)))

All-no_and : (ws : List Text) → All Single ws → All (λ w. contains w b'&' ≡ false) ws
All-no_and [] s = tt
All-no_and (w ∷ ws) s = (s.0.0, All-no_and ws s.1)

logon_url :
    (u p : Text)
    → codes "login.do?username=" ++ u ++ codes "&passwd=" ++ p
      ≡ codes "login.do?"
        ++ join (codes "&") ((codes "username=" ++ u) ∷ (codes "passwd=" ++ p) ∷ [])
logon_url u p = simp append_assoc

register_url :
    (u p n : Text)
    → codes "user.do?username="
        ++ u
        ++ codes "&passwd="
        ++ p
        ++ codes "&name="
        ++ n
        ++ codes "&action=ADD"
      ≡ codes "user.do?"
        ++ join (codes "&") (
            (codes "username=" ++ u)
            ∷ (codes "passwd=" ++ p)
            ∷ (codes "name=" ++ n)
            ∷ codes "action=ADD"
            ∷ [])
register_url u p n = simp append_assoc

modify_url :
    (u p w : Text)
    → codes "user.do?username="
        ++ u
        ++ codes "&passwd="
        ++ p
        ++ codes "&newPasswd="
        ++ w
        ++ codes "&action=UP"
      ≡ codes "user.do?"
        ++ join (codes "&") (
            (codes "username=" ++ u)
            ∷ (codes "passwd=" ++ p)
            ∷ (codes "newPasswd=" ++ w)
            ∷ codes "action=UP"
            ∷ [])
modify_url u p w = simp append_assoc

-- The parameters of an address, where it is made of them.
split_query :
    (url page : Text) (w : Text) (ws : List Text)
    → ((s : Text) → after_question (before_hash (page ++ s)) ≡ before_hash s)
    → url ≡ page ++ join (codes "&") (w ∷ ws)
    → All Single (w ∷ ws)
    → split b'&' (after_question (before_hash url)) ≡ w ∷ ws
split_query url page w ws h e s =
    ap (λ t. split b'&' (after_question (before_hash t))) e
    ∙ ap (split b'&') (h (join (codes "&") (w ∷ ws)) ∙ before_hash-join w ws s)
    ∙ split-join b'&' w ws (All-no_and (w ∷ ws) s)

-- login.jsp sends the user name and the password if both are filled, and else nothing.
sent-logon :
    (f : Login)
    → Single f.username
    → Single f.password
    → sent (logon f) ≡ (
        if is_empty f.username || is_empty f.password
        then none
        else some ((codes "username=" ++ f.username) ∷ (codes "passwd=" ++ f.password) ∷ []))
unfolding logon
sent-logon f su sp = elim (Bool-cases (is_empty f.username || is_empty f.password)) [
  | inl e ↦ rw e refl
  | inr e ↦ rw e (
      ap some (
        split_query _ (codes "login.do?") _ _ (λ s. refl) (logon_url f.username f.password)
          (su, (sp, tt))))
]

-- Where the user name, the password and the name have no `&` and no `#`, register.jsp sends these three and the
-- action if none of them is empty, and else nothing; the password that was typed a second time makes
-- no difference.
pub sent-register :
    (f : Registration)
    → Single f.username
    → Single f.password
    → Single f.name
    → sent (register f) ≡ (
        if is_empty f.username || is_empty f.password || is_empty f.name
        then none
        else some (
            (codes "username=" ++ f.username)
            ∷ (codes "passwd=" ++ f.password)
            ∷ (codes "name=" ++ f.name)
            ∷ codes "action=ADD"
            ∷ []))
unfolding register
sent-register f su sp sn =
    elim (Bool-cases (is_empty f.username || is_empty f.password || is_empty f.name)) [
      | inl e ↦ rw e refl
      | inr e ↦ rw e (
          ap some (
            split_query _ (codes "user.do?") _ _ (λ s. refl)
              (register_url f.username f.password f.name) (su, (sp, (sn, ((refl, refl), tt))))))
    ]

-- Whether modifyUser.jsp sends what was typed.
abbrev pub accepted : Modification → Bool
accepted f =
    not (
      is_empty f.username
      || is_empty f.old_password
      || is_empty f.new_password
      || is_empty f.new_password_again)
    && f.new_password ==ₜ f.new_password_again

-- Where the values have no `&` and no `#`, modifyUser.jsp sends the user name, the old password, the new one and
-- the action if all four fields are filled and the two new passwords are the same, and else nothing.
pub sent-modify :
    (f : Modification)
    → Single f.username
    → Single f.old_password
    → Single f.new_password
    → sent (modify f) ≡ (
        if accepted f
        then some (
            (codes "username=" ++ f.username)
            ∷ (codes "passwd=" ++ f.old_password)
            ∷ (codes "newPasswd=" ++ f.new_password)
            ∷ codes "action=UP"
            ∷ [])
        else none)
unfolding modify
sent-modify f su sp sw =
    elim (Bool-cases (
      is_empty f.username
      || is_empty f.old_password
      || is_empty f.new_password
      || is_empty f.new_password_again)) [
        | inl e ↦ rw e refl
        | inr e ↦ elim (Bool-cases (f.new_password ==ₜ f.new_password_again)) [
          | inl q ↦
              rw (e, q)
                (ap some (
                  split_query _ (codes "user.do?") _ _ (λ s. refl)
                    (modify_url f.username f.old_password f.new_password)
                    (su, (sp, (sw, ((refl, refl), tt))))))
          | inr q ↦ rw (e, q) refl
        ]
      ]
