-- ===== src/Accounts/Examples.antt =====
-- Forms that were filled in, and the theorems about them.
use base_service.Base.{◌≡◌, refl, some, [], ◌∷◌}
use base_service.Text.{codes}
use base_service.Accounts.{Registration, Modification, register, modify}
use base_service.Accounts.Queries.{sent, sent-register, sent-modify}

abbrev mistyped : Registration
mistyped = record {
  username = codes "bo";
  password = codes "secret";
  password_again = codes "sercet";
  name = codes "Bo";
}

sent-register_example :
    sent (register mistyped)
    ≡ some (codes "username=bo" ∷ codes "passwd=secret" ∷ codes "name=Bo" ∷ codes "action=ADD" ∷ [])
sent-register_example = sent-register mistyped (refl, refl) (refl, refl) (refl, refl)

abbrev changed : Modification
changed = record {
  username = codes "bo";
  old_password = codes "secret";
  new_password = codes "better";
  new_password_again = codes "better";
}

sent-modify_example :
    sent (modify changed)
    ≡ some (
        codes "username=bo"
        ∷ codes "passwd=secret"
        ∷ codes "newPasswd=better"
        ∷ codes "action=UP"
        ∷ [])
sent-modify_example = sent-modify changed (refl, refl) (refl, refl) (refl, refl)

-- A value with a `&` adds a parameter of its own.
added :
    sent (register (record mistyped { name = codes "Bo&action=UP" }))
    ≡ some (
        codes "username=bo"
        ∷ codes "passwd=secret"
        ∷ codes "name=Bo"
        ∷ codes "action=UP"
        ∷ codes "action=ADD"
        ∷ [])
unfolding register
added = refl

-- A value with a `#` ends the request: neither the name nor the action is sent.
ended :
    sent (register (record mistyped { password = codes "a#b" }))
    ≡ some (codes "username=bo" ∷ codes "passwd=a" ∷ [])
unfolding register
ended = refl
