-- ===== src/Ftp/Client/Alike.antt =====
-- Changes that leave a session's place in the login counter alone.
use ebftpd.Prelude.{subst, ◌≡◌, ◌⊎◌, sym, ap, ◌∙◌, some, ℕ}
use ebftpd.Ftp.Counters.{Counter}
use ebftpd.Ftp.Enums.{logged_out, logged_in, finished, state_code, same_state}
use ebftpd.Ftp.Client.{Client, Result}
use ebftpd.Ftp.Client.Laws.{IsCoherent, CanStop, Ends, Effect, open_uid, stay}

-- The fields that a session's place in the counter rests on.
pub record Alike (c c' : Client) : Type 0 where
  pub same_place : c'.state ≡ c.state
  pub same_user : c'.user ≡ c.user
  pub same_guard : c'.is_guarded ≡ c.is_guarded

pub Alike-IsCoherent : (c c' : Client) → Alike c c' → IsCoherent c → IsCoherent c'
unfolding state_code
Alike-IsCoherent c c' a h = record {
  guarded = a.same_guard ∙ (h.guarded ∙ ap (λ s. same_state s logged_in) (sym a.same_place));
  known = λ k.
      subst (λ s. (s ≡ logged_out) ⊎ (s ≡ finished)) (sym a.same_place)
        (h.known (sym a.same_user ∙ k));
  proper = ((λ k. h.proper.0 (sym a.same_place ∙ k)), (λ k. h.proper.1 (sym a.same_place ∙ k)));
}

pub Alike-open_uid : (c c' : Client) → Alike c c' → open_uid c' ≡ open_uid c
Alike-open_uid c c' a = cc (a.same_guard, a.same_user)

pub keeps :
    (c c' : Client) (n : Counter) (code : ℕ)
    → IsCoherent c
    → Alike c c'
    → Ends c n (some (c', n, code))
keeps c c' n code h a = stay c c' n code (Alike-IsCoherent c c' a h) (Alike-open_uid c c' a)

pub Alike-CanStop : (c c' : Client) (n : Counter) → Alike c c' → CanStop c n → CanStop c' n
Alike-CanStop c c' n a can uid e = can uid (sym (Alike-open_uid c c' a) ∙ e)

-- What the changed session does, the session does.
pub Alike-Ends : (c c' : Client) (n : Counter) (r : Result) → Alike c c' → Ends c' n r → Ends c n r
Alike-Ends c c' n r a (d, n', code, e, h, effect) =
    (d, n', code, e, h, subst (λ o. Effect o (open_uid d) n n') (Alike-open_uid c c' a) effect)
