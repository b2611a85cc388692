-- ===== src/Session/Unsent.antt =====
-- A login success whose directory is refused (src/session.cc, OnLoginSuccess).
use psych.Prelude.{ℕ, false, Option, none, some, List, [], ◌∷◌, ◌≡◌, refl, ◌∙◌, arith, get_elem?}
use psych.Prelude.Bytes.{Bytes}
use psych.Store.{Session, ItemStream, Provider}
use psych.Session.Tokens.{SubmitResult, reset_token, reset_entries, reset_tokens, lock}
use psych.Session.Events.{raised, on_login_success}

reset_token-wire :
    (q : ℕ) (o : Option ItemStream) (w : List ItemStream × Session)
    → (reset_token q o w).1.wire ≡ w.1.wire
unfolding reset_token
reset_token-wire q none w = refl
reset_token-wire q (some st) w = refl

pub reset_entries-wire :
    (ds : List (Bytes × ℕ)) (w : List ItemStream × Session) → (reset_entries ds w).1.wire ≡ w.1.wire
unfolding reset_entries
reset_entries-wire [] w = refl
reset_entries-wire ((k, q) ∷ ds) w =
    reset_entries-wire ds (reset_token q (lock (get_elem? w.0 q)) w)
    ∙ reset_token-wire q (lock (get_elem? w.0 q)) w

reset_tokens-wire : (p : Provider) (s : Session) → (reset_tokens p s).1.wire ≡ s.wire
unfolding reset_tokens
reset_tokens-wire p s = ground (arith, reset_entries-wire p.directory (p.streams, s))

-- If the validation of the directory raises an exception, then the handler of a login success sends
-- nothing, and unmutes the session all the same.
pub on_login_success-raised :
    (r : SubmitResult) (p : Provider) (s : Session)
    → ((on_login_success (record { validation = raised; submission = r }) p s).0.wire ≡ s.wire)
      × ((on_login_success (record { validation = raised; submission = r }) p s).0.is_muted ≡ false)
unfolding on_login_success
on_login_success-raised r p s = (reset_tokens-wire p _, refl)
