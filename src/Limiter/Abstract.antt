-- ===== src/Limiter/Abstract.antt =====
-- What LoginLimiter of internal/security/limiter.go promises while its map is not full: a key is
-- allowed where fewer failures than the limit are on record for it within the window. The record of
-- this view is every failure since the key was last cleared, with nothing swept.
use personal_cloud_ai_servic.Limiter.Bounds.{limiter_step, LimiterCall, allows, records, clears}
use personal_cloud_ai_servic.Limiter.{recent, allow, LoginLimiter}
use personal_cloud_ai_servic.Prelude.{
  String, count, keep, ℕ, Bool, List, str_eq, ltb, true, ◌∷◌, ◌&&◌, leb, [], not, length,
}

pub record Failure : Type 0 where
  pub key : String
  pub at : ℕ

unfoldable pub counts_for : String → ℕ → ℕ → Failure → Bool
unfolding recent
counts_for key now window f = str_eq f.key key && recent now window f.at

unfoldable pub spec_allows : ℕ → ℕ → ℕ → String → List Failure → Bool
unfolding count counts_for
spec_allows window limit now key log = ltb (count (counts_for key now window) log) limit

unfoldable pub spec_step : List Failure → LimiterCall → List Failure
unfolding keep
spec_step log (allows now key) = log
spec_step log (records now key) = (record { key = key; at = now }) ∷ log
spec_step log (clears key) = keep (λ f. not (str_eq f.key key)) log

-- The time of a call; a clear has none.
abbrev pub call_time : ℕ → LimiterCall → ℕ
call_time before (allows now key) = now
call_time before (records now key) = now
call_time before (clears key) = before

-- time.Now() does not go back.
unfoldable pub in_order : ℕ → List LimiterCall → Bool
in_order before [] = true
in_order before (call ∷ calls) =
    leb before (call_time before call) && in_order (call_time before call) calls

-- Before each call the map has room for another key.
unfoldable pub has_room : LoginLimiter → List LimiterCall → Bool
unfolding limiter_step
has_room l [] = true
has_room l (call ∷ calls) =
    ltb (length l.failures) l.max_keys && has_room (limiter_step l call) calls

-- The answers to the calls of Allow, in order.
unfoldable pub answers : LoginLimiter → List LimiterCall → List Bool
unfolding limiter_step allow
answers l [] = []
answers l (allows now key ∷ calls) =
    (allow now key l).0 ∷ answers (limiter_step l (allows now key)) calls
answers l (records now key ∷ calls) = answers (limiter_step l (records now key)) calls
answers l (clears key ∷ calls) = answers (limiter_step l (clears key)) calls

unfoldable pub spec_answers : ℕ → ℕ → List Failure → List LimiterCall → List Bool
unfolding spec_allows spec_step
spec_answers window limit log [] = []
spec_answers window limit log (allows now key ∷ calls) =
    spec_allows window limit now key log
    ∷ spec_answers window limit (spec_step log (allows now key)) calls
spec_answers window limit log (records now key ∷ calls) =
    spec_answers window limit (spec_step log (records now key)) calls
spec_answers window limit log (clears key ∷ calls) =
    spec_answers window limit (spec_step log (clears key)) calls
