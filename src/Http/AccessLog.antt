-- ===== src/Http/AccessLog.antt =====
-- `AccessLogMiddleware` of fastapi_core/http.py.
use Prim.Native.Char.{code}
use fastapi_core.Prelude.{
  ℕ, String, Bool, true, false, not, ◌&&◌, ◌||◌, ◌≡◌, refl, List, [], ◌∷◌, ◌++◌, leb, length,
  nat_beq, if◌then◌else◌, arith, Option, get_or, ap, ◌∙◌, append-nil,
}
use fastapi_core.Text.{truthy_text}
use fastapi_core.Http.Correlation.{Message, response_start, response_body, other_message}

pub record Entry : Type 0 where
  pub route : String
  pub status_code : ℕ
  pub is_error : Bool

-- The variables of one call: `status_code`, `logged`, and what was written to the log.
pub record Local : Type 0 where
  pub status_code : ℕ
  pub logged : Bool
  pub log : List Entry

-- `text.startswith(prefix)`
unfoldable pub starts_with : String → String → Bool
starts_with String.[] s = true
starts_with (String.◌∷◌ c p) String.[] = false
starts_with (String.◌∷◌ c p) (String.◌∷◌ d s) = nat_beq (code c) (code d) && starts_with p s

-- The path of the route, else the path of the scope, and `log_health`.
pub record Call : Type 0 where
  pub route_path : Option String
  pub path : String
  pub log_health : Bool

abbrev pub route_of : Call → String
route_of c = get_or (truthy_text c.route_path) c.path

abbrev pub is_hidden : Call → Bool
is_hidden c = not c.log_health && starts_with "/health/" (route_of c)

unfoldable pub write_log : Call → Bool → Local → Local
write_log c failed s =
    if s.logged then s else if is_hidden c then record s { logged = true } else record s {
      logged = true;
      log =
          s.log
          ++ record {
            route = route_of c;
            status_code = s.status_code;
            is_error = failed || leb 400 s.status_code;
          }
            ∷ [];
    }

-- A message that the application sends, and whether sending it succeeds.
abbrev pub Step : Type 0
Step = Message × Bool

unfoldable pub send_with_access_log : Call → Step → Local → Local
send_with_access_log c (response_start status headers, delivered) s = record s {
  status_code = status;
}
send_with_access_log c (response_body false, true) s = write_log c false s
send_with_access_log c (m, delivered) s = s

-- The calls of `send` that the application makes, and whether it ends by an exception.
unfoldable pub run : Call → List Step → Bool → Local → Local
unfolding send_with_access_log
run c [] raised s = if raised then write_log c true s else s
run c (step ∷ steps) raised s = run c steps raised (send_with_access_log c step s)

unfoldable pub access_log : Call → List Step → Bool → List Entry
unfolding run
access_log c steps raised =
    (run c steps raised (record { status_code = 500; logged = false; log = [] })).log

-- What should be logged, said without state: one entry, for the first end of a response, or else
-- for the exception, with the status that was last started.
abbrev pub entry : Call → ℕ → Bool → List Entry
entry c status failed =
    record { route = route_of c; status_code = status; is_error = failed || leb 400 status } ∷ []

abbrev pub expected : Call → ℕ → List Step → Bool → List Entry
expected c status [] raised = if raised then entry c status true else []
expected c status ((response_start new headers, delivered) ∷ steps) raised =
    expected c new steps raised
expected c status ((response_body false, true) ∷ steps) raised = entry c status false
expected c status ((m, delivered) ∷ steps) raised = expected c status steps raised

module _ (c : Call) where
  write_log-logged : (failed : Bool) (s : Local) → (write_log c failed s).logged ≡ true
  unfolding write_log
  write_log-logged failed s = ground arith

  write_log-again : (failed : Bool) (s : Local) → s.logged ≡ true → write_log c failed s ≡ s
  unfolding write_log
  write_log-again failed s h = ground arith

  write_log-first :
      (failed : Bool) (s : Local)
      → s.logged ≡ false
      → (write_log c failed s).log
        ≡ (if is_hidden c then s.log else s.log ++ entry c s.status_code failed)
  unfolding write_log
  write_log-first failed s h = ground arith

  -- Once the request is logged, nothing more is.
  run-logged :
      (steps : List Step) (raised : Bool) (s : Local)
      → s.logged ≡ true
      → (run c steps raised s).log ≡ s.log
  unfolding run
  run-logged [] true s h = ap (λ s. s.log) (write_log-again true s h)
  run-logged [] false s h = refl
  run-logged ((response_start status headers, d) ∷ steps) raised s h =
      run-logged steps raised (record s { status_code = status }) h
  run-logged ((response_body false, true) ∷ steps) raised s h =
      run-logged steps raised (write_log c false s) (write_log-logged false s)
      ∙ ap (λ s. s.log) (write_log-again false s h)
  run-logged ((response_body false, false) ∷ steps) raised s h = run-logged steps raised s h
  run-logged ((response_body true, d) ∷ steps) raised s h = run-logged steps raised s h
  run-logged ((other_message, d) ∷ steps) raised s h = run-logged steps raised s h

  run_lem :
      (steps : List Step) (raised : Bool) (s : Local)
      → s.logged ≡ false
      → (run c steps raised s).log
        ≡ (if is_hidden c then s.log else s.log ++ expected c s.status_code steps raised)
  unfolding run
  run_lem [] true s h = write_log-first true s h
  run_lem [] false s h = ground (arith, append-nil s.log)
  run_lem ((response_start status headers, d) ∷ steps) raised s h =
      run_lem steps raised (record s { status_code = status }) h
  run_lem ((response_body false, true) ∷ steps) raised s h =
      run-logged steps raised (write_log c false s) (write_log-logged false s)
      ∙ write_log-first false s h
  run_lem ((response_body false, false) ∷ steps) raised s h = run_lem steps raised s h
  run_lem ((response_body true, d) ∷ steps) raised s h = run_lem steps raised s h
  run_lem ((other_message, d) ∷ steps) raised s h = run_lem steps raised s h

  expected-once :
      (status : ℕ) (steps : List Step) (raised : Bool)
      → leb (length (expected c status steps raised)) 1 ≡ true
  expected-once status [] true = refl
  expected-once status [] false = refl
  expected-once status ((response_start new headers, d) ∷ steps) raised =
      expected-once new steps raised
  expected-once status ((response_body false, true) ∷ steps) raised = refl
  expected-once status ((response_body false, false) ∷ steps) raised =
      expected-once status steps raised
  expected-once status ((response_body true, d) ∷ steps) raised = expected-once status steps raised
  expected-once status ((other_message, d) ∷ steps) raised = expected-once status steps raised

  -- Whatever the application sends and however it ends, the log has at most one entry, and the one
  -- that is expected: for the first end of a response that was sent, or else for an exception, with
  -- the status started last, 500 if none was; and none for a health route that is hidden.
  pub access_log-expected :
      (steps : List Step) (raised : Bool)
      → (access_log c steps raised ≡ (if is_hidden c then [] else expected c 500 steps raised))
        × (leb (length (access_log c steps raised)) 1 ≡ true)
  unfolding access_log
  access_log-expected steps raised =
      let logged_so =
        run_lem steps raised (record { status_code = 500; logged = false; log = [] }) refl in
      (logged_so, ground (arith, logged_so, expected-once 500 steps raised))
