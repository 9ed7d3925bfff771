-- ===== src/Process.antt =====
-- process.go: the calls that the orchestrator makes to a running server, `sleepModel`, `wakeModel`,
-- `pollIsSleeping`, `waitForHealth`, and whether a launch gives a process. What the server and the
-- system answer is an argument; a list of answers holds those that come before the deadline.
pub mod Env
pub mod Command
pub mod Output
use v_llm_orchestrator.Base.{
  ℕ, ◌==◌, Bool, true, false, not, ◌&&◌, ◌||◌, List, [], ◌∷◌, Option, none, some, if◌then◌else◌,
}
use v_llm_orchestrator.Memory.Parse.{Text}

abbrev pub has_prefix : Text → Text → Bool
has_prefix [] s = true
has_prefix (c ∷ cs) [] = false
has_prefix (c ∷ cs) (d ∷ ds) = c == d && has_prefix cs ds

-- `strings.Contains(s, part)`
unfoldable pub contains_text : Text → Text → Bool
contains_text part [] = has_prefix part []
contains_text part (c ∷ cs) = has_prefix part (c ∷ cs) || contains_text part cs

-- `"is_sleeping":`
abbrev pub is_sleeping_key : List ℕ → Text
is_sleeping_key value =
    b'"' ∷ b'i' ∷ b's' ∷ b'_' ∷ b's' ∷ b'l' ∷ b'e' ∷ b'e' ∷ b'p' ∷ b'i' ∷ b'n' ∷ b'g' ∷ b'"' ∷ b':'
    ∷ value

abbrev pub sleeping_true : Text
sleeping_true = is_sleeping_key (b't' ∷ b'r' ∷ b'u' ∷ b'e' ∷ [])

abbrev pub sleeping_false : Text
sleeping_false = is_sleeping_key (b'f' ∷ b'a' ∷ b'l' ∷ b's' ∷ b'e' ∷ [])

-- The value that the body of GET /is_sleeping shows; `none` is an error, as is a failed request.
unfoldable pub poll_is_sleeping : Option Text → Option Bool
poll_is_sleeping none = none
poll_is_sleeping (some body) =
    if contains_text sleeping_true body
    then some true
    else if contains_text sleeping_false body
    then some false
    else none

-- Whether some poll before the deadline shows the value.
unfoldable pub polls_show : Bool → List (Option Text) → Bool
polls_show value [] = false
polls_show value (p ∷ ps) =
    let later = polls_show value ps in
    elim (poll_is_sleeping p) [
      | none ↦ later
      | some sleeping ↦ if same sleeping value then true else later
    ]
  where
    same : Bool → Bool → Bool
    same true b = b
    same false b = not b

-- A POST to the server and the polls of /is_sleeping after it.
pub record Exchange : Type 0 where
  pub posted : Bool
  pub polls : List (Option Text)

-- Success of `sleepModel` and `wakeModel`.
unfoldable pub sleep_model : Exchange → Bool
sleep_model x = if x.posted then polls_show true x.polls else false

unfoldable pub wake_model : Exchange → Bool
wake_model x = if x.posted then polls_show false x.polls else false

-- A round of `waitForHealth`: the status of GET /health, if it is answered, and whether the process
-- is found to have exited in the wait that follows.
pub record HealthRound : Type 0 where
  pub status : Option ℕ
  pub exited : Bool

pub data Health : Type 0 where
  ready exited_early timed_out : Health

abbrev is_ok : Option ℕ → Bool
is_ok none = false
is_ok (some status) = status == 200

unfoldable pub wait_for_health : List HealthRound → Health
wait_for_health [] = timed_out
wait_for_health (r ∷ rs) =
    let later = wait_for_health rs in
    if is_ok r.status then ready else if r.exited then exited_early else later

-- What the system answers to the steps of a launch that can fail.
pub record LaunchAnswers : Type 0 where
  pub socket_exists : Bool
  pub socket_owned : Bool
  pub stdout_pipe : Bool
  pub stderr_pipe : Bool
  pub starts : Bool

-- Whether `launchVLLM` and `launchLlamaCpp` return a process.
unfoldable pub launches : LaunchAnswers → Bool
launches a =
    if a.socket_exists && a.socket_owned then false else a.stdout_pipe && a.stderr_pipe && a.starts
