-- ===== src/Worker/Session/Examples.antt =====
-- Sessions at concrete inputs.
use paraflow.Prelude.{◌≡◌, ◌≢◌, refl, true, false, none, some, List, [], ◌∷◌}
use paraflow.Prelude.Outcome.{ok, err}
use paraflow.Prelude.Text.{codes, bytes_eq}
use paraflow.Prelude.Utf8.{valid_string, rune_count, is_blank}
use paraflow.Protocol.Hex.{
  unmarshal_hex, valid_request_id, format_request_id, format_hex, hex_digit, is_hex_digit,
  parse_uint, digit_value,
}
use paraflow.Protocol.Message.{WorkloadProjection, Response, valid_workload_name}
use paraflow.Protocol.Result.{
  histogram_loop, validate_fields, require_fields, validate_result, is_nan, is_negative_infinity,
}
use paraflow.Protocol.Result.Sound.{IsConsistent}
use paraflow.Protocol.Response.{
  decode_response, dispatch, decode_completed, decode_result, project_workload,
  encode_execute_frame,
}
use paraflow.Protocol.Fixture.{sample_workload, sample_result, sample_codec, first_id}
use paraflow.Worker.Frame.{end_of_file, read_frame}
use paraflow.Worker.Session.{
  Session, SessionError, session_is_open, session_is_closed, Entry, Exchange, exits_clean, Call,
  executes, shuts_down, closes, start, acquire, check_open, next_request_id, transact, send_execute,
  execute_held, execute, run,
}
use paraflow.Worker.Session.Life.{IsSound, run-start-IsSound, run_dead}
use paraflow.Worker.Session.Answer.{execute-IsConsistent, transact_poisons}

abbrev calm : Entry
calm = record { done_before = false; done_after = false; exited = false }

abbrev answered : Exchange
answered = record {
  closed_meanwhile = false;
  cancelled = false;
  written = true;
  arrived = codes "done\n";
  ending = end_of_file;
}

abbrev calls : List Call
calls = executes calm answered (codes "{}") ∷ closes ∷ shuts_down calm answered exits_clean ∷ []

run-start-IsSound_example :
    IsSound (run sample_codec start calls) × ((run sample_codec start calls).token ≡ true)
run-start-IsSound_example = run-start-IsSound sample_codec calls

abbrev closed_session : Session
closed_session = record {
  state = session_is_closed;
  cause = none;
  sequence = 2;
  token = true;
  input_closed = true;
  output_closed = true;
  killed = true;
  reaped = true;
  unread = [];
}

is_dead : closed_session.state ≢ session_is_open
is_dead e = cc

run_dead_example :
    ((run sample_codec closed_session calls).state ≢ session_is_open)
    × ((run sample_codec closed_session calls).sequence ≡ 2)
    × ((run sample_codec closed_session calls).unread ≡ [])
run_dead_example = run_dead sample_codec closed_session calls is_dead

executed : (execute sample_codec calm answered (codes "{}") start).1 ≡ ok sample_result
unfolding execute execute_held acquire check_open next_request_id send_execute transact start
    read_frame decode_response dispatch decode_completed decode_result validate_result
    require_fields validate_fields histogram_loop is_nan is_negative_infinity unmarshal_hex bytes_eq
    valid_workload_name valid_string rune_count is_blank is_hex_digit parse_uint digit_value
    project_workload encode_execute_frame valid_request_id format_request_id format_hex hex_digit
executed = refl

execute-IsConsistent_example :
    (start.state ≡ session_is_open)
    × ((p : WorkloadProjection) × (project_workload sample_codec (codes "{}") ≡ ok p)
        × IsConsistent p sample_result)
execute-IsConsistent_example =
    execute-IsConsistent sample_codec calm answered (codes "{}") start sample_result executed

transact_poisons_example :
    ((e : SessionError)
      → (transact sample_codec first_id (some sample_workload) answered start).1 ≡ err e
      → ((transact sample_codec first_id (some sample_workload) answered start).0.state
          ≢ session_is_open)
        × ((transact sample_codec first_id (some sample_workload) answered start).0.killed ≡ true)
        × ((transact sample_codec first_id (some sample_workload) answered start).0.reaped ≡ true))
    × ((r : Response)
        → (transact sample_codec first_id (some sample_workload) answered start).1 ≡ ok r
        → ◌≡◌ false false
        → (transact sample_codec first_id (some sample_workload) answered start).0.state
          ≡ start.state)
transact_poisons_example =
    transact_poisons sample_codec first_id (some sample_workload) answered start
