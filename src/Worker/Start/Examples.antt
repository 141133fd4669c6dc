-- ===== src/Worker/Start/Examples.antt =====
-- A start of the worker at a concrete course of events.
use paraflow.Prelude.{true, false}
use paraflow.Prelude.Text.{codes}
use paraflow.Worker.Start.{Launch, start_session}
use paraflow.Worker.Start.Leaks.{IsTidy, start_session-IsTidy}

-- The process starts, and the context is done by then.
abbrev cancelled_launch : Launch
cancelled_launch = record {
  done_before = false;
  input_pipe = true;
  output_pipe = true;
  diagnostics_pipe = true;
  starts = true;
  close_fails = λ file. false;
  done_after = true;
}

start_session-IsTidy_example : IsTidy (start_session cancelled_launch (codes "engine"))
start_session-IsTidy_example = start_session-IsTidy cancelled_launch (codes "engine")
