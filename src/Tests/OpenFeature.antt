-- ===== src/Tests/OpenFeature.antt =====
-- A provider whose initialization times out, and that becomes ready later.
use python_server_sdk.Base.{refl, true, false}
use python_server_sdk.OpenFeature.{
  Provider, new, waiting, reporting, returned, to_come, due, awaiting_recorded_failure,
  awaiting_config, ready, finish_initialize, await_config, end_check,
  report_ready_if_config_arrived,
}
use python_server_sdk.OpenFeature.Startup.{
  Step, Reach, start, step, initialize, record_failure, see_failure, receive, report, IsAnnounced,
  Reach-IsAnnounced,
}

abbrev timed_out : Provider
timed_out = record {
  phase = awaiting_recorded_failure;
  check = waiting;
  client_ready = false;
  client_closed = false;
  notice = to_come;
  failure_recorded = false;
  shut_down = false;
  ready_events = 0;
}

abbrev recorded : Provider
recorded = record timed_out { failure_recorded = true }

abbrev awaiting : Provider
awaiting = record recorded { phase = awaiting_config; check = reporting }

abbrev received : Provider
received = record awaiting { client_ready = true; notice = due }

abbrev announced : Provider
announced = record received { phase = ready; check = returned; ready_events = 1 }

begins : Step new timed_out
unfolding new finish_initialize
begins = initialize new refl

ends : Step received announced
unfolding end_check report_ready_if_config_arrived
ends = report received refl

sees : Step recorded awaiting
unfolding await_config
sees = see_failure recorded refl refl

announced-Reach : Reach announced
announced-Reach =
    step received announced
      (step awaiting received
        (step recorded awaiting
          (step timed_out recorded (step new timed_out start begins)
            (record_failure timed_out refl))
          sees)
        (receive awaiting refl refl refl))
      ends

Reach-IsAnnounced_example : IsAnnounced announced
Reach-IsAnnounced_example = Reach-IsAnnounced announced announced-Reach
