-- ===== src/Mqtt/Tests.antt =====
-- The MQTT client in a short run.
use oclock.Common.{true, [], ◌∷◌, ◌≡◌, refl}
use oclock.Common.Int.{pos}
use oclock.Common.Str.{str}
use oclock.Inbox.{InboxMsgType}
use oclock.Mqtt.{Client, Library, Report, published, connected, new_client, turn}
use oclock.Mqtt.Motion.{Run, here, next, turns, report_timer, Paired, Run-Paired}
use oclock.Mqtt.Counters.{IsCounted, Run-IsCounted}

abbrev broker : Library
broker = record {
  mosq_err_no_conn = pos 4;
  mosquitto_loop = (pos 0, connected (pos 0) ∷ []);
  mosquitto_connect = (pos 0, []);
  mosquitto_publish = λ topic payload. (pos 0, published ∷ []);
}

abbrev report : Report
report = record { light_value = 700; status_json = str "{}"; curr_timestamp = str "Mon" }

abbrev start : Client
start = new_client (str "10.0.0.1") (pos 1883) (pos 60)

-- A motion, a report, and the end of the motion.
abbrev moved : Client
moved = turn broker report InboxMsgType.motion_on start

abbrev due : Client
due = record moved { periodic_report_expired = true }

abbrev reported : Client
reported = turn broker report InboxMsgType.timer_tick_message due

abbrev ended : Client
ended = turn broker report InboxMsgType.motion_off reported

sample-Run : Run start ended
sample-Run =
    next
      (next
        (next (next here (turns broker report InboxMsgType.motion_on start)) (report_timer moved))
        (turns broker report InboxMsgType.timer_tick_message due))
      (turns broker report InboxMsgType.motion_off reported)

Run-Paired_example : Paired ended
Run-Paired_example = Run-Paired (str "10.0.0.1") (pos 1883) (pos 60) sample-Run

Run-IsCounted_example : IsCounted ended
Run-IsCounted_example = Run-IsCounted (str "10.0.0.1") (pos 1883) (pos 60) sample-Run

five_publications : ended.info.publishes ≡ 5
unfolding turn new_client
five_publications = refl
