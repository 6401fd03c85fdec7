-- ===== src/Inbox/Tests.antt =====
-- Inboxes at concrete messages.
use oclock.Common.{◌≡◌, refl, List, [], ◌∷◌, ◌++◌}
use oclock.Inbox.{
  InboxMsg, InboxMsgType, Inbox, Registry, new_msg, new_inbox, add_message, wait_for_message,
  pop_front,
}
use oclock.Inbox.Fifo.{
  Event, Calls, sent, got, adds, waits, done, then_call, all_sent, all_taken, taken-append-pending,
}

abbrev bright : InboxMsg
bright = new_msg InboxMsgType.display_bright_high

abbrev dim : InboxMsg
dim = new_msg InboxMsgType.display_bright_low

abbrev one_left : Inbox
one_left = record { msgs = dim ∷ []; msg_count = 1 }

abbrev three_calls : List Event
three_calls = sent bright ∷ sent dim ∷ got bright ∷ []

Calls-run : Calls new_inbox three_calls one_left
unfolding new_inbox add_message wait_for_message pop_front
Calls-run = then_call (adds _ bright) (then_call (adds _ dim) (then_call (waits _ refl) (done _)))

taken-append-pending_example :
    all_taken three_calls ++ one_left.msgs ≡ new_inbox.msgs ++ all_sent three_calls
taken-append-pending_example = taken-append-pending Calls-run

abbrev two_threads : Registry
two_threads = (0, one_left) ∷ (3, new_inbox) ∷ []
