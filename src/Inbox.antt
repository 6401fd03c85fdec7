-- ===== src/Inbox.antt =====
-- The mailboxes between threads: inbox.h and inbox.cpp. Each method takes the inbox's mutex, so a
-- method is one step of its inbox. Counters are `Int32U`.
mod Tests
pub mod Fifo
pub mod Registry
use oclock.Common.{
  ℕ, ◌+◌, ◌-◌, ◌%◌, ◌^◌, List, [], ◌∷◌, ◌++◌, Bool, Option, none, some, true, false, replicate,
  ◌==◌, not, if◌then◌else◌,
}
use oclock.Common.Assoc.{lookup, insert, modify}
use oclock.Common.Lists.{}

-- The kinds of messages, in the order of the enumeration.
pub data InboxMsgType : Type 0 where
  noop terminate motion_on motion_off timer_tick_message : InboxMsgType
  display_bright_high display_bright_low : InboxMsgType
  display_mode_nothing display_mode_basic_clock display_mode_message : InboxMsgType

abbrev pub max_payload_size : ℕ
max_payload_size = 64

pub record InboxMsg : Type 0 where
  pub inbox_msg_type : InboxMsgType
  pub payload : List ℕ

-- The constructor from a type, which clears the payload.
unfoldable pub new_msg : InboxMsgType → InboxMsg
new_msg t = record { inbox_msg_type = t; payload = replicate max_payload_size 0 }

unfoldable pub tick_message : InboxMsg
unfolding new_msg
tick_message = new_msg InboxMsgType.timer_tick_message

pub record Inbox : Type 0 where
  pub msgs : List InboxMsg
  pub msg_count : ℕ

unfoldable pub new_inbox : Inbox
new_inbox = record { msgs = []; msg_count = 0 }

unfoldable pub add_message : InboxMsg → Inbox → Inbox
add_message m b = record { msgs = b.msgs ++ m ∷ []; msg_count = (b.msg_count + 1) % 2 ^ 32 }

-- The front message and the inbox without it; `none` when there is no message.
pop_front : List InboxMsg → ℕ → Option (InboxMsg × Inbox)
pop_front [] n = none
pop_front (m ∷ ms) n = some (m, record { msgs = ms; msg_count = (n + 2 ^ 32 - 1) % 2 ^ 32 })

-- `none` stands for the wait: the call returns only once the list is not empty.
unfoldable pub wait_for_message : Inbox → Option (InboxMsg × Inbox)
unfolding pop_front
wait_for_message b = pop_front b.msgs b.msg_count

-- `none` stands for the result `false`, which leaves the inbox and the argument alone.
unfoldable pub get_message : Inbox → Option (InboxMsg × Inbox)
unfolding pop_front
get_message b = pop_front b.msgs b.msg_count

unfoldable pub empty : Inbox → Bool
empty b = elim b.msgs [ [] ↦ true | _ ∷ _ ↦ false ]

unfoldable pub clear : Inbox → Inbox
clear b = record { msgs = []; msg_count = 0 }

unfoldable pub get_msg_count : Inbox → ℕ
get_msg_count b = b.msg_count

-- The registry's map from a thread's number to its inbox.
abbrev pub Registry : Type 0
Registry = List (ℕ × Inbox)

abbrev pub thread_id_ignore : ℕ
thread_id_ignore = 7

-- Finds the inbox of a thread, which is made on first use. The reference that the source returns
-- is the thread's number in the registry that results.
unfoldable pub get_inbox : ℕ → Registry → Registry
get_inbox t r = elim (lookup t r) [ none ↦ insert t new_inbox r | some _ ↦ r ]

-- A method of the inbox that the reference names.
unfoldable pub add_message_to : ℕ → InboxMsg → Registry → Registry
add_message_to t m r = modify t (add_message m) r

unfoldable pub broadcast : InboxMsg → ℕ → Registry → Registry
broadcast m from [] = []
broadcast m from ((t, b) ∷ r) =
    (t, if not (t == from) then add_message m b else b) ∷ broadcast m from r

unfoldable pub shutdown : Registry → Registry
shutdown r = []
