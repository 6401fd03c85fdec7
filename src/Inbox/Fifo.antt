-- ===== src/Inbox/Fifo.antt =====
-- Order and count of one inbox under any interleaving of its senders and its reader. Every method
-- takes the inbox's mutex, so an interleaving is a sequence of whole calls.
use oclock.Common.{
  ℕ, ◌%◌, ◌^◌, ◌≡◌, refl, sym, ap, ◌∙◌, List, [], ◌∷◌, ◌++◌, append-nil, append_assoc, none, some,
  arith, length, length-append,
}
use oclock.Inbox.{
  InboxMsg, Inbox, new_inbox, add_message, wait_for_message, get_message, clear, get_msg_count,
}

-- What a call does to the sequence of messages.
pub data Event : Type 0 where
  sent got : InboxMsg → Event
  missed : Event
  dropped : List InboxMsg → Event

-- One call of a method, by any thread.
pub data Call : Inbox → Event → Inbox → Type 0 where
  adds : (b : Inbox) (m : InboxMsg) → Call b (sent m) (add_message m b)
  waits :
      (b : Inbox) {b' : Inbox} {m : InboxMsg}
      → wait_for_message b ≡ some (m, b')
      → Call b (got m) b'
  polls : (b : Inbox) {b' : Inbox} {m : InboxMsg} → get_message b ≡ some (m, b') → Call b (got m) b'
  polls_in_vain : (b : Inbox) → get_message b ≡ none → Call b missed b
  clears : (b : Inbox) → Call b (dropped b.msgs) (clear b)

pub data Calls : Inbox → List Event → Inbox → Type 0 where
  done : (b : Inbox) → Calls b [] b
  then_call :
      {b c d : Inbox} {e : Event} {es : List Event} → Call b e c → Calls c es d → Calls b (e ∷ es) d

unfoldable pub all_sent : List Event → List InboxMsg
all_sent [] = []
all_sent (sent m ∷ es) = m ∷ all_sent es
all_sent (got m ∷ es) = all_sent es
all_sent (missed ∷ es) = all_sent es
all_sent (dropped ms ∷ es) = all_sent es

unfoldable pub all_taken : List Event → List InboxMsg
all_taken [] = []
all_taken (sent m ∷ es) = all_taken es
all_taken (got m ∷ es) = m ∷ all_taken es
all_taken (missed ∷ es) = all_taken es
all_taken (dropped ms ∷ es) = ms ++ all_taken es

pop_front-msgs :
    (ms : List InboxMsg) (n : ℕ) {m : InboxMsg} {b : Inbox}
    → wait_for_message (record { msgs = ms; msg_count = n }) ≡ some (m, b)
    → ms ≡ m ∷ b.msgs
unfolding wait_for_message
pop_front-msgs [] n h = ground arith
pop_front-msgs (x ∷ ms) n h = ground arith

get_message-wait : (b : Inbox) → get_message b ≡ wait_for_message b
unfolding get_message wait_for_message
get_message-wait b = refl

-- The messages that were taken out of an inbox, by a reader or by `clear`, followed by those that
-- are still in it, are those that were in it followed by those that were sent since, in the order
-- of sending: no interleaving of calls loses, doubles or reorders a message.
pub taken-append-pending :
    {b c : Inbox} {es : List Event} → Calls b es c → all_taken es ++ c.msgs ≡ b.msgs ++ all_sent es
unfolding all_sent all_taken add_message clear
taken-append-pending (done b) = sym (append-nil b.msgs)
taken-append-pending (then_call {es = es} (adds b m) r) =
    taken-append-pending r ∙ append_assoc b.msgs (m ∷ []) (all_sent es)
taken-append-pending (then_call (waits b {m = m} h) r) =
    rw (pop_front-msgs b.msgs b.msg_count h) (ap (◌∷◌ m) (taken-append-pending r))
taken-append-pending (then_call (polls b {m = m} h) r) =
    rw (pop_front-msgs b.msgs b.msg_count (sym (get_message-wait b) ∙ h))
      (ap (◌∷◌ m) (taken-append-pending r))
taken-append-pending (then_call (polls_in_vain b h) r) = taken-append-pending r
taken-append-pending (then_call {d = d} {es = es} (clears b) r) =
    append_assoc b.msgs (all_taken es) d.msgs ∙ ap (◌++◌ b.msgs) (taken-append-pending r)

-- The counter is the number of messages, as far as 32 bits go.
abbrev pub IsCounted : Inbox → Type 0
IsCounted b = get_msg_count b ≡ length b.msgs % 2 ^ 32

pop_front-IsCounted :
    (ms : List InboxMsg) (n : ℕ) {m : InboxMsg} {b : Inbox}
    → n ≡ length ms % 2 ^ 32
    → wait_for_message (record { msgs = ms; msg_count = n }) ≡ some (m, b)
    → b.msg_count ≡ length b.msgs % 2 ^ 32
unfolding wait_for_message
pop_front-IsCounted [] n c h = ground arith
pop_front-IsCounted (x ∷ ms) n c h = ground arith

Call-IsCounted : {b c : Inbox} {e : Event} → Call b e c → IsCounted b → IsCounted c
unfolding get_msg_count add_message clear
Call-IsCounted (adds b m) h = omega (arith, length-append b.msgs (m ∷ []))
Call-IsCounted (waits b p) h = pop_front-IsCounted b.msgs b.msg_count h p
Call-IsCounted (polls b p) h =
    pop_front-IsCounted b.msgs b.msg_count h (sym (get_message-wait b) ∙ p)
Call-IsCounted (polls_in_vain b p) h = h
Call-IsCounted (clears b) h = omega arith

Calls-IsCounted_from : {b c : Inbox} {es : List Event} → Calls b es c → IsCounted b → IsCounted c
Calls-IsCounted_from (done b) h = h
Calls-IsCounted_from (then_call s r) h = Calls-IsCounted_from r (Call-IsCounted s h)

-- After any calls on a fresh inbox `getMsgCount` is the number of messages in it, modulo 2 ^ 32.
pub Calls-IsCounted : {c : Inbox} {es : List Event} → Calls new_inbox es c → IsCounted c
Calls-IsCounted r = Calls-IsCounted_from r (unfold new_inbox get_msg_count in refl)
