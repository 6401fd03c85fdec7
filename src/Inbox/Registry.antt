-- ===== src/Inbox/Registry.antt =====
-- The registry of inboxes: which inboxes a broadcast reaches, and when an inbox is made.
use mathlib.Core.Option
use oclock.Common.{ℕ, ◌≡◌, ◌≢◌, [], ◌∷◌, some, arith, ◌==◌, if◌then◌else◌, Option-cases, inl, inr}
use oclock.Common.Assoc.{lookup, lookup-insert}
use oclock.Inbox.{InboxMsg, Registry, new_inbox, add_message, get_inbox, broadcast}

-- A broadcast adds the message once to the inbox of every thread but the sender, and makes no
-- inbox.
pub lookup-broadcast :
    (m : InboxMsg) (from t : ℕ) (r : Registry)
    → lookup t (broadcast m from r)
      ≡ (if t == from then lookup t r else Option.map (add_message m) (lookup t r))
unfolding lookup broadcast
lookup-broadcast m from t [] = ground arith
lookup-broadcast m from t ((j, b) ∷ r) = ground (arith, lookup-broadcast m from t r)

-- `getInbox` gives the thread's inbox if there is one, and a fresh one if there is none; other
-- threads' inboxes stay as they are.
pub lookup-get_inbox :
    (t j : ℕ) (r : Registry)
    → lookup j (get_inbox t r)
      ≡ (if t == j then some (Option.get_or (lookup t r) new_inbox) else lookup j r)
unfolding get_inbox
lookup-get_inbox t j r = elim (Option-cases (lookup t r)) [
  | inl e ↦ rw (e, get_inbox) (ground (arith, lookup-insert t j new_inbox r e))
  | inr (b, e) ↦ rw (e, get_inbox) (ground arith)
]

-- Once a thread has asked for its inbox, a message that another thread broadcasts is at the end
-- of that inbox, behind all earlier ones.
pub broadcast-get_inbox :
    (m : InboxMsg) (from t : ℕ) (r : Registry)
    → t ≢ from
    → lookup t (broadcast m from (get_inbox t r))
      ≡ some (add_message m (Option.get_or (lookup t r) new_inbox))
broadcast-get_inbox m from t r other =
    rw (lookup-broadcast m from t (get_inbox t r), lookup-get_inbox t t r) (ground arith)
