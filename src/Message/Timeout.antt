-- ===== src/Message/Timeout.antt =====
-- How long a message stays.
use oclock.Common.{
  ℕ, zero, suc, ◌+◌, ◌-◌, ◌%◌, ◌^◌, ◌<◌, ◌≡◌, refl, ap, ◌∙◌, false, ◌||◌, Bool-cases, inl, inr, ltb,
  ◌==◌, ==→eq, if◌then◌else◌, arith,
}
use oclock.Message.{ModeMessageData, mode_message_check_timeout, forever}

-- The seconds, each with its check, and how often the callback was called.
unfoldable pub checks : ℕ → ModeMessageData → ℕ
unfolding mode_message_check_timeout
checks zero m = 0
checks (suc k) m =
    let (m', completed) = mode_message_check_timeout m in (if completed then 1 else 0) + checks k m'

abbrev pub expected : ℕ → ℕ → ℕ
expected timeout k = if timeout == forever || (timeout == 0 || ltb k timeout) then 0 else 1

abbrev pub next_timeout : ℕ → ℕ
next_timeout t = if t == forever || (t == 1 || t == 0) then forever else t - 1

pub is_last : (t : ℕ) → t < 2 ^ 32 → ((t + forever) % 2 ^ 32 == 0) ≡ (t == 1)
is_last t h = ground arith

pub counted :
    (t : ℕ)
    → t < 2 ^ 32
    → (t == forever) ≡ false
    → (t == 1) ≡ false
    → (t + forever) % 2 ^ 32 ≡ next_timeout t
counted t h e f = ground arith

pub check_lem :
    (m : ModeMessageData)
    → m.timeout < 2 ^ 32
    → ((mode_message_check_timeout m).0.timeout ≡ next_timeout m.timeout)
      × ((mode_message_check_timeout m).1 ≡ (m.timeout == 1))
unfolding mode_message_check_timeout
check_lem m h = elim (Bool-cases (m.timeout == forever)) [
  | inl e ↦ rw e (==→eq m.timeout forever e, ground arith)
  | inr e ↦ elim (Bool-cases (m.timeout == 1)) [
    | inl f ↦ rw (e, is_last m.timeout h, f) (refl, refl)
    | inr f ↦ rw (e, is_last m.timeout h, f) (rw (e, f) at (counted m.timeout h e f), refl)
  ]
]

pub steps :
    (k t : ℕ)
    → t < 2 ^ 32
    → (if t == 1 then 1 else 0) + expected (next_timeout t) k ≡ expected t (suc k)
steps k t h = ground arith

checks_from :
    (k t : ℕ) (m : ModeMessageData) → m.timeout ≡ t → t < 2 ^ 32 → checks k m ≡ expected t k
unfolding checks
checks_from zero t m e h = ground arith
checks_from (suc k) t m e h =
    let c = check_lem m (omega (arith, e, h)) in
    let n : (mode_message_check_timeout m).0.timeout ≡ next_timeout t = c.0 ∙ ap next_timeout e in
    let l : next_timeout t < 2 ^ 32 = ground arith in
    let rest = checks_from k (next_timeout t) (mode_message_check_timeout m).0 n l in
    let d : (mode_message_check_timeout m).1 ≡ (t == 1) = c.1 ∙ ap (λ (x : ℕ). x == 1) e in
    rw (d, rest) (steps k t h)

-- A message with a timeout of n seconds is ended by the n-th check, once and no earlier; one that stays
-- forever is never ended. A timeout of 0 wraps around, so that such a message is never ended either.
pub checks_lem :
    (k : ℕ) (m : ModeMessageData) → m.timeout < 2 ^ 32 → checks k m ≡ expected m.timeout k
checks_lem k m h = checks_from k m.timeout m refl h
