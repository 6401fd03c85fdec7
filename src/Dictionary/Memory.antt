-- ===== src/Dictionary/Memory.antt =====
-- Making and freeing the timer service of an entry: the table of the tick service never keeps a
-- pointer to a freed object, and no other object is touched.
use oclock.Common.{
  ℕ, ◌+◌, ◌^◌, ◌≤◌, ◌<◌, ◌≡◌, ◌≢◌, refl, sym, ap, subst, ◌∙◌, true, false, Option, none, some,
  arith, ◌==◌, if◌then◌else◌, Option-cases, Bool-cases, inl, inr, ==→eq, ==→ne, ne→==, ==_refl,
}
use oclock.Common.Assoc.{lookup, update}
use oclock.Common.Int.{ℤ, is_negative}
use oclock.TimerTick.{
  Machine, Service, Result, ok, Trigger, new_service, write, start_service,
  unregister_timer_tick_service, null_cookie, get_is_registered,
}
use oclock.TimerTick.Wf.{Wf, Wf-same, cookie_at, lookup-Linked, cookie_at-update}
use oclock.TimerTick.Register.{
  unregister_lem, register_fresh, register-Wf, registered, registered_heap,
}
use oclock.TimerTick.Period.{IsStarted}
use oclock.Dictionary.{free, new_data, delete_data}

-- `m'` is `m` but for what lies at `a`.
abbrev pub SameBut : ℕ → Machine → Machine → Type 0
SameBut a m m' = (b : ℕ) → a ≢ b → m'.heap b ≡ m.heap b

pub cookie_at-object :
    (heap : ℕ → Option Service) (a : ℕ) (o : Service)
    → heap a ≡ some o
    → cookie_at heap a ≡ o.cookie
unfolding cookie_at
cookie_at-object heap a o h = rw (h, cookie_at)

cookie_at-none : (heap : ℕ → Option Service) (a : ℕ) → heap a ≡ none → cookie_at heap a ≡ 0
unfolding cookie_at
cookie_at-none heap a h = rw (h, cookie_at)

cookie_at-free :
    (heap : ℕ → Option Service) (a b : ℕ)
    → cookie_at (update a none heap) b ≡ (if a == b then 0 else cookie_at heap b)
unfolding cookie_at update
cookie_at-free heap a b = elim (Bool-cases (a == b)) [
  | inl e ↦ rw (e, cookie_at)
  | inr e ↦ rw (e, cookie_at)
]

lookup_null : {m : Machine} → Wf m → lookup null_cookie m.services ≡ none
lookup_null {m} w = elim (Option-cases (lookup null_cookie m.services)) [
  | inl e ↦ e
  | inr (a, e) ↦ absurd ((lookup-Linked null_cookie a w e).1 refl)
]

-- Unregistering the service of an object changes no other object.
unregister_own :
    (m : Machine) (a : ℕ) (o : Service)
    → Wf m
    → m.heap a ≡ some o
    → let r = unregister_timer_tick_service o.cookie m in
      (r.1 ≡ ok tt)
      × Wf r.0
      × (cookie_at (r.0).heap a ≡ 0)
      × SameBut a m r.0
      × ((r.0).next_id ≡ m.next_id)
unfolding unregister_timer_tick_service
unregister_own m a o w h = elim (Bool-cases (o.cookie == 0)) [
  | inl z ↦
      let gone : lookup o.cookie m.services ≡ none =
        subst (λ c. lookup c m.services ≡ none) (sym (==→eq o.cookie 0 z)) (lookup_null w) in
      rw (gone, unregister_timer_tick_service)
        (refl, w, cookie_at-object m.heap a o h ∙ ==→eq o.cookie 0 z, λ b n. refl, refl)
  | inr z ↦
      let k = unregister_lem o.cookie m w in
      let c : cookie_at m.heap a ≡ o.cookie = cookie_at-object m.heap a o h in
      let held : lookup o.cookie m.services ≡ some a =
        subst (λ x. lookup x m.services ≡ some a) c
          (w.backed a (λ e. ==→ne o.cookie 0 z (sym c ∙ e))) in
      (
        k.0,
        k.1,
        k.3 a held,
        rw (held, h, unregister_timer_tick_service) (λ b n. untouched b n),
        k.4,
      )
]
  where
    untouched :
        (b : ℕ)
        → a ≢ b
        → update a (some (record o { cookie = null_cookie; ticks_left = 0 })) m.heap b ≡ m.heap b
    untouched b n = unfold update in rw (ne→== a b n)

free-Wf : (m : Machine) (a : ℕ) → Wf m → cookie_at m.heap a ≡ 0 → Wf (free a m)
unfolding free
free-Wf m a w z = Wf-same (λ b. cookie_at-free m.heap a b ∙ same b) refl refl w
  where
    same : (b : ℕ) → (if a == b then 0 else cookie_at m.heap b) ≡ cookie_at m.heap b
    same b = elim (Bool-cases (a == b)) [ inl e ↦ rw (e, ← ==→eq a b e, z) | inr e ↦ rw e ]

free-SameBut : (m m' : Machine) (a : ℕ) → SameBut a m m' → SameBut a m (free a m')
unfolding free update
free-SameBut m m' a h b n = rw (ne→== a b n) (h b n)

free_at : (m : Machine) (a : ℕ) → (free a m).heap a ≡ none
unfolding free update
free_at m a = rw (==_refl a)

-- Deleting an entry's data that is there succeeds: the memory is freed, no table entry leads to
-- it, and every other object is as before.
pub delete_data_lem :
    (m : Machine) (a : ℕ) (o : Service)
    → Wf m
    → m.heap a ≡ some o
    → (m' : Machine) × (delete_data a m ≡ (m', ok tt))
      × Wf m'
      × (m'.heap a ≡ none)
      × SameBut a m m'
      × (m'.next_id ≡ m.next_id)
unfolding delete_data
delete_data_lem m a o w h =
    let k = unregister_own m a o w h in
    let m1 = (unregister_timer_tick_service o.cookie m).0 in
    (
      free a m1,
      rw (h, delete_data, k.0) refl,
      free-Wf m1 a k.1 k.2,
      free_at m1 a,
      free-SameBut m m1 a k.3,
      unfold free in k.4,
    )

write_at : (a : ℕ) (o : Service) (m : Machine) → (write a o m).heap a ≡ some o
unfolding write update
write_at a o m = rw (==_refl a)

write-SameBut : (a : ℕ) (o : Service) (m m' : Machine) → SameBut a m m' → SameBut a m (write a o m')
unfolding write update
write-SameBut a o m m' h b n = rw (ne→== a b n) (h b n)

write_unregistered-Wf :
    (m : Machine) (a : ℕ) (o : Service) → Wf m → m.heap a ≡ none → o.cookie ≡ 0 → Wf (write a o m)
unfolding write
write_unregistered-Wf m a o w h z =
    Wf-same (λ b. cookie_at-update m.heap a b o ∙ same b) refl refl w
  where
    same : (b : ℕ) → (if a == b then o.cookie else cookie_at m.heap b) ≡ cookie_at m.heap b
    same b = elim (Bool-cases (a == b)) [
      | inl e ↦ rw (e, ← ==→eq a b e, z, cookie_at-none m.heap a h)
      | inr e ↦ rw e
    ]

-- The service of an entry that has just been made.
pub record IsNewData (i : ℤ) (o : Service) : Type 0 where
  pub interval : o.interval ≡ i
  pub one_shot : o.periodic ≡ false
  pub started : is_negative i ≡ false → IsStarted o
  pub idle : is_negative i ≡ true → o.ticks_left ≡ 0

started_data :
    (i : ℤ) (m : Machine)
    → Wf m
    → is_negative i ≡ false
    → IsNewData i
        (start_service (record (new_service i false (Trigger.flag false)) { cookie = m.next_id }))
unfolding new_service start_service
started_data i m w n = record {
  interval = refl;
  one_shot = refl;
  started = λ e. record {
    registered = unfold get_is_registered in ground (arith, w.started);
    full = refl;
  };
  idle = λ e. cc;
}

-- Making an entry's data in unused memory succeeds while ids last, and touches no other object. An
-- interval that is not negative starts the service.
pub new_data_lem :
    (a : ℕ) (i : ℤ) (m : Machine)
    → Wf m
    → m.heap a ≡ none
    → m.next_id + 1 < 2 ^ 64
    → (m' : Machine) × (o : Service) × (new_data a i m ≡ (m', ok tt))
      × Wf m'
      × (m'.heap a ≡ some o)
      × IsNewData i o
      × SameBut a m m'
      × (m'.next_id ≤ m.next_id + 1)
unfolding new_data new_service
new_data_lem a i m w h ids =
    let o : Service = new_service i false (Trigger.flag false) in
    let fresh = write a o m in
    let fw : Wf fresh = write_unregistered-Wf m a o w h refl in
    elim (Bool-cases (is_negative i)) [
      | inl neg ↦ (
        fresh,
        o,
        rw neg refl,
        fw,
        write_at a o m,
        record { interval = refl; one_shot = refl; started = λ e. cc; idle = λ e. refl },
        write-SameBut a o m m (λ b n. refl),
        unfold write in omega arith,
      )
      | inr nonneg ↦
          let first : Machine × Result ℕ → Machine × Result (Unit {0}) = λ p. (p.0, ok tt) in
          let e = register_fresh a o true fresh fw (write_at a o m) refl in
          (
            registered a o true fresh,
            start_service (record o { cookie = m.next_id }),
            rw (nonneg, e) (ap first e),
            subst (λ p. Wf p.0) e (register-Wf a true fresh fw ids),
            registered_heap a o true fresh a ∙ rw (==_refl a),
            started_data i m w nonneg,
            λ b n. registered_heap a o true fresh b ∙ rw (ne→== a b n),
            unfold write in omega arith,
          )
    ]
