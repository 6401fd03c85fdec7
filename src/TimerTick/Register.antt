-- ===== src/TimerTick/Register.antt =====
-- Registering and unregistering keep the table and the objects in agreement.
use oclock.Common.{
  subst, ℕ, ◌+◌, ◌%◌, ◌^◌, ◌<◌, ◌≡◌, ◌≢◌, refl, sym, ap, ◌∙◌, Bool, true, false, Option, none, some,
  arith, All-map, All-map₂, ◌==◌, if◌then◌else◌, Option-cases, Bool-cases, inl, inr, ==→eq, ==→ne,
  ==_refl, ne→==,
}
use oclock.Common.Assoc.{lookup, insert, erase, keys, update, Distinct}
use oclock.Common.Assoc
use oclock.TimerTick.{
  Service, Machine, ok, throws, Error, write, register_timer_tick_service,
  unregister_timer_tick_service, start_service, insert_service, null_cookie,
}
use oclock.TimerTick.Wf.{Wf, Linked, cookie_at, cookie_at-update, cookie_at-some, lookup-Linked}

issued_fresh : {s : Machine} → Wf s → lookup s.next_id s.services ≡ none
issued_fresh {s} w =
    Assoc.lookup_absent s.services s.next_id (Assoc.absent_keys s.services s.next_id w.issued)

module _ {s : Machine} (t : Machine) (a : ℕ) (w : Wf s) (free : cookie_at s.heap a ≡ 0)
    (cookies : (b : ℕ) → cookie_at t.heap b ≡ (if a == b then s.next_id else cookie_at s.heap b))
    (added : t.services ≡ insert s.next_id a s.services) (next : t.next_id ≡ s.next_id + 1) where
  backed_add : (b : ℕ) → cookie_at t.heap b ≢ 0 → lookup (cookie_at t.heap b) t.services ≡ some b
  backed_add b =
      rw (cookies b, added)
        (elim (Bool-cases (a == b)) [
          | inl e ↦ rw e λ h.
              rw
                (
                  Assoc.lookup-insert s.next_id s.next_id a s.services (issued_fresh w),
                  ==_refl s.next_id,
                )
                (ap some (==→eq a b e))
          | inr e ↦ rw e λ h.
              rw
                (
                  Assoc.lookup-insert s.next_id (cookie_at s.heap b) a s.services (issued_fresh w),
                  ne→== s.next_id (cookie_at s.heap b) (λ q. other b q (w.backed b h)),
                )
                (w.backed b h)
        ])
    where
      other :
          (b : ℕ)
          → s.next_id ≡ cookie_at s.heap b
          → lookup (cookie_at s.heap b) s.services ≡ some b
          → ⊥
      other b q h = cc (issued_fresh w)

  Wf-add : Wf t
  Wf-add = record {
    linked = rw added (
        Assoc.All-insert (Linked t.heap) s.services s.next_id a
          (All-map (λ e p. kept e p) s.services w.linked)
          (rw (cookies a, ==_refl a) (refl, omega (arith, w.started))));
    distinct = rw added (
        Assoc.Distinct-insert s.services s.next_id a
          (Assoc.absent_keys s.services s.next_id w.issued) w.distinct);
    backed = backed_add;
    issued =
        rw (added, next)
          (Assoc.All-insert (λ e. e.0 < s.next_id + 1) s.services s.next_id a
            (All-map (λ e p. omega arith) s.services w.issued) (omega arith));
    started = omega arith;
  }
    where
      kept : (e : ℕ × ℕ) → Linked s.heap e → Linked t.heap e
      kept e p = (cookies e.1 ∙ ground (arith, p.0, p.1, free, ==→eq a e.1), p.1)

module _ {s : Machine} (t : Machine) (c a : ℕ) (w : Wf s) (held : lookup c s.services ≡ some a)
    (cookies : (b : ℕ) → cookie_at t.heap b ≡ (if a == b then 0 else cookie_at s.heap b))
    (dropped : t.services ≡ erase c s.services) (next : t.next_id ≡ s.next_id) where
  backed_drop : (b : ℕ) → cookie_at t.heap b ≢ 0 → lookup (cookie_at t.heap b) t.services ≡ some b
  backed_drop b =
      rw (cookies b, dropped)
        (elim (Bool-cases (a == b)) [
          | inl e ↦ rw e λ h. absurd (h refl)
          | inr e ↦ rw e λ h.
              rw
                (
                  Assoc.lookup-erase c (cookie_at s.heap b) s.services w.distinct,
                  ne→== c (cookie_at s.heap b) (λ q. ==→ne a b e (same b q (w.backed b h))),
                )
                (w.backed b h)
        ])
    where
      same :
          (b : ℕ) → c ≡ cookie_at s.heap b → lookup (cookie_at s.heap b) s.services ≡ some b → a ≡ b
      same b q h = ground (arith, held, q, h)

  Wf-drop : Wf t
  Wf-drop = record {
    linked = rw dropped (
        All-map₂ (λ e p q. kept e p q) (erase c s.services)
          (Assoc.All-erase (Linked s.heap) s.services c w.linked)
          (Assoc.erase_ne s.services c w.distinct));
    distinct = rw dropped (Assoc.Distinct-erase s.services c w.distinct);
    backed = backed_drop;
    issued = rw (dropped, next) (Assoc.All-erase (λ e. e.0 < s.next_id) s.services c w.issued);
    started = rw next w.started;
  }
    where
      kept : (e : ℕ × ℕ) → Linked s.heap e → c ≢ e.0 → Linked t.heap e
      kept e p q =
          (cookies e.1 ∙ ground (arith, p.0, p.1, (lookup-Linked c a w held).0, ==→eq a e.1), p.1)

-- The object and the state that a registration leaves.
abbrev pub cookied : Service → ℕ → Service
cookied o c = record o { cookie = c }

abbrev pub registered_object : Service → Bool → ℕ → Service
registered_object o start c = if start then start_service (cookied o c) else cookied o c

abbrev pub registered : ℕ → Service → Bool → Machine → Machine
registered a o start s =
    write a (registered_object o start s.next_id)
      (record (write a (cookied o s.next_id) (record s { next_id = (s.next_id + 1) % 2 ^ 64 })) {
        services = insert s.next_id a s.services;
      })

pub registered_heap :
    (a : ℕ) (o : Service) (start : Bool) (s : Machine) (b : ℕ)
    → (registered a o start s).heap b
      ≡ (if a == b then some (registered_object o start s.next_id) else s.heap b)
unfolding write update
registered_heap a o start s b = elim (Bool-cases (a == b)) [ inl e ↦ rw e | inr e ↦ rw e ]

-- An object that is in no table gets the next id, an entry under it and, if asked, its ticks.
pub register_fresh :
    (a : ℕ) (o : Service) (start : Bool) (s : Machine)
    → Wf s
    → s.heap a ≡ some o
    → o.cookie ≡ 0
    → register_timer_tick_service a start s ≡ (registered a o start s, ok s.next_id)
unfolding register_timer_tick_service
register_fresh a o start s w h z =
    rw
      (
        h,
        register_timer_tick_service,
        z,
        ne→== s.next_id 0 (λ e. absurd (omega (arith, w.started))),
        issued_fresh w,
        insert_service,
      )
      refl

-- A second registration is refused and changes nothing.
pub register_twice :
    (a : ℕ) (o : Service) (start : Bool) (s : Machine)
    → s.heap a ≡ some o
    → o.cookie ≢ 0
    → register_timer_tick_service a start s ≡ (s, throws Error.double_register)
unfolding register_timer_tick_service
register_twice a o start s h z = rw (h, register_timer_tick_service, ne→== o.cookie 0 z) refl

registered_object-cookie :
    (o : Service) (start : Bool) (c : ℕ) → (registered_object o start c).cookie ≡ c
unfolding start_service
registered_object-cookie o true c = refl
registered_object-cookie o false c = refl

cookie_at-eq :
    (heap : ℕ → Option Service) (a : ℕ) (o : Service)
    → heap a ≡ some o
    → cookie_at heap a ≡ o.cookie
unfolding cookie_at
cookie_at-eq heap a o h = rw (h, cookie_at)

registered-Wf :
    (a : ℕ) (o : Service) (start : Bool) (s : Machine)
    → Wf s
    → s.heap a ≡ some o
    → o.cookie ≡ 0
    → s.next_id + 1 < 2 ^ 64
    → Wf (registered a o start s)
unfolding write
registered-Wf a o start s w h z small =
    Wf-add (registered a o start s) a w (cookie_at-eq s.heap a o h ∙ z) cookies refl (omega arith)
  where
    cookies :
        (b : ℕ)
        → cookie_at (registered a o start s).heap b
          ≡ (if a == b then s.next_id else cookie_at s.heap b)
    cookies b =
        rw
          (
            cookie_at-update (update a (some (cookied o s.next_id)) s.heap) a b
                (registered_object o start s.next_id),
            cookie_at-update s.heap a b (cookied o s.next_id),
            registered_object-cookie o start s.next_id,
          )
          (ground arith)

-- Any registration, refused or not, keeps the table and the objects in agreement, as long as
-- fewer than 2 ^ 64 - 1 ids are issued.
pub register-Wf :
    (a : ℕ) (start : Bool) (s : Machine)
    → Wf s
    → s.next_id + 1 < 2 ^ 64
    → Wf (register_timer_tick_service a start s).0
unfolding register_timer_tick_service
register-Wf a start s w small = elim (Option-cases (s.heap a)) [
  | inl e ↦ rw (e, register_timer_tick_service) w
  | inr (o, e) ↦ elim (Bool-cases (o.cookie == 0)) [
    | inl z ↦
        subst (λ p. Wf p.0) (sym (register_fresh a o start s w e (==→eq o.cookie 0 z)))
          (registered-Wf a o start s w e (==→eq o.cookie 0 z) small)
    | inr z ↦ subst (λ p. Wf p.0) (sym (register_twice a o start s e (==→ne o.cookie 0 z))) w
  ]
]

abbrev unregistered : ℕ → ℕ → Service → Machine → Machine
unregistered c a o s =
    write a (record o { cookie = null_cookie; ticks_left = 0 })
      (record s { services = erase c s.services })

-- Unregistering an id always succeeds. It takes the id's entry out, leaves the others, and gives
-- the object its null cookie back; an id that is not in the table changes nothing.
pub unregister_lem :
    (c : ℕ) (s : Machine)
    → Wf s
    → let t = (unregister_timer_tick_service c s).0 in
      ((unregister_timer_tick_service c s).1 ≡ ok tt)
      × Wf t
      × ((j : ℕ) → lookup j t.services ≡ (if c == j then none else lookup j s.services))
      × ((a : ℕ) → lookup c s.services ≡ some a → cookie_at t.heap a ≡ 0)
      × (t.next_id ≡ s.next_id)
unfolding unregister_timer_tick_service
unregister_lem c s w = elim (Option-cases (lookup c s.services)) [
  | inl e ↦
      rw (e, unregister_timer_tick_service)
        (refl, w, λ j. ground (arith, e, ==→eq c j), λ a h. cc, refl)
  | inr (a, e) ↦
      let l : Linked s.heap (c, a) = lookup-Linked c a w e in
      let live = cookie_at-some s.heap a (λ z. l.1 (sym l.0 ∙ z)) in
      rw (e, live.1, unregister_timer_tick_service)
        (
          refl,
          Wf-drop (unregistered c a live.0 s) c a w e (λ b. cookie_at-update s.heap a b _) refl
              refl,
          λ j. Assoc.lookup-erase c j s.services w.distinct,
          λ b h. cookie_at-update s.heap a b _ ∙ ground (arith, h),
          refl,
        )
]
