-- ===== src/TimerTick/Tick.antt =====
-- One pass of the loop over the table: it reads no dangling pointer, and it ticks every registered
-- object exactly once, whatever the order of the table.
use mathlib.Core.Option
use oclock.Common.{
  subst, zero, suc, ℕ, ◌≡◌, ◌≢◌, refl, sym, ap, ◌∙◌, List, [], ◌∷◌, Bool, true, false, Option, none,
  some, arith, All, All-map, ◌==◌, if◌then◌else◌, Bool-cases, inl, inr, ==→eq, ==→ne, ne→==, ◌||◌,
}
use oclock.Common.Assoc.{lookup, keys, update, Distinct}
use oclock.TimerTick.{
  Service, Machine, tick_object, tick_registry, tick_service, tick_loop, tick, start_service,
}
use oclock.TimerTick.Wf.{Wf, Wf-same, Linked, cookie_at, cookie_at-update, cookie_at-some}

pub tick_object-cookie : (o : Service) → (tick_object o).cookie ≡ o.cookie
unfolding tick_object start_service
tick_object-cookie o = ground arith

has_address : ℕ → List (ℕ × ℕ) → Bool
has_address a [] = false
has_address a ((c, b) ∷ es) = (b == a) || has_address a es

has_address-lookup : (c a : ℕ) (es : List (ℕ × ℕ)) → lookup c es ≡ some a → has_address a es ≡ true
unfolding has_address lookup
has_address-lookup c a [] h = cc
has_address-lookup c a ((d, b) ∷ es) h = ground (arith, has_address-lookup c a es)

has_address_free :
    (heap : ℕ → Option Service) (a : ℕ) (es : List (ℕ × ℕ))
    → All (λ e. cookie_at heap a ≢ e.0) es
    → All (Linked heap) es
    → has_address a es ≡ false
unfolding has_address
has_address_free heap a [] n l = refl
has_address_free heap a ((c, b) ∷ es) n l =
    rw (ne→== b a (λ q. n.0 (subst (λ x. cookie_at heap x ≡ c) q l.0.0)))
      (has_address_free heap a es n.1 l.1)

absent_entries : (es : List (ℕ × ℕ)) (i : ℕ) → All (λ y. i ≢ y) (keys es) → All (λ e. i ≢ e.0) es
absent_entries [] i h = tt
absent_entries (e ∷ es) i h = (h.0, absent_entries es i h.1)

-- What a pass over part of the table does.
pub record Ticked (s t : Machine) (visits : ℕ → Bool) : Type 0 where
  pub same_services : t.services ≡ s.services
  pub same_next : t.next_id ≡ s.next_id
  pub objects :
      (a : ℕ) → t.heap a ≡ (if visits a then Option.map tick_object (s.heap a) else s.heap a)

abbrev after_service : ℕ → Service → Machine → Machine
after_service a o s = record s {
  heap = update a (some (tick_object o)) s.heap;
  registry = tick_registry o s.cond_function s.registry;
}

update-map :
    (heap : ℕ → Option Service) (a b : ℕ) (o : Service)
    → heap a ≡ some o
    → update a (some (tick_object o)) heap b
      ≡ (if a == b then Option.map tick_object (heap b) else heap b)
unfolding update
update-map heap a b o h = elim (Bool-cases (a == b)) [
  | inl e ↦ rw (e, ← ==→eq a b e, h)
  | inr e ↦ rw e
]

tick_object-cookie_at :
    (heap : ℕ → Option Service) (a b : ℕ) (o : Service)
    → heap a ≡ some o
    → cookie_at (update a (some (tick_object o)) heap) b ≡ cookie_at heap b
unfolding cookie_at
tick_object-cookie_at heap a b o h = elim (Bool-cases (a == b)) [
  | inl e ↦
      rw (cookie_at-update heap a b (tick_object o), e, ← ==→eq a b e, tick_object-cookie o)
        (rw (h, cookie_at))
  | inr e ↦ rw (cookie_at-update heap a b (tick_object o), e)
]

tick_loop-cons :
    (c a : ℕ) (es : List (ℕ × ℕ)) (s : Machine) (o : Service)
    → s.heap a ≡ some o
    → tick_loop ((c, a) ∷ es) s ≡ tick_loop es (after_service a o s)
unfolding tick_loop
tick_loop-cons c a es s o h = rw (tick_loop, tick_service, h)

tick_loop-Ticked :
    (es : List (ℕ × ℕ)) (s : Machine)
    → All (Linked s.heap) es
    → Distinct (keys es)
    → (t : Machine) × (tick_loop es s ≡ some t) × Ticked s t (λ a. has_address a es)
unfolding tick_loop has_address
tick_loop-Ticked [] s l d =
    (s, refl, record { same_services = refl; same_next = refl; objects = λ a. refl })
tick_loop-Ticked ((c, a) ∷ es) s l d =
    let live = cookie_at-some s.heap a (λ z. l.0.1 (sym l.0.0 ∙ z)) in
    let o = live.0 in
    let s1 = after_service a o s in
    let linked : All (Linked s1.heap) es =
      All-map (λ e p. (tick_object-cookie_at s.heap a e.1 o live.1 ∙ p.0, p.1)) es l.1 in
    let rest = tick_loop-Ticked es s1 linked d.1 in
    let once : has_address a es ≡ false =
      has_address_free s.heap a es (rw l.0.0 (absent_entries es c d.0)) l.1 in
    (
      rest.0,
      tick_loop-cons c a es s o live.1 ∙ rest.1,
      record {
        same_services = rest.2.same_services;
        same_next = rest.2.same_next;
        objects = λ b. rest.2.objects b ∙ split a es b s o live.1 once;
      },
    )
  where
    split :
        (a : ℕ) (es : List (ℕ × ℕ)) (b : ℕ) (s : Machine) (o : Service)
        → s.heap a ≡ some o
        → has_address a es ≡ false
        → (if has_address b es
            then Option.map tick_object (update a (some (tick_object o)) s.heap b)
            else update a (some (tick_object o)) s.heap b)
          ≡ (if (a == b) || has_address b es then Option.map tick_object (s.heap b) else s.heap b)
    split a es b s o h once = elim (Bool-cases (a == b)) [
      | inl e ↦ rw (update-map s.heap a b o h, e, ← ==→eq a b e, once) refl
      | inr e ↦ rw (update-map s.heap a b o h, e) refl
    ]

has_address-cookie :
    (s : Machine) (a : ℕ)
    → Wf s
    → has_address a s.services ≡ (if cookie_at s.heap a == 0 then false else true)
has_address-cookie s a w = elim (Bool-cases (cookie_at s.heap a == 0)) [
  | inl e ↦ rw e (
      has_address_free s.heap a s.services
        (All-map (λ x p q. p.1 (sym q ∙ ==→eq (cookie_at s.heap a) 0 e)) s.services w.linked)
        w.linked)
  | inr e ↦ rw e (
      has_address-lookup (cookie_at s.heap a) a s.services
        (w.backed a (==→ne (cookie_at s.heap a) 0 e)))
]

-- The objects after a pass over the whole table.
abbrev pub ticked_heap : (Service → Service) → (ℕ → Option Service) → ℕ → Option Service
ticked_heap f heap a = if cookie_at heap a == 0 then heap a else Option.map f (heap a)

visit-eq :
    (s t : Machine) (w : Wf s)
    → Ticked s t (λ a. has_address a s.services)
    → (a : ℕ) → t.heap a ≡ ticked_heap tick_object s.heap a
visit-eq s t w k a = k.objects a ∙ rw (has_address-cookie s a w) (if_swap (cookie_at s.heap a == 0))
  where
    if_swap :
        (b : Bool)
        → (if (if b then false else true) then Option.map tick_object (s.heap a) else s.heap a)
          ≡ (if b then s.heap a else Option.map tick_object (s.heap a))
    if_swap true = refl
    if_swap false = refl

pub ticked_heap-cookie_at :
    (f : Service → Service)
    → ((o : Service) → (f o).cookie ≡ o.cookie)
    → (heap heap' : ℕ → Option Service) → ((a : ℕ) → heap' a ≡ ticked_heap f heap a)
    → (a : ℕ) → cookie_at heap' a ≡ cookie_at heap a
unfolding cookie_at
ticked_heap-cookie_at f keep heap heap' h a = elim (Bool-cases (cookie_at heap a == 0)) [
  | inl e ↦ let p : heap' a ≡ heap a = h a ∙ rw e in ap cookie_of p
  | inr e ↦ let p : heap' a ≡ Option.map f (heap a) = h a ∙ rw e in ap cookie_of p ∙ mapped (heap a)
]
  where
    cookie_of : Option Service → ℕ
    cookie_of x = elim x [ none ↦ 0 | some o ↦ o.cookie ]

    mapped : (x : Option Service) → cookie_of (Option.map f x) ≡ cookie_of x
    mapped none = refl
    mapped (some o) = keep o

-- A pass of the loop succeeds on every table that agrees with its objects: no entry dangles. The
-- table stays as it is and agrees with the objects again, every registered object is ticked exactly
-- once, and an object that is not registered stays as it is.
pub tick_lem :
    (s : Machine)
    → Wf s
    → (t : Machine) × (tick s ≡ some t)
      × Wf t
      × (t.services ≡ s.services)
      × ((a : ℕ) → t.heap a ≡ ticked_heap tick_object s.heap a)
unfolding tick
tick_lem s w =
    let k = tick_loop-Ticked s.services s w.linked w.distinct in
    let h = visit-eq s k.0 w k.2 in
    (
      k.0,
      k.1,
      Wf-same (ticked_heap-cookie_at tick_object tick_object-cookie s.heap (k.0).heap h)
          k.2.same_services k.2.same_next w,
      k.2.same_services,
      h,
    )

unfoldable pub iterate {ℓ} : {A : Type ℓ} → ℕ → (A → A) → A → A
iterate zero f x = x
iterate (suc n) f x = iterate n f (f x)

pub iterate-suc {ℓ} :
    {A : Type ℓ} (n : ℕ) (f : A → A) (x : A) → iterate (suc n) f x ≡ f (iterate n f x)
unfolding iterate
iterate-suc zero f x = refl
iterate-suc (suc n) f x = iterate-suc n f (f x)

pub ticked_heap_twice :
    (f g : Service → Service)
    → ((o : Service) → (f o).cookie ≡ o.cookie)
    → (heap mid : ℕ → Option Service) → ((a : ℕ) → mid a ≡ ticked_heap f heap a)
    → (a : ℕ) → ticked_heap g mid a ≡ ticked_heap (λ o. g (f o)) heap a
ticked_heap_twice f g keep heap mid h a =
    rw (ticked_heap-cookie_at f keep heap mid h a, h a)
      (elim (Bool-cases (cookie_at heap a == 0)) [ inl e ↦ rw e | inr e ↦ rw e (mapped (heap a)) ])
  where
    mapped : (x : Option Service) → Option.map g (Option.map f x) ≡ Option.map (λ o. g (f o)) x
    mapped none = refl
    mapped (some o) = refl
