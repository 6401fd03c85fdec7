-- ===== src/TimerTick/Wf.antt =====
-- The table and the service objects agree, and every method keeps them so.
use oclock.Common.{
  ℕ, ◌<◌, ◌≡◌, ◌≢◌, refl, ◌∙◌, List, Option, none, some, arith, All, All-map, ◌==◌, if◌then◌else◌,
  Option-cases, Bool-cases, inl, inr, ==→eq,
}
use oclock.Common.Assoc.{lookup, insert, erase, keys, update, Distinct}
use oclock.Common.Assoc
use oclock.TimerTick.{Service, Machine, start_timer_tick_service, start_service}

-- The cookie of the object at an address, and the null cookie where there is no object.
unfoldable pub cookie_at : (ℕ → Option Service) → ℕ → ℕ
cookie_at heap a = elim (heap a) [ none ↦ 0 | some o ↦ o.cookie ]

-- The entry of the table leads to an object that carries the entry's id.
abbrev pub Linked : (ℕ → Option Service) → ℕ × ℕ → Type 0
Linked heap e = (cookie_at heap e.1 ≡ e.0) × (e.0 ≢ 0)

-- Ids have not wrapped round: the table's are below the next one.
pub record Wf (s : Machine) : Type 0 where
  pub linked : All (Linked s.heap) s.services
  pub distinct : Distinct (keys s.services)
  pub backed : (a : ℕ) → cookie_at s.heap a ≢ 0 → lookup (cookie_at s.heap a) s.services ≡ some a
  pub issued : All (λ e. e.0 < s.next_id) s.services
  pub started : 0 < s.next_id

pub cookie_at-update :
    (heap : ℕ → Option Service) (a b : ℕ) (o : Service)
    → cookie_at (update a (some o) heap) b ≡ (if a == b then o.cookie else cookie_at heap b)
unfolding cookie_at update
cookie_at-update heap a b o = elim (Bool-cases (a == b)) [
  | inl e ↦ rw (e, cookie_at)
  | inr e ↦ rw (e, cookie_at)
]

-- A lookup gives an entry that is linked.
pub lookup-Linked :
    {s : Machine} (c a : ℕ) → Wf s → lookup c s.services ≡ some a → Linked s.heap (c, a)
lookup-Linked {s} c a w e = Assoc.lookup-All (Linked s.heap) s.services c w.linked e

-- A registered object is there to be read.
pub cookie_at-some :
    (heap : ℕ → Option Service) (a : ℕ)
    → cookie_at heap a ≢ 0
    → (o : Service) × (heap a ≡ some o) × (o.cookie ≡ cookie_at heap a)
unfolding cookie_at
cookie_at-some heap a h = elim (Option-cases (heap a)) [
  | inl e ↦ absurd (h (rw (e, cookie_at)))
  | inr (o, e) ↦ (o, e, rw (e, cookie_at))
]

-- A write that keeps the cookie of a live object keeps the agreement.
Linked-same :
    (heap heap' : ℕ → Option Service)
    → ((a : ℕ) → cookie_at heap' a ≡ cookie_at heap a)
    → (m : List (ℕ × ℕ)) → All (Linked heap) m
    → All (Linked heap') m
Linked-same heap heap' h m l = All-map (λ e p. (h e.1 ∙ p.0, p.1)) m l

pub Wf-same :
    {s t : Machine}
    → ((a : ℕ) → cookie_at t.heap a ≡ cookie_at s.heap a)
    → t.services ≡ s.services
    → t.next_id ≡ s.next_id
    → Wf s
    → Wf t
Wf-same {s} {t} h e n w = record {
  linked = rw e (Linked-same s.heap t.heap h s.services w.linked);
  distinct = rw e w.distinct;
  backed = λ a p. rw (e, h a) (w.backed a (rw (← h a) p));
  issued = rw (e, n) w.issued;
  started = rw n w.started;
}

-- Starting any id, in the table or not, keeps the table and the objects in agreement.
pub start-Wf : (c : ℕ) (s : Machine) → Wf s → Wf (start_timer_tick_service c s).0
unfolding start_timer_tick_service
start-Wf c s w = elim (Option-cases (lookup c s.services)) [
  | inl e ↦ rw (e, start_timer_tick_service) w
  | inr (a, e) ↦ elim (Option-cases (s.heap a)) [
    | inl d ↦ rw (e, d, start_timer_tick_service) w
    | inr (o, d) ↦ rw (e, d, start_timer_tick_service) (Wf-same (λ b. same a o d b) refl refl w)
  ]
]
  where
    same :
        (a : ℕ) (o : Service)
        → s.heap a ≡ some o
        → (b : ℕ) → cookie_at (update a (some (start_service o)) s.heap) b ≡ cookie_at s.heap b
    same a o d b =
        rw (cookie_at-update s.heap a b (start_service o))
          (unfold cookie_at start_service in ground (arith, d, ==→eq a b))
