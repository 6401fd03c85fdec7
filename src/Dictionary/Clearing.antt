-- ===== src/Dictionary/Clearing.antt =====
-- `clear`: every entry's service is unregistered and freed, once.
use oclock.Common.{
  ℕ, ◌≡◌, ◌≢◌, refl, ap, subst, ◌∙◌, none, arith, ◌==◌, Bool-cases, inl, inr, ==→eq, ==→ne, [], ◌∷◌,
  All, All-map₂, length,
}
use oclock.Common.Assoc.{Distinct}
use oclock.Common.Str.{Str}
use oclock.Common.SortedMap.{find}
use oclock.TimerTick.{Machine, ok}
use oclock.TimerTick.Wf.{Wf}
use oclock.Dictionary.{
  Dictionary, delete_all, clear, and_then, with_machine, modify, count_removed, erase_all, ◌>>◌,
}
use oclock.Dictionary.Memory.{delete_data_lem, SameBut}
use oclock.Dictionary.Sound.{IsSound, IsLive, Entries, services_of, view, view_of}

of_services : (P : ℕ → Type 0) (m : Entries) → All P (services_of m) → All (λ e. P (e.1.service)) m
of_services P [] h = tt
of_services P (e ∷ m) h = (h.0, of_services P m h.1)

delete_all_lem :
    (es : Entries) (d : Dictionary)
    → Wf d.machine
    → All (IsLive d.machine.heap) es
    → Distinct (services_of es)
    → (m : Machine) × (delete_all es d ≡ (record d { machine = m }, ok tt))
      × Wf m
      × ((a : ℕ) → d.machine.heap a ≡ none → m.heap a ≡ none)
      × (m.next_id ≡ d.machine.next_id)
unfolding delete_all
delete_all_lem [] d w l n = (d.machine, refl, w, λ a h. h, refl)
delete_all_lem ((k, e) ∷ es) d w l n =
    let r = delete_data_lem d.machine e.service (l.0).0 w (l.0).1 in
    let d1 = record d { machine = r.0 } in
    let live : All (IsLive (r.0).heap) es =
      All-map₂ (λ x p q. (p.0, r.4 (x.1.service) q ∙ p.1)) es l.1
        (of_services (λ a. e.service ≢ a) es n.0) in
    let rest = delete_all_lem es d1 r.2 live n.1 in
    (
      rest.0,
      ap (λ p. and_then (with_machine d p) (λ _. delete_all es)) r.1 ∙ rest.1,
      rest.2,
      λ a h. rest.3 a (still r.0 a r.4 r.3 h),
      rest.4 ∙ r.5,
    )
  where
    still :
        (m : Machine) (a : ℕ)
        → SameBut e.service d.machine m
        → m.heap e.service ≡ none
        → d.machine.heap a ≡ none
        → m.heap a ≡ none
    still m a s f h = elim (Bool-cases (e.service == a)) [
      | inl q ↦ subst (λ x. m.heap x ≡ none) (==→eq e.service a q) f
      | inr q ↦ s a (==→ne e.service a q) ∙ h
    ]

-- `clear` never fails. It leaves a sound dictionary with no entry, in which a reader finds
-- nothing, and counts each entry as removed.
pub clear_lem :
    (d : Dictionary)
    → IsSound d
    → (d' : Dictionary) × (clear d ≡ (d', ok tt))
      × IsSound d'
      × (d'.dictionary_entries ≡ [])
      × ((k : Str) → view d' k ≡ none)
      × (d'.machine.next_id ≡ d.machine.next_id)
unfolding clear view_of find
clear_lem d s =
    let n = length d.dictionary_entries in
    let r = delete_all_lem d.dictionary_entries d s.machine s.live s.own_services in
    (
      count_removed n (erase_all (record d { machine = r.0 })),
      ap (λ p. and_then p (λ _. modify erase_all >> modify (count_removed n))) r.1,
      record {
        machine = r.2;
        sorted = tt;
        live = tt;
        own_services = tt;
        unused = λ a p. r.3 a (s.unused a p);
        counted = omega (arith, s.counted);
      },
      refl,
      λ k. refl,
      r.4,
    )
