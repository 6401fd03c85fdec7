-- ===== src/Dictionary/Visit.antt =====
-- Visiting the entries in the order of their keys: `getFirst`, `getNext`, the purge of expired entries and the tick
-- of the dictionary's thread, in dictionary.cpp. The loops run on fuel.
use oclock.Common.{ℕ, zero, suc, ◌+◌, ◌%◌, ◌^◌, List, [], ◌∷◌, length, Option, none, some}
use oclock.Common.Str.{Str}
use oclock.Common.SortedMap.{upper_bound}
use oclock.TimerTick.{Result}
use oclock.Dictionary.{Dictionary, DictionaryStatus, M, pure, and_then, modify, get}

-- What `getNext` gives: the next key with its value, or the end.
pub data Next : Type 0 where
  out_of_fuel at_end : Next
  at_key : Str → Str → Next

unfoldable pub get_next : ℕ → Str → M Next
unfolding get upper_bound
get_next zero key d = pure Next.out_of_fuel d
get_next (suc f) key d = elim (upper_bound key d.dictionary_entries) [
  | none ↦ pure Next.at_end d
  | some e ↦
      and_then (get e.0 d)
        (λ found. elim found [ none ↦ get_next f e.0 | some value ↦ pure (Next.at_key e.0 value) ])
]

unfoldable pub get_first : ℕ → M Next
unfolding get_next
get_first f = get_next f []

-- The loop of `getFirst` and `getNext` until nothing is found, with what it finds after a key. none is the
-- end of the fuel.
unfoldable pub visit : ℕ → Str → M (Option (List (Str × Str)))
unfolding get_next
visit zero key d = pure none d
visit (suc f) key d = and_then (get_next (suc f) key d) (λ next. elim next [
  | Next.out_of_fuel ↦ pure none
  | Next.at_end ↦ pure (some [])
  | Next.at_key k value ↦ λ d'.
      and_then (visit f k d')
        (λ found. elim found [ none ↦ pure none | some rest ↦ pure (some ((k, value) ∷ rest)) ])
])

unfoldable pub visit_all : Dictionary → Dictionary × Result (Option (List (Str × Str)))
unfolding visit
visit_all d = visit (length d.dictionary_entries + 1) [] d

-- The purge drops what it finds.
unfoldable pub purge_expired_dictionary_entries : M (Unit {0})
unfolding visit_all
purge_expired_dictionary_entries d = and_then (visit_all d) (λ found. pure tt)

unfoldable pub get_dictionary_status : Dictionary → DictionaryStatus
get_dictionary_status d = d.dictionary_status

count_tick : Dictionary → Dictionary
count_tick d = record d {
  dictionary_status = record (d.dictionary_status) {
    ticks = (d.dictionary_status.ticks + 1) % 2 ^ 32;
  };
}

-- The thread's loop on the message of its timer.
unfoldable pub on_timer_tick : M (Unit {0})
unfolding purge_expired_dictionary_entries count_tick
on_timer_tick d = and_then (purge_expired_dictionary_entries d) (λ u. modify count_tick)
