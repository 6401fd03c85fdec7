-- ===== src/Dictionary.antt =====
-- The dictionary of values with an expiry: dictionary.h and dictionary.cpp, with getParamValue of
-- commonUtils.cpp. Every method that reads or writes the table holds `instanceMutex`, so it is one step;
-- `parsePostRequest` takes it once for the removal and once for the addition, and is modelled here without
-- another thread in between. An entry owns a timer
-- service object, which the tick service ticks; it lies in the machine's memory.
mod Tests
pub mod Memory
pub mod Sound
pub mod Access
pub mod Visit
pub mod Next
pub mod Visiting
pub mod Adding
pub mod Clearing
pub mod Post
use oclock.Common.{
  ℕ, zero, suc, ◌+◌, ◌%◌, ◌^◌, List, [], ◌∷◌, Bool, true, false, not, ◌&&◌, ◌||◌, Option, none,
  some, ◌==◌, if◌then◌else◌, length,
}
use oclock.Common.Assoc.{update}
use oclock.Common.Int.{ℤ, pos, negsuc, is_negative}
use oclock.Common.Str.{Str, str, str_eq}
use oclock.Common.SortedMap.{find, insert, erase, upper_bound}
use oclock.Common.Stoi.{stoi}
use mathlib.Core.Option
use oclock.TimerTick.{
  Machine, Service, Result, Error, ok, throws, Trigger, new_service, write, get_is_expired,
  register_timer_tick_service, unregister_timer_tick_service,
}

abbrev pub StringMap : Type 0
StringMap = List (Str × Str)

-- `DictionaryData`: the value, and the address of the timer service that is a part of it.
pub record DictionaryData : Type 0 where
  pub value : Str
  pub service : ℕ

pub record DictionaryStatus : Type 0 where
  pub ticks : ℕ
  pub entries_added : ℕ
  pub entries_removed : ℕ
  pub entries_expired : ℕ

-- Memory from `next_address` on has not been used.
pub record Dictionary : Type 0 where
  pub dictionary_entries : List (Str × DictionaryData)
  pub dictionary_status : DictionaryStatus
  pub machine : Machine
  pub next_address : ℕ

abbrev pub no_data : Str
no_data = []

unfoldable pub is_no_expiration : ℤ → Bool
is_no_expiration (pos n) = false
is_no_expiration (negsuc n) = n == 0

-- `getIsExpired` of an entry, on its timer service.
unfoldable pub data_is_expired : Service → Bool
unfolding is_no_expiration get_is_expired
data_is_expired o = if is_no_expiration o.interval then false else get_is_expired o

unfoldable pub free : ℕ → Machine → Machine
unfolding update
free a m = record m { heap = update a none m.heap }

-- `new DictionaryData`: an exception of the registration frees the object again.
unfoldable pub new_data : ℕ → ℤ → Machine → Machine × Result (Unit {0})
unfolding new_service write free
new_data a interval m =
    let fresh = write a (new_service interval false (Trigger.flag false)) m in
    if is_negative interval
    then (fresh, ok tt)
    else let (m', result) = register_timer_tick_service a true fresh in
      elim result [ ok _ ↦ (m', ok tt) | throws e ↦ (free a m', throws e) ]

-- `delete` of an entry: the destructor unregisters the service, whether it is registered or not.
unfoldable pub delete_data : ℕ → Machine → Machine × Result (Unit {0})
unfolding free
delete_data a m = elim (m.heap a) [
  | none ↦ (m, throws Error.dangling)
  | some o ↦
      let (m', result) = unregister_timer_tick_service o.cookie m in
      elim result [ ok _ ↦ (free a m', ok tt) | throws e ↦ (m', throws e) ]
]

pub count_removed : ℕ → Dictionary → Dictionary
count_removed n d = record d {
  dictionary_status = record (d.dictionary_status) {
    entries_removed = (d.dictionary_status.entries_removed + n) % 2 ^ 32;
  };
}

count_expired : Dictionary → Dictionary
count_expired d = record d {
  dictionary_status = record (d.dictionary_status) {
    entries_expired = (d.dictionary_status.entries_expired + 1) % 2 ^ 32;
  };
}

count_added : Dictionary → Dictionary
count_added d = record d {
  dictionary_status = record (d.dictionary_status) {
    entries_added = (d.dictionary_status.entries_added + 1) % 2 ^ 32;
  };
}

-- Methods as actions on the dictionary: an exception ends the method and keeps the state.
abbrev pub M : Type 0 → Type 0
M A = Dictionary → Dictionary × Result A

abbrev pub and_then : {A B : Type 0} → Dictionary × Result A → (A → M B) → Dictionary × Result B
and_then (d, ok a) f = f a d
and_then (d, throws e) f = (d, throws e)

infixl 5 ◌>>=◌ ◌>>◌
abbrev pub ◌>>=◌ : {A B : Type 0} → M A → (A → M B) → M B
◌>>=◌ m f d = and_then (m d) f

abbrev pub ◌>>◌ : {B : Type 0} → M (Unit {0}) → M B → M B
m >> k = m >>= λ _. k

abbrev pub pure : {A : Type 0} → A → M A
pure a d = (d, ok a)

abbrev pub throw : {A : Type 0} → Error → M A
throw e d = (d, throws e)

abbrev pub modify : (Dictionary → Dictionary) → M (Unit {0})
modify f d = (f d, ok tt)

abbrev pub with_machine : {A : Type 0} → Dictionary → Machine × Result A → Dictionary × Result A
with_machine d (m, r) = (record d { machine = m }, r)

abbrev pub on_machine : {A : Type 0} → (Machine → Machine × Result A) → M A
on_machine f d = with_machine d (f d.machine)

pub erase_key : Str → Dictionary → Dictionary
unfolding erase
erase_key key d = record d { dictionary_entries = erase key d.dictionary_entries }

-- `_remove` of the entry at a key.
pub remove_entry : Str → DictionaryData → M (Unit {0})
unfolding count_removed erase_key
remove_entry key e = do
  modify (erase_key key)
  on_machine (delete_data e.service)
  modify (count_removed 1)

-- `some` is a value that was found; `none` stands for `noData` with `found` false.
expired_entry : Str → DictionaryData → M (Option Str)
unfolding remove_entry count_expired
expired_entry key e = do modify count_expired; remove_entry key e; pure none

found_entry : Str → DictionaryData → M (Option Str)
unfolding expired_entry data_is_expired
found_entry key e d = elim (d.machine.heap e.service) [
  | none ↦ throw Error.dangling d
  | some o ↦ if data_is_expired o then expired_entry key e d else pure (some e.value) d
]

unfoldable pub get : Str → M (Option Str)
unfolding found_entry find
get key d = elim (find key d.dictionary_entries) [
  | none ↦ pure none d
  | some e ↦ found_entry key e d
]

insert_data : Str → Str → ℕ → Dictionary → Dictionary
unfolding count_added insert
insert_data key value a d = count_added (record d {
  dictionary_entries = insert key (record { value = value; service = a }) d.dictionary_entries;
})

-- The memory that `new` gives has not been used before.
allocate : M ℕ
allocate d = (record d { next_address = d.next_address + 1 }, ok d.next_address)

pub insert_entry : Str → Str → ℤ → M Bool
unfolding insert_data allocate new_data
insert_entry key value interval = do
  a ← allocate
  on_machine (new_data a interval)
  modify (insert_data key value a)
  pure true

add_absent : Str → Str → ℤ → Option Str → M Bool
unfolding insert_entry
add_absent key value interval (some _) = pure false
add_absent key value interval none = insert_entry key value interval

unfoldable pub add : Str → Str → ℤ → M Bool
unfolding add_absent get
add key value interval =
    if str_eq key [] then pure false else get key >>= add_absent key value interval

unfoldable pub remove : Str → M Bool
unfolding remove_entry find
remove key d = elim (find key d.dictionary_entries) [
  | none ↦ pure false d
  | some e ↦ (remove_entry key e >> pure true) d
]

-- The loop of `clear` over the entries.
pub delete_all : List (Str × DictionaryData) → M (Unit {0})
unfolding delete_data
delete_all [] = pure tt
delete_all ((k, e) ∷ es) = on_machine (delete_data e.service) >> delete_all es

erase_all : Dictionary → Dictionary
erase_all d = record d { dictionary_entries = [] }

unfoldable pub clear : M (Unit {0})
unfolding delete_all count_removed erase_all
clear d =
    let n = length d.dictionary_entries in
    (do delete_all d.dictionary_entries; modify erase_all; modify (count_removed n)) d

unfoldable pub empty : Dictionary → Bool
empty d = elim d.dictionary_entries [ [] ↦ true | _ ∷ _ ↦ false ]

unfoldable pub size : Dictionary → ℕ
size d = length d.dictionary_entries

abbrev pub param_operation : Str
param_operation = str "dictionaryOperation"

abbrev pub param_key : Str
param_key = str "dictionaryKey"

abbrev pub param_data : Str
param_data = str "dictionaryData"

abbrev pub param_timeout : Str
param_timeout = str "dictionaryTimeout"

abbrev pub operation_set : Str
operation_set = str "set"

abbrev pub operation_add : Str
operation_add = str "add"

abbrev pub operation_del : Str
operation_del = str "del"

abbrev pub is_given : Option Str → Bool
is_given none = false
is_given (some _) = true

-- `try { return add(…); } catch (...) { return false; }`, where `stoi` may throw too.
caught : Dictionary × Result Bool → Dictionary × Result Bool
caught (d, ok b) = (d, ok b)
caught (d, throws e) = (d, ok false)

try_add : Str → Str → Option ℤ → M Bool
unfolding caught
try_add key value none d = (d, ok false)
try_add key value (some i) d = caught (add key value i d)

-- What is removed before a value is added, if anything.
remove_first : Str → Str → M (Unit {0})
unfolding clear remove
remove_first operation key =
    if str_eq operation operation_del || str_eq operation operation_set
    then if str_eq operation operation_del && str_eq key []
      then clear
      else (remove key >>= λ _. pure tt)
    else pure tt

-- A request with the parameters that it gives, and the defaults of the operation and the timeout.
request : Option Str → Option Str → Str → Str → M Bool
unfolding remove_first try_add stoi
request key value operation interval_str =
    let is_del = str_eq operation operation_del in
    if not (is_given key) && not is_del
    then pure false
    else if not (is_given value) && not is_del
    then pure false
    else if not is_del
        && not (str_eq operation operation_set)
        && not (str_eq operation operation_add)
    then pure false
    else (remove_first operation (Option.get_or key [])
        >> (if is_del
            then pure true
            else try_add (Option.get_or key []) (Option.get_or value no_data) (stoi interval_str)))

unfoldable pub parse_post_request : StringMap → M Bool
unfolding request find
parse_post_request p =
    request (find param_key p) (find param_data p)
      (Option.get_or (find param_operation p) operation_set)
      (Option.get_or (find param_timeout p) (str "-1"))
