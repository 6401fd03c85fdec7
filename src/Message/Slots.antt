-- ===== src/Message/Slots.antt =====
-- The slots of the background images under a request.
use oclock.Common.{
  ℕ, ◌<◌, ◌≡◌, ◌≢◌, List, [], ◌∷◌, length, get_or, ◌⊎◌, Option, some, ltb, if◌then◌else◌,
}
use oclock.Common.Int.{ℤ, pos, negsuc}
use oclock.Common.Str.{Str, str}
use oclock.Common.Decimal.{cast_int}
use oclock.Common.AutoBase.{strtoul_10}
use oclock.LedStrip.Params.{StringMap}
use oclock.Message.Background.{BackgroundImg, ImgPost, init_background_img, is_key}

-- A slot is as it was, or cleared.
abbrev pub IsKept : BackgroundImg → BackgroundImg → Type 0
IsKept before after = (after ≡ before) ⊎ (after ≡ init_background_img before)

record Progress (slots : List BackgroundImg) (n : ℕ) (p : ImgPost) : Type 0 where
  at : p.index ≡ n
  count : length p.slots ≡ length slots
  kept :
      (j : ℕ) (d : BackgroundImg)
      → j < length slots
      → IsKept (get_or slots j d) (get_or p.slots j d)

-- The slot that a number names: itself below a hundred, otherwise the first.
abbrev pub named_slot : ℤ → ℕ
named_slot (negsuc n) = 0
named_slot (pos n) = if ltb n 100 then n else 0

next_slot : Str → Str → ℕ → ℕ
next_slot key value n =
    if is_key key (str "index") then named_slot (cast_int (strtoul_10 value)) else n

-- The slot of the last value of a request that is an index; the first, if there is none.
unfoldable pub wanted_slot : StringMap → ℕ → ℕ
unfolding next_slot
wanted_slot [] n = n
wanted_slot ((key, value) ∷ rest) n = wanted_slot rest (next_slot key value n)

-- The slots behind a request that writes the slot `index` and no other.
pub record IsFilled (slots : List BackgroundImg) (index : ℕ) (o : Option (List BackgroundImg))
    : Type 0 where
  pub result : List BackgroundImg
  pub succeeds : o ≡ some result
  pub count : length result ≡ length slots
  pub others :
      (j : ℕ) (d : BackgroundImg)
      → j < length slots
      → index ≢ j
      → IsKept (get_or slots j d) (get_or result j d)
