-- ===== src/Message/Background.antt =====
-- The background images: their slots and the request that fills one, in displayInternal.cpp.
use oclock.Common.{
  ℕ, ◌%◌, ◌^◌, List, [], ◌∷◌, map, set, Bool, true, false, ◌&&◌, leb, ltb, length, Option, none,
  some, ◌==◌, if◌then◌else◌,
}
use oclock.Common.Int.{ℤ, pos, negsuc}
use oclock.Common.Str.{lower, Str, str, until_nul}
use oclock.Common.Decimal.{cast_int}
use oclock.Common.AutoBase.{strtoul_10}
use oclock.LedStrip.Params.{StringMap, parse_boolean_value}
use oclock.Message.{Animation, AnimationStep}

pub record BackgroundImg : Type 0 where
  pub enabled : Bool
  pub display_color : ℕ
  pub img_art : ℕ
  pub x : ℤ
  pub y : ℤ
  pub animation : Animation

abbrev pub background_img_count : ℕ
background_img_count = 100

abbrev pub img_art_last : ℕ
img_art_last = 45

-- A slot that is cleared keeps its animation.
unfoldable pub init_background_img : BackgroundImg → BackgroundImg
init_background_img i = record i {
  enabled = false;
  display_color = 2;
  img_art = img_art_last;
  x = pos 0;
  y = pos 0;
}

-- The image of `memset`.
abbrev pub zero_img : BackgroundImg
zero_img = record {
  enabled = false;
  display_color = 0;
  img_art = 0;
  x = pos 0;
  y = pos 0;
  animation = record {
    animation_step = AnimationStep.none;
    animation_step_phase = 0;
    animation_step_phase_value = 0;
  };
}

is_prefix : Str → Str → Bool
unfolding lower
is_prefix [] name = true
is_prefix (k ∷ ks) [] = false
is_prefix (k ∷ ks) (n ∷ ns) = lower k == lower n && is_prefix ks ns

-- `strncasecmp(key, name, strlen(key)) == 0`: a key is taken for a name that it begins.
unfoldable pub is_key : Str → Str → Bool
unfolding is_prefix until_nul
is_key key name = is_prefix (until_nul key) name

-- A number that names no step animates always, as `none` does.
unfoldable pub animation_step_of : ℕ → AnimationStep
animation_step_of n =
    if n == 1
    then AnimationStep.fast
    else if n == 2
    then AnimationStep.step_100ms
    else if n == 3
    then AnimationStep.step_250ms
    else if n == 4
    then AnimationStep.step_500ms
    else if n == 5
    then AnimationStep.step_1sec
    else if n == 6
    then AnimationStep.step_5sec
    else if n == 7
    then AnimationStep.step_10sec
    else AnimationStep.none

-- What the loop over the request has so far.
pub record ImgPost : Type 0 where
  pub index : ℕ
  pub img : BackgroundImg
  pub slots : List BackgroundImg

unfoldable pub index_of : ℤ → ℕ
index_of (negsuc n) = 0
index_of (pos n) = if leb background_img_count n then 0 else n

img_art_of : ℕ → ℕ
img_art_of n = if leb img_art_last n then 0 else n

-- One value of the request.
unfoldable pub set_img_value : Str → Str → ImgPost → ImgPost
unfolding is_key index_of img_art_of animation_step_of parse_boolean_value init_background_img
set_img_value key value p =
    let n = strtoul_10 value in
    if is_key key (str "index")
    then record p { index = index_of (cast_int n) }
    else if is_key key (str "enabled")
    then record p { img = record (p.img) { enabled = parse_boolean_value value } }
    else if is_key key (str "clearAll")
    then (if parse_boolean_value value
        then record p { slots = map init_background_img p.slots }
        else p)
    else if is_key key (str "imgArt")
    then record p { img = record (p.img) { img_art = img_art_of (n % 2 ^ 32) } }
    else if is_key key (str "x")
    then record p { img = record (p.img) { x = cast_int n } }
    else if is_key key (str "y")
    then record p { img = record (p.img) { y = cast_int n } }
    else if is_key key (str "color")
    then record p { img = record (p.img) { display_color = n % 2 ^ 32 } }
    else if is_key key (str "animationStep")
    then record p {
      img = record (p.img) {
        animation = record (p.img.animation) { animation_step = animation_step_of (n % 2 ^ 32) };
      };
    }
    else if is_key key (str "animationPhase")
    then record p {
      img = record (p.img) {
        animation = record (p.img.animation) { animation_step_phase = n % 256 };
      };
    }
    else if is_key key (str "animationPhaseValue")
    then record p {
      img = record (p.img) {
        animation = record (p.img.animation) { animation_step_phase_value = n % 256 };
      };
    }
    else p

unfoldable pub set_img_values : StringMap → ImgPost → ImgPost
unfolding set_img_value
set_img_values [] p = p
set_img_values ((key, value) ∷ rest) p = set_img_values rest (set_img_value key value p)

-- The index and the image before the values are read.
abbrev pub start_post : List BackgroundImg → ImgPost
start_post slots = record { index = 0; img = zero_img; slots = slots }

-- An assignment to an element of an array; none where there is no such element, which the source does not define.
unfoldable pub write_slot : {A : Type 0} → ℕ → A → List A → Option (List A)
write_slot i x slots = if ltb i (length slots) then some (set slots i x) else none

unfoldable pub do_handle_img_background_post :
    StringMap → List BackgroundImg → Option (List BackgroundImg)
unfolding set_img_values write_slot
do_handle_img_background_post values slots =
    let p = set_img_values values (start_post slots) in write_slot p.index p.img p.slots
