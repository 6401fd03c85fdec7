-- ===== src/WebHandler/Html.antt =====
-- The pieces of the web pages that are shared: the helpers of `WebHandler` in webHandlerInternal.cpp. What is appended
-- to the buffer, in its order, is a list of pieces.
use oclock.Common.{ℕ, List, [], ◌∷◌, ◌-◌, Bool, true, false, not, if◌then◌else◌}
use oclock.Common.Int.{ℤ, pos}
use oclock.Common.Str.{Str, str}
use oclock.Ht1632.{com_size, out_size}
use oclock.StatusReport.{append_int}
use oclock.StatusReport.Render.{concat}

-- `INT2BUFF`.
unfoldable pub number : ℕ → Str
unfolding append_int
number n = append_int (pos n)

unfoldable pub add_checkbox_or_radio : Str → Str → Str → Str → Bool → Str
add_checkbox_or_radio element name val label selected = concat (
    str "<label><input type='"
    ∷ element
    ∷ str "' name='"
    ∷ name
    ∷ str "' value='"
    ∷ val
    ∷ str "' "
    ∷ (if selected then str "checked " else [])
    ∷ str "/> "
    ∷ label
    ∷ str "</label>"
    ∷ [])

unfoldable pub add_radio_button : Str → Str → Str → Bool → Str
unfolding add_checkbox_or_radio
add_radio_button = add_checkbox_or_radio (str "radio")

-- With a number for the value.
unfoldable pub add_radio_number : Str → ℤ → Str → Bool → Str
unfolding add_radio_button append_int
add_radio_number name val = add_radio_button name (append_int val)

unfoldable pub add_check_box : Str → Str → Str → Bool → Str
unfolding add_checkbox_or_radio
add_check_box = add_checkbox_or_radio (str "checkbox")

unfoldable pub add_form_font : Str
unfolding add_radio_number
add_form_font = concat (
    str "<br/>Font: "
    ∷ add_radio_number (str "font") (pos 0) (str "5x4") true
    ∷ add_radio_number (str "font") (pos 1) (str "8x4") false
    ∷ add_radio_number (str "font") (pos 2) (str "7x5") false
    ∷ add_radio_number (str "font") (pos 3) (str "8x6") false
    ∷ add_radio_number (str "font") (pos 4) (str "16x8") false
    ∷ [])

unfoldable pub add_form_color : Bool → Str
unfolding add_radio_number
add_form_color include_alternate = concat (
    str "<br/>Color: "
    ∷ add_radio_number (str "color") (pos 0) (str "green") (not include_alternate)
    ∷ add_radio_number (str "color") (pos 1) (str "red") false
    ∷ add_radio_number (str "color") (pos 2) (str "yellow") false
    ∷ (if include_alternate
        then add_radio_number (str "color") (pos 3) (str "alternate") true
        else [])
    ∷ [])

unfoldable pub add_xy_coordinates_input : Str
unfolding number
add_xy_coordinates_input = concat (
    str "<br/>X (0-"
    ∷ number (out_size - 1)
    ∷ str "): <input type='range' size='3' min='0' max='"
    ∷ number (out_size - 1)
    ∷ str "' value='0' name='x'>"
    ∷ str "  Y (0-"
    ∷ number (com_size - 1)
    ∷ str "): <input type='range' size='2' min='0' max='"
    ∷ number (com_size - 1)
    ∷ str "' value=0 name='y'>"
    ∷ [])

unfoldable pub add_animation_step_input : Str
unfolding add_radio_number
add_animation_step_input = concat (
    str "<br/>Animation: "
    ∷ add_radio_number (str "animationStep") (pos 0) (str "none") true
    ∷ add_radio_number (str "animationStep") (pos 1) (str "fast") false
    ∷ add_radio_number (str "animationStep") (pos 3) (str "250ms") false
    ∷ add_radio_number (str "animationStep") (pos 4) (str "500ms") false
    ∷ add_radio_number (str "animationStep") (pos 5) (str "1sec") false
    ∷ add_radio_number (str "animationStep") (pos 6) (str "5sec") false
    ∷ str
        "<br/>phase (0-255): <input type='range' size=3 min=0 max=255 value=2 name='animationPhase'>"
    ∷ str
        " value (0-254): <input type='range' size=3 min=0 max=254 value=0 name='animationPhaseValue'>"
    ∷ [])

abbrev pub content_start : Str
content_start = concat (
    str "<html>"
    ∷ str "<head>"
    ∷ str "<title>Embedded Office Clock Display Controller</title>"
    ∷ str "<style type=\"text/css\">"
    ∷ str "BODY { font-family: sans-serif }"
    ∷ str "H1 { font-size: 14pt; text-decoration: underline }"
    ∷ str "P { font-size: 10pt; }"
    ∷ str "</style>"
    ∷ str "</head>"
    ∷ str "<body>"
    ∷ [])

abbrev pub content_stop : Str
content_stop = str "</body></html>"

abbrev pub submit : Str
submit = str "</p><input type='submit' value='Submit'/></form>"

-- The names of the images, in the order of `ImgArt`.
abbrev pub img_art_str : List Str
img_art_str =
    str "imgArtSmiley"
    ∷ str "imgArtWink"
    ∷ str "imgArtBigHeart"
    ∷ str "imgArtCat"
    ∷ str "imgArtOwls"
    ∷ str "imgArtMail"
    ∷ str "imgArtMusic"
    ∷ str "imgArtMusicNote"
    ∷ str "imgArtHeart"
    ∷ str "imgArtSpeakerA"
    ∷ str "imgArtSpeakerB"
    ∷ str "imgArt8x8"
    ∷ str "imgArtStickMan1"
    ∷ str "imgArtStickMan2"
    ∷ str "imgArtStickMan3"
    ∷ str "imgArtStickMan4"
    ∷ str "imgArtWave1"
    ∷ str "imgArtWave2"
    ∷ str "imgArtWave3"
    ∷ str "imgArtWave4"
    ∷ str "imgArtJump1"
    ∷ str "imgArtJump2"
    ∷ str "imgArtJump3"
    ∷ str "imgArtJump4"
    ∷ str "imgArtUp"
    ∷ str "imgArtDown"
    ∷ str "imgArtUp1"
    ∷ str "imgArtUp2"
    ∷ str "imgArtUp3"
    ∷ str "imgArtUp4"
    ∷ str "imgArtDown1"
    ∷ str "imgArtDown2"
    ∷ str "imgArtDown3"
    ∷ str "imgArtDown4"
    ∷ str "imgArtUp21"
    ∷ str "imgArtUp22"
    ∷ str "imgArtUp23"
    ∷ str "imgArtUp24"
    ∷ str "imgArtDown21"
    ∷ str "imgArtDown22"
    ∷ str "imgArtDown23"
    ∷ str "imgArtDown24"
    ∷ str "imgArtCar1"
    ∷ str "imgArtCar2"
    ∷ str "imgArtBlank"
    ∷ []
