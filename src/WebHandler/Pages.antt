-- ===== src/WebHandler/Pages.antt =====
-- The bodies of the web pages: the `process` methods of the page handlers in webHandlerInternal.cpp.
use oclock.Common.{ℕ, zero, suc, ◌-◌, List, [], ◌∷◌, ◌++◌, true, false, ◌==◌}
use oclock.Common.Int.{pos, negsuc}
use oclock.Common.Str.{Str, str}
use oclock.Dictionary.{
  param_operation, param_key, param_data, operation_set, operation_add, operation_del,
}
use oclock.Dictionary
use oclock.LedStrip.Params.{
  param_led_strip_mode, param_timeout, param_clear_all_pixels, param_extra,
}
use oclock.LedStrip.Thread.{LedStrip, get_mode_str}
use oclock.Message.Background.{background_img_count}
use oclock.StatusReport.Render.{concat}
use oclock.WebHandler.Html.{
  number, add_radio_button, add_radio_number, add_check_box, add_form_font, add_form_color,
  add_xy_coordinates_input, add_animation_step_input, content_start, content_stop, submit,
  img_art_str,
}

abbrev pub background_message_count : ℕ
background_message_count = 100

abbrev pub form_msg_box_len : ℕ
form_msg_box_len = 64

abbrev pub number_of_leds : ℕ
number_of_leds = 240

unfoldable pub not_found_page : Str → Str
not_found_page uri_path = concat (
    str "<html><head>"
    ∷ str "<title>404 Not Found</title>"
    ∷ str "</head><body>"
    ∷ str "<h1>Not Found</h1>"
    ∷ str "<p>The requested URL "
    ∷ uri_path
    ∷ str " was not found on this server.</p>"
    ∷ str "</body></html>"
    ∷ [])

-- What stands behind the first characters.
unfoldable pub behind : ℕ → Str → Str
behind zero s = s
behind (suc n) [] = []
behind (suc n) (c ∷ s) = behind n s

-- The loop over the images; `imgArtStrUniqueOffset` is 6.
unfoldable pub add_img_arts : ℕ → List Str → Str
unfolding add_radio_number
add_img_arts i [] = []
add_img_arts i (name ∷ names) =
    add_radio_number (str "imgArt") (pos i) (behind 6 name) false ++ add_img_arts (suc i) names

unfoldable pub index_input : ℕ → Str
unfolding number
index_input count = concat (
    str "<br/>Index (0-"
    ∷ number (count - 1)
    ∷ str "): <input type='range' min='0' max='"
    ∷ number (count - 1)
    ∷ str "' value=0 name='index'>"
    ∷ [])

unfoldable pub enabled_input : Str
unfolding add_check_box
enabled_input = concat (
    str "<br/>Enabled: "
    ∷ add_check_box (str "enabled") (str "yes") [] true
    ∷ str "  Clear all: "
    ∷ add_check_box (str "clearAll") (str "yes") [] false
    ∷ [])

unfoldable pub img_background_page : Str
unfolding index_input add_radio_number add_img_arts enabled_input add_form_color
    add_xy_coordinates_input add_animation_step_input
img_background_page = concat (
    content_start
    ∷ str "<form action='/imgBackground' method='post'>"
    ∷ str "<h1>Background Img</h1><p>"
    ∷ index_input background_img_count
    ∷ str "<br/>ImgArt Name: "
    ∷ add_radio_number (str "imgArt") (negsuc 0) (str "default") true
    ∷ add_img_arts 0 img_art_str
    ∷ enabled_input
    ∷ add_form_color false
    ∷ add_xy_coordinates_input
    ∷ add_animation_step_input
    ∷ submit
    ∷ content_stop
    ∷ [])

unfoldable pub msg_background_page : Str
unfolding index_input enabled_input add_form_font add_form_color add_xy_coordinates_input
    add_animation_step_input
msg_background_page = concat (
    content_start
    ∷ str "<form action='/msgBackground' method='post'>"
    ∷ str "<h1>Background Message</h1><p>"
    ∷ index_input background_message_count
    ∷ str "<br/>Msg: <input type='text' size='16' name='msg'>"
    ∷ enabled_input
    ∷ add_form_font
    ∷ add_form_color false
    ∷ add_xy_coordinates_input
    ∷ add_animation_step_input
    ∷ submit
    ∷ content_stop
    ∷ [])

unfoldable pub msg_mode_page : Str
unfolding number add_form_font add_check_box add_form_color add_radio_button
    add_xy_coordinates_input
msg_mode_page = concat (
    content_start
    ∷ str "<form action='/msgMode' method='post'>"
    ∷ str "<h1>Display Message</h1><p>"
    ∷ str "<input type='text' size='"
    ∷ number form_msg_box_len
    ∷ str "' name='msg'><br/>"
    ∷ add_form_font
    ∷ str "<br/>Alternate font: "
    ∷ add_check_box (str "alternateFont") (str "yes") [] false
    ∷ str "<br/>Confetti: "
    ∷ add_check_box (str "confetti") (str "15") [] false
    ∷ str "<br/>Bounce: "
    ∷ add_check_box (str "bounce") (str "yes") [] false
    ∷ str "<br/>NoScroll: "
    ∷ add_check_box (str "noScroll") (str "yes") [] false
    ∷ str "<br/>Blink: "
    ∷ add_check_box (str "blink") (str "yes") [] false
    ∷ add_form_color true
    ∷ str "<br/>Scroll Repeat: "
    ∷ add_radio_button (str "repeats") (str "0") (str "none") false
    ∷ add_radio_button (str "repeats") (str "5") (str "5") false
    ∷ add_radio_button (str "repeats") (str "10") (str "10") false
    ∷ add_radio_button (str "repeats") (str "100") (str "100") true
    ∷ str "<br/>Timeout (sec): "
    ∷ add_radio_button (str "timeout") (str "3") (str "3") false
    ∷ add_radio_button (str "timeout") (str "10") (str "10") false
    ∷ add_radio_button (str "timeout") (str "60") (str "60") true
    ∷ add_radio_button (str "timeout") (str "300") (str "300") false
    ∷ add_xy_coordinates_input
    ∷ submit
    ∷ content_stop
    ∷ [])

-- The loop over the modes of the strip; the manual mode is chosen.
unfoldable pub add_modes : ℕ → ℕ → LedStrip → Str
unfolding add_radio_number get_mode_str
add_modes i zero s = []
add_modes i (suc n) s =
    add_radio_number param_led_strip_mode (pos i) (get_mode_str (pos i) s) (i == 0)
    ++ add_modes (suc i) n s

unfoldable pub led_strip_page : LedStrip → Str
unfolding number add_check_box add_modes add_radio_button
led_strip_page s = concat (
    content_start
    ∷ str "<form action='/ledStrip' method='post'>"
    ∷ str "<h1>Led Strip Config</h1><p>"
    ∷ str "Pixels (0 to "
    ∷ number (number_of_leds - 1)
    ∷ str ") formatting:"
    ∷ str "<input type='text' size='"
    ∷ number form_msg_box_len
    ∷ str
        "' name='rawFormat'> e.g: pixels 3,4,5 with color R,G,B and pixel 9 with a 21bit color ==> 3-5:127,45,0 ; 9:762"
    ∷ str "<br/>Extra Param: <input type='text' size='5' name='"
    ∷ param_extra
    ∷ str "'>"
    ∷ str "<br/>Clear all Pixels: "
    ∷ add_check_box param_clear_all_pixels (str "yes") [] false
    ∷ str "<br/> Mode: "
    ∷ add_modes 0 6 s
    ∷ str "<p>Default Color (used whan it was not specified in pixel format):"
    ∷ str "<br/>"
    ∷ str "Red (0-127): <input type='range' size=3 min=0 max=127 value=0 name='red'>"
    ∷ str "  Green (0-127): <input type='range' size=3 min=0 max=127 value=0 name='green'>"
    ∷ str "  Blue (0-127): <input type='range' size=3 min=0 max=127 value=0 name='blue'>"
    ∷ str "<br/>Timeout (sec): "
    ∷ add_radio_button param_timeout (str "3") (str "3") true
    ∷ add_radio_button param_timeout (str "10") (str "10") false
    ∷ add_radio_button param_timeout (str "60") (str "60") false
    ∷ add_radio_button param_timeout (str "300") (str "300") false
    ∷ add_radio_button param_timeout (str "-1") (str "never") false
    ∷ submit
    ∷ content_stop
    ∷ [])

unfoldable pub dictionary_page : Str
unfolding add_radio_button
dictionary_page = concat (
    content_start
    ∷ str "<form action='/dictionary' method='post'>"
    ∷ str "<h1>Global Dictionary Config</h1><p>"
    ∷ str "<br/>Operation: "
    ∷ add_radio_button param_operation operation_set operation_set false
    ∷ add_radio_button param_operation operation_add operation_add true
    ∷ add_radio_button param_operation operation_del operation_del false
    ∷ str "<br/>Key: <input type='text' size='30' name='"
    ∷ param_key
    ∷ str "'>"
    ∷ str "<br/>Data: <input type='text' size='30' name='"
    ∷ param_data
    ∷ str "'>"
    ∷ str "<br/>Timeout (sec): "
    ∷ add_radio_button Dictionary.param_timeout (str "3000") (str "3") false
    ∷ add_radio_button Dictionary.param_timeout (str "10000") (str "10") false
    ∷ add_radio_button Dictionary.param_timeout (str "60000") (str "60") true
    ∷ add_radio_button Dictionary.param_timeout (str "300000") (str "300") false
    ∷ add_radio_button Dictionary.param_timeout (str "-1") (str "never") false
    ∷ submit
    ∷ content_stop
    ∷ [])

unfoldable pub root_page : Str
root_page = concat (
    content_start
    ∷ str "<h1>Office Clock main page</h1><p>"
    ∷ str "<br/><a href='status'>status</a>"
    ∷ str "<br/><a href='status.json'>status (json)</a>"
    ∷ str "<br/><a href='msgMode'>msg mode</a>"
    ∷ str "<br/><a href='imgBackground'>image background</a>"
    ∷ str "<br/><a href='msgBackground'>message background</a>"
    ∷ str "<br/><a href='ledStrip'>led strip</a>"
    ∷ str "<br/><a href='dictionary'>dictionary</a>"
    ∷ str "<br/><a href='sound'>sound</a>"
    ∷ str "<br/><a href='stop'>stop</a> (careful!)"
    ∷ content_stop
    ∷ [])
