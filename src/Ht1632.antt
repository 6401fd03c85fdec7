-- ===== src/Ht1632.antt =====
-- The driver of the LED matrix: ht1632/HT1632.cpp. The four lines are the list of what was written
-- to them, oldest first; with or without the burst path a line is written the same. Text is about
-- `drawText`; the copying of an image into the memory (`drawImage`) is left out.
mod Tests
pub mod Address
pub mod Memory
pub mod Text
use oclock.Common.{
  ℕ, zero, suc, ◌+◌, ◌-◌, ◌*◌, ◌/◌, ◌%◌, ◌^◌, bit_and, bit_or, List, [], ◌∷◌, ◌++◌, map, Bool, true,
  false, not, ◌&&◌, ◌||◌, ltb, leb, ◌==◌, if◌then◌else◌, length, get_or, set, replicate, Option,
  none, some,
}
use oclock.Common.Int.{ℤ, pos, negsuc}
use Prim.Native.Nat.{bit_xor}

pub data Line : Type 0 where
  cs : Line
  wr : Line
  data_line : Line
  clk : Line

pub data Signal : Type 0 where
  line : Line → Bool → Signal
  delay_milliseconds : ℕ → Signal

-- `mem` holds the two boards and the secondary buffer; no target is the -1 of the constructor.
pub record Ht1632 : Type 0 where
  pub brightness : ℕ
  pub tgt_buffer : Option ℕ
  pub global_needs_rewriting : List Bool
  pub mem : List (List ℕ)
  pub wire : List Signal

abbrev pub com_size : ℕ
com_size = 16

abbrev pub out_size : ℕ
out_size = 128

abbrev pub num_active_chips : ℕ
num_active_chips = 16

abbrev pub max_boards : ℕ
max_boards = 3

abbrev pub buffer_secondary : ℕ
buffer_secondary = 2

abbrev pub addr_space_size : ℕ
addr_space_size = 512

abbrev pub mask_needs_rewriting : ℕ
mask_needs_rewriting = 16

unfoldable pub get_chip_from_x_y : ℕ → ℕ → ℕ
get_chip_from_x_y x y = x / 16 + (if ltb 7 y then 2 else 0) + x / 32 * 2

unfoldable pub get_addr_from_x_y : ℕ → ℕ → ℕ
unfolding get_chip_from_x_y
get_addr_from_x_y x y = x % 16 * 2 + y % 8 / 4 + get_chip_from_x_y x y * 32

-- A new object has no memory yet.
unfoldable pub new_matrix : Ht1632
new_matrix = record {
  brightness = 16;
  tgt_buffer = none;
  global_needs_rewriting = false ∷ false ∷ false ∷ [];
  mem = [];
  wire = [];
}

unfoldable pub send : List Signal → Ht1632 → Ht1632
send es s = record s { wire = s.wire ++ es }

-- What one bit does to the lines, in the loops of `writeData`, `writeDataRev` and `writeSingleBit`.
unfoldable pub write_bit : Bool → List Signal
write_bit b = line data_line b ∷ line wr true ∷ line wr false ∷ []

-- The loop from the highest of `len` bits; `t` is `1 << (len - 1)`.
unfoldable pub write_data : ℕ → ℕ → List Signal
unfolding write_bit
write_data data_value zero = []
write_data data_value (suc len) =
    write_bit (not (bit_and data_value (2 ^ len) == 0)) ++ write_data data_value len

-- The loop from the lowest bit.
unfoldable pub write_data_rev : ℕ → ℕ → List Signal
unfolding write_bit
write_data_rev data_value zero = []
write_data_rev data_value (suc len) =
    write_bit (not (bit_and data_value 1 == 0)) ++ write_data_rev (data_value / 2) len

unfoldable pub write_single_bit : List Signal
unfolding write_bit
write_single_bit = write_bit false

unfoldable pub write_command : ℕ → List Signal
unfolding write_data write_single_bit
write_command c = write_data c 8 ++ write_single_bit

unfoldable pub output_clk_pulse : List Signal
output_clk_pulse = line clk true ∷ line clk false ∷ []

unfoldable pub pulses : ℕ → List Signal
unfolding output_clk_pulse
pulses zero = []
pulses (suc n) = output_clk_pulse ++ pulses n

-- All chips for a negative mask, none for 0, and otherwise the chip of that number, from 1.
unfoldable pub select : ℤ → List Signal
unfolding pulses output_clk_pulse
select (negsuc n) = line cs false ∷ pulses num_active_chips
select (pos zero) = line cs true ∷ pulses num_active_chips
select (pos (suc n)) =
    (line cs true ∷ pulses num_active_chips)
    ++ (line cs false ∷ output_clk_pulse ++ (line cs true ∷ pulses n))

abbrev pub id_cmd : ℕ
id_cmd = 4

abbrev pub id_wr : ℕ
id_wr = 5

abbrev pub id_len : ℕ
id_len = 3

abbrev pub cmd_pwm : ℕ → ℕ
cmd_pwm lvl = bit_or 0xa0 (lvl - 1)

-- The loop over the chips `i`, ..., `i + n - 1`, with what is sent to each.
unfoldable pub for_chips : (ℕ → List Signal) → ℕ → ℕ → List Signal
for_chips f i zero = []
for_chips f i (suc n) = f i ++ for_chips f (i + 1) n

unfoldable pub blank : Ht1632 → Ht1632
unfolding send select for_chips write_data write_command
blank s =
    send
      (select (pos 0)
        ++ for_chips
            (λ i.
              select (pos i)
              ++ (write_data id_cmd id_len ++ (write_command 0x02 ++ select (pos 0))))
            1 num_active_chips)
      s

unfoldable pub initialize_chip : ℕ → ℕ → List Signal
unfolding select write_data write_command
initialize_chip brightness i =
    select (pos i)
    ++ (write_data id_cmd id_len
        ++ (write_command 0x00
            ++ (write_command 0x20
                ++ (write_command 0x18
                    ++ (write_command 0x01
                        ++ (write_command 0x03
                            ++ (write_command (cmd_pwm brightness)
                                ++ (write_command 0x08 ++ select (pos 0)))))))))

unfoldable pub initialize : Ht1632 → Ht1632
unfolding send select for_chips initialize_chip
initialize s =
    let s' =
      send (select (pos 0) ++ for_chips (initialize_chip s.brightness) 1 num_active_chips) s in
    record s' { global_needs_rewriting = true ∷ true ∷ true ∷ [] }

-- A target outside the boards is ignored.
unfoldable pub draw_target : ℤ → Ht1632 → Ht1632
draw_target (negsuc n) s = s
draw_target (pos n) s = if ltb n max_boards then record s { tgt_buffer = some n } else s

-- `drawTarget(saveTarget)`, where no target is -1.
unfoldable pub restore_target : Option ℕ → Ht1632 → Ht1632
unfolding draw_target
restore_target none s = draw_target (negsuc 0) s
restore_target (some n) s = draw_target (pos n) s

-- The new value of a cell: the pixel's bit set or cleared, and the mark.
unfoldable pub with_pixel : ℕ → Bool → ℕ → ℕ
with_pixel loc_y true m = bit_or (bit_or m (2 ^ (loc_y % 4))) mask_needs_rewriting
with_pixel loc_y false m = bit_or (bit_and m (255 - 2 ^ (loc_y % 4))) mask_needs_rewriting

unfoldable pub board : ℕ → Ht1632 → List ℕ
board t s = get_or s.mem t []

unfoldable pub set_board : ℕ → List ℕ → Ht1632 → Ht1632
set_board t cells s = record s { mem = set s.mem t cells }

unfoldable pub set_cell : ℕ → ℕ → Bool → Ht1632 → ℕ → Ht1632
unfolding board set_board get_addr_from_x_y with_pixel
set_cell x y datum s t =
    let a = get_addr_from_x_y x y in
    set_board t (set (board t s) a (with_pixel y datum (get_or (board t s) a 0))) s

unfoldable pub set_pixel : ℤ → ℤ → Bool → Ht1632 → Ht1632
unfolding set_cell
set_pixel (negsuc _) y datum s = s
set_pixel (pos x) (negsuc _) datum s = s
set_pixel (pos x) (pos y) datum s = elim s.tgt_buffer [
  | none ↦ s
  | some t ↦
      if ltb buffer_secondary t || (leb out_size x || leb com_size y)
      then s
      else set_cell x y datum s t
]

unfoldable pub clear : Ht1632 → Ht1632
unfolding set_board
clear s = elim s.tgt_buffer [
  | none ↦ s
  | some t ↦
      if ltb buffer_secondary t then s else record (set_board t (replicate addr_space_size 0) s) {
        global_needs_rewriting = set s.global_needs_rewriting t true;
      }
]

unfoldable pub clear_all : Ht1632 → Ht1632
unfolding draw_target clear restore_target
clear_all s =
    restore_target s.tgt_buffer
      (clear (draw_target (pos 2) (clear (draw_target (pos 1) (clear (draw_target (pos 0) s))))))

unfoldable pub is_session_open : ℕ → Option ℕ → Bool
is_session_open n_chip none = false
is_session_open n_chip (some k) = k == n_chip

unfoldable pub close_session : Option ℕ → List Signal
unfolding select
close_session none = []
close_session (some k) = select (pos 0)

-- The loop of `render` from the address `i`; `chip` is `nChipOpen`, none for -1.
unfoldable pub render_cells : ℕ → Bool → ℕ → Option ℕ → List ℕ → List Signal
unfolding select write_data write_data_rev is_session_open close_session
render_cells color_offset all i chip [] = close_session chip
render_cells color_offset all i chip (c ∷ cells) =
    let n_chip = i / 32 + 1 in
    let head =
      if is_session_open n_chip chip
      then []
      else select (pos n_chip)
        ++ (write_data id_wr id_len ++ write_data (i % 32 + color_offset) 7) in
    let written =
      head ++ (write_data_rev c 4 ++ render_cells color_offset all (i + 1) (some n_chip) cells) in
    let skipped = close_session chip ++ render_cells color_offset all (i + 1) none cells in
    if all || not (bit_and c mask_needs_rewriting == 0) then written else skipped

unfoldable pub render : Ht1632 → Ht1632
unfolding send select render_cells board
render s = elim s.tgt_buffer [
  | none ↦ s
  | some t ↦
      if leb buffer_secondary t
      then s
      else record (send
          (select (pos 0)
            ++ render_cells (t * 32) (get_or s.global_needs_rewriting t false) 0 none (board t s))
          s) { global_needs_rewriting = set s.global_needs_rewriting t false }
]

unfoldable pub render_all : Ht1632 → Ht1632
unfolding draw_target render restore_target
render_all s =
    restore_target s.tgt_buffer
      (render (draw_target (pos 2) (render (draw_target (pos 1) (render (draw_target (pos 0) s))))))

unfoldable pub reinit : Ht1632 → Ht1632
unfolding initialize draw_target render restore_target
reinit s = restore_target s.tgt_buffer (
    render (
      draw_target (pos 2)
        (render (draw_target (pos 1) (render (draw_target (pos 0) (initialize s)))))))

unfoldable pub set_brightness_chip : ℕ → ℕ → List Signal
unfolding select write_data write_command
set_brightness_chip lvl i =
    select (pos i) ++ (write_data id_cmd id_len ++ write_command (cmd_pwm lvl))

unfoldable pub set_brightness : ℕ → Ht1632 → Ht1632
unfolding send select for_chips set_brightness_chip
set_brightness lvl s =
    if ltb lvl 1 || ltb 16 lvl
    then s
    else send (for_chips (set_brightness_chip lvl) 1 num_active_chips ++ select (pos 0))
        (record s { brightness = lvl })

-- Combines two boards cell by cell.
unfoldable pub zip_cells : (ℕ → ℕ → ℕ) → List ℕ → List ℕ → List ℕ
zip_cells f [] ys = []
zip_cells f (x ∷ xs) [] = []
zip_cells f (x ∷ xs) (y ∷ ys) = f x y ∷ zip_cells f xs ys

unfoldable pub mark_board : ℕ → Ht1632 → Ht1632
mark_board t s = record s { global_needs_rewriting = set s.global_needs_rewriting t true }

unfoldable pub swap_buffers : ℕ → Ht1632 → Ht1632
unfolding board set_board mark_board
swap_buffers t s =
    mark_board t (set_board buffer_secondary (board t s) (set_board t (board buffer_secondary s) s))

-- The first loop of the fade: down to level 1, with the delays.
unfoldable pub fade_down : ℕ → ℕ → Ht1632 → Ht1632
unfolding set_brightness send
fade_down time zero s = s
fade_down time (suc i) s =
    fade_down time i (send (delay_milliseconds time ∷ []) (set_brightness (suc i) s))

-- The second loop: `n` levels up from `i`.
unfoldable pub fade_up : ℕ → ℕ → ℕ → Ht1632 → Ht1632
unfolding set_brightness send
fade_up time i zero s = s
fade_up time i (suc n) s =
    fade_up time (i + 1) n (send (delay_milliseconds time ∷ []) (set_brightness i s))

unfoldable pub fade : ℕ → ℕ → Ht1632 → Ht1632
unfolding fade_down fade_up clear render send swap_buffers set_brightness
fade time t s =
    let pause = send (delay_milliseconds (time / 32) ∷ []) in
    let down = pause (render (clear (fade_down (time / 32) 15 s))) in
    let swapped = pause (render (swap_buffers t down)) in
    set_brightness s.brightness (fade_up (time / 32) 2 15 swapped)

pub data Transition : Type 0 where
  buffer_swap : Transition
  save : Transition
  save_xor : Transition
  remove_pixels : Transition
  restore : Transition
  restore_or : Transition
  fading : ℕ → Transition

unfoldable pub transition_at : Transition → ℕ → Ht1632 → Ht1632
unfolding board set_board mark_board swap_buffers zip_cells fade
transition_at buffer_swap t s = swap_buffers t s
transition_at save t s = set_board buffer_secondary (board t s) s
transition_at save_xor t s =
    set_board buffer_secondary (zip_cells bit_xor (board buffer_secondary s) (board t s)) s
transition_at remove_pixels t s =
    set_board buffer_secondary
      (zip_cells (λ m p. bit_and m (255 - p)) (board buffer_secondary s) (board t s)) s
transition_at restore t s = mark_board t (set_board t (board buffer_secondary s) s)
transition_at restore_or t s =
    mark_board t (set_board t (zip_cells bit_or (board t s) (board buffer_secondary s)) s)
transition_at (fading time) t s = fade time t s

unfoldable pub transition : Transition → Ht1632 → Ht1632
unfolding transition_at
transition mode s = elim s.tgt_buffer [
  | none ↦ s
  | some t ↦ if leb buffer_secondary t then s else transition_at mode t s
]

-- `begin` after the allocation of the boards succeeded: the lines become outputs, CS high and the
-- others low; each board is cleared and drawn, and the first one is the target.
unfoldable pub begin : Ht1632 → Ht1632
unfolding send initialize draw_target clear render
begin s =
    let boards = replicate max_boards (replicate addr_space_size 0) in
    let outputs = line cs true ∷ line wr false ∷ line data_line false ∷ line clk false ∷ [] in
    let s0 = initialize (send outputs (record s { mem = boards })) in
    let drawn = λ (i : ℕ) (s : Ht1632). render (clear (draw_target (pos i) s)) in
    draw_target (pos 0) (drawn 2 (drawn 1 (drawn 0 s0)))
