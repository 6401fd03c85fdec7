-- ===== src/Lpd8806.antt =====
-- The LED strip's driver: lpd8806/LPD8806.cpp. The pins and the kernel's SPI device are the list of
-- what was done to them, oldest first; whether an allocation succeeds is a parameter.
mod Tests
pub mod Pixels
pub mod Wf
pub mod Color
pub mod Wire
use oclock.Common.{
  ℕ, zero, suc, ◌+◌, ◌-◌, ◌*◌, ◌/◌, ◌%◌, bit_and, bit_or, List, [], ◌∷◌, ◌++◌, Bool, true, false,
  not, ◌&&◌, ◌||◌, ltb, ◌==◌, if◌then◌else◌, length, get_or, set, replicate, Option, none, some,
}

pub data WireEvent : Type 0 where
  configure_input : ℕ → WireEvent
  configure_output : ℕ → Bool → WireEvent
  write : ℕ → Bool → WireEvent
  transfer : List ℕ → WireEvent
  delay_milliseconds : ℕ → WireEvent

-- The pointer `pixels`: null, to a block of bytes, or to one that is freed.
pub data PixelMemory : Type 0 where
  null : PixelMemory
  allocated : List ℕ → PixelMemory
  dangling : PixelMemory

pub record Lpd8806 : Type 0 where
  pub has_spi_output : Bool
  pub num_leds : ℕ
  pub largest_changed_led : ℕ
  pub pixels : PixelMemory
  pub clkpin : ℕ
  pub datapin : ℕ
  pub begun : Bool
  pub wire : List WireEvent

pub data StripError : Type 0 where
  logic_error : StripError
  double_free : StripError

pub data StripResult : Type 0 where
  done : Lpd8806 → StripResult
  failed : StripError → StripResult

abbrev pub bytes_per_led : ℕ
bytes_per_led = 3

unfoldable pub num_pixels : Lpd8806 → ℕ
num_pixels s = s.num_leds

unfoldable pub bytes_of : PixelMemory → List ℕ
bytes_of null = []
bytes_of (allocated bs) = bs
bytes_of dangling = []

unfoldable pub emit : List WireEvent → Lpd8806 → Lpd8806
emit es s = record s { wire = s.wire ++ es }

unfoldable pub latch_byte_count : Lpd8806 → ℕ
latch_byte_count s = (s.num_leds + 31) / 32

-- One pulse of the clock for each step of the loop of `_bitBangLatchSignal`.
unfoldable pub clock_pulses : ℕ → ℕ → List WireEvent
clock_pulses clk zero = []
clock_pulses clk (suc i) = write clk true ∷ write clk false ∷ clock_pulses clk i

unfoldable pub bit_bang_latch_signal : Lpd8806 → List WireEvent
unfolding clock_pulses
bit_bang_latch_signal s =
    write s.datapin false ∷ clock_pulses s.clkpin ((s.num_leds + 31) / 32 * 8 % 65536)

unfoldable pub start_bitbang : Lpd8806 → Lpd8806
unfolding emit bit_bang_latch_signal
start_bitbang s =
    emit
      (configure_output s.datapin false ∷ configure_output s.clkpin false ∷ bit_bang_latch_signal s)
      s

unfoldable pub transfer_spi_latch : Lpd8806 → Lpd8806
unfolding emit latch_byte_count
transfer_spi_latch s =
    if latch_byte_count s == 0 then s else emit (transfer (replicate (latch_byte_count s) 0) ∷ []) s

unfoldable pub begin : Lpd8806 → Lpd8806
unfolding start_bitbang transfer_spi_latch
begin s =
    let s' = if s.has_spi_output then transfer_spi_latch s else start_bitbang s in
    record s' { begun = true }

unfoldable pub update_pins : ℕ → ℕ → Lpd8806 → StripResult
unfolding start_bitbang emit
update_pins dpin cpin s =
    if s.has_spi_output
    then failed logic_error
    else if s.begun
    then done (
        start_bitbang (record (emit (configure_input s.datapin ∷ configure_input s.clkpin ∷ []) s) {
          datapin = dpin;
          clkpin = cpin;
        }))
    else done (record s { datapin = dpin; clkpin = cpin })

-- What `free(pixels)` leaves, under its guard; a block that was freed before is freed twice.
unfoldable pub free_pixels : PixelMemory → Option PixelMemory
free_pixels null = some null
free_pixels (allocated bs) = some dangling
free_pixels dangling = none

-- The second half of `updateLength`, on the memory that `free` left.
unfoldable pub allocate_pixels : (ℕ → Bool) → ℕ → PixelMemory → Lpd8806 → Lpd8806
allocate_pixels malloc zero m s = record s { num_leds = 0; largest_changed_led = 0; pixels = m }
allocate_pixels malloc (suc k) m s =
    if malloc (suc k * bytes_per_led)
    then record s {
      num_leds = suc k;
      largest_changed_led = k;
      pixels = allocated (replicate (suc k * bytes_per_led) 0x80);
    }
    else record s { num_leds = 0; largest_changed_led = 0; pixels = null }

unfoldable pub after_free : (ℕ → Bool) → ℕ → Lpd8806 → Option PixelMemory → StripResult
unfolding allocate_pixels
after_free malloc n s none = failed double_free
after_free malloc n s (some m) = done (allocate_pixels malloc n m s)

unfoldable pub update_length : (ℕ → Bool) → ℕ → Lpd8806 → StripResult
unfolding free_pixels after_free
update_length malloc n s = after_free malloc n s (free_pixels s.pixels)

-- The value of `currDatapinValue`: none is `~0`.
unfoldable pub set_datapin : ℕ → Option Bool → Bool → List WireEvent
set_datapin pin none b = write pin b ∷ []
set_datapin pin (some true) true = []
set_datapin pin (some true) false = write pin false ∷ []
set_datapin pin (some false) true = write pin true ∷ []
set_datapin pin (some false) false = []

-- The bits of the inner loop: `bit=0x80; bit; bit >>= 1`.
unfoldable pub bit_values : List ℕ
bit_values = 128 ∷ 64 ∷ 32 ∷ 16 ∷ 8 ∷ 4 ∷ 2 ∷ 1 ∷ []

unfoldable pub is_bit_set : ℕ → ℕ → Bool
is_bit_set p bit = not (bit_and p bit == 0)

-- The inner loop for one byte, and what it leaves in `currDatapinValue`.
unfoldable pub show_bits : ℕ → ℕ → Option Bool → ℕ → List ℕ → List WireEvent
unfolding set_datapin is_bit_set
show_bits pin clk cur p [] = []
show_bits pin clk cur p (bit ∷ bits) =
    set_datapin pin cur (is_bit_set p bit)
    ++ (write clk true ∷ write clk false ∷ show_bits pin clk (some (is_bit_set p bit)) p bits)

-- After a byte the pin has the value of its lowest bit.
unfoldable pub show_bytes : ℕ → ℕ → Option Bool → List ℕ → List WireEvent
unfolding show_bits is_bit_set bit_values
show_bytes pin clk cur [] = []
show_bytes pin clk cur (p ∷ ps) =
    show_bits pin clk cur p bit_values ++ show_bytes pin clk (some (is_bit_set p 1)) ps

unfoldable pub take : ℕ → List ℕ → List ℕ
take zero bs = []
take (suc n) [] = []
take (suc n) (b ∷ bs) = b ∷ take n bs

-- The SPI frame: the pixels and the latch.
unfoldable pub frame : Lpd8806 → List ℕ
unfolding take bytes_of latch_byte_count
frame s = take (s.num_leds * bytes_per_led) (bytes_of s.pixels) ++ replicate (latch_byte_count s) 0

-- The 16-bit counter `i` of the loop over the bytes.
unfoldable pub show_events : Lpd8806 → List WireEvent
unfolding frame show_bytes bit_bang_latch_signal
show_events s =
    if s.has_spi_output
    then transfer (frame s) ∷ []
    else show_bytes s.datapin s.clkpin none
        (take (s.num_leds * bytes_per_led % 65536) (bytes_of s.pixels))
      ++ bit_bang_latch_signal s

unfoldable pub show : Lpd8806 → Lpd8806
unfolding emit show_events num_pixels
show s = if s.num_leds == 0 then s else record (emit (show_events s) s) { largest_changed_led = 0 }

-- The GRB word of `Color`; the arguments are bytes.
unfoldable pub color : ℕ → ℕ → ℕ → ℕ
color r g b = bit_or (bit_or (bit_or (bit_or g 128 * 65536) (bit_or r 128 * 256)) b) 128

-- Stores three bytes from an index on.
unfoldable pub store3 : ℕ → ℕ → ℕ → ℕ → PixelMemory → PixelMemory
store3 i x y z null = null
store3 i x y z (allocated bs) = allocated (set (set (set bs i x) (i + 1) y) (i + 2) z)
store3 i x y z dangling = dangling

unfoldable pub touched : ℕ → Lpd8806 → Lpd8806
touched n s = if ltb s.largest_changed_led n then record s { largest_changed_led = n } else s

unfoldable pub set_pixel_rgb : ℕ → ℕ → ℕ → ℕ → Lpd8806 → Lpd8806
unfolding store3 touched
set_pixel_rgb n r g b s =
    if ltb n s.num_leds
    then touched n (record s {
      pixels =
          store3 (n * bytes_per_led) (bit_or g 128 % 256) (bit_or r 128 % 256) (bit_or b 128 % 256)
            s.pixels;
    })
    else s

unfoldable pub set_pixel_color : ℕ → ℕ → Lpd8806 → Lpd8806
unfolding store3 touched
set_pixel_color n c s =
    if ltb n s.num_leds
    then touched n (record s {
      pixels =
          store3 (n * bytes_per_led) (bit_or (c / 65536) 128 % 256) (bit_or (c / 256) 128 % 256)
            (bit_or c 128 % 256) s.pixels;
    })
    else s

unfoldable pub fill_memory : ℕ → PixelMemory → PixelMemory
fill_memory n null = null
fill_memory n (allocated bs) = allocated (replicate n 0x80)
fill_memory n dangling = dangling

unfoldable pub clear_pixel_colors : Lpd8806 → Lpd8806
unfolding fill_memory
clear_pixel_colors s =
    if s.num_leds == 0 then record s { largest_changed_led = 0 } else elim s.pixels [
      | null ↦ record s { largest_changed_led = 0 }
      | _ ↦ record s {
        pixels = fill_memory (s.num_leds * bytes_per_led) s.pixels;
        largest_changed_led = s.num_leds - 1;
      }
    ]

-- The GRB word of a pixel, without the marker bits; the offset is a 16-bit number.
unfoldable pub get_pixel_color : ℕ → Lpd8806 → ℕ
unfolding bytes_of
get_pixel_color n s =
    if ltb n s.num_leds
    then (let ofs = n * bytes_per_led % 65536 in
        let at = λ (i : ℕ). bit_and (get_or (bytes_of s.pixels) i 0) 127 in
        bit_or (bit_or (at ofs * 65536) (at (ofs + 1) * 256)) (at (ofs + 2)))
    else 0

-- The components of a pixel (R, G, B), by the overload that does not pack them.
unfoldable pub get_pixel_rgb : ℕ → Lpd8806 → ℕ × ℕ × ℕ
unfolding bytes_of
get_pixel_rgb n s =
    if ltb n s.num_leds
    then (let at = λ (i : ℕ). bit_and (get_or (bytes_of s.pixels) (n * bytes_per_led + i) 0) 127 in
        (at 1, at 0, at 2))
    else (0, 0, 0)

abbrev empty_strip : Bool → Lpd8806
empty_strip spi = record {
  has_spi_output = spi;
  num_leds = 0;
  largest_changed_led = 0;
  pixels = null;
  clkpin = 0;
  datapin = 0;
  begun = false;
  wire = [];
}

-- The two constructors: of a strip on arbitrary pins, and of one on the SPI device.
unfoldable pub new_on_pins : (ℕ → Bool) → ℕ → ℕ → ℕ → StripResult
unfolding update_length update_pins
new_on_pins malloc n dpin cpin = elim (update_length malloc n (empty_strip false)) [
  | done s ↦ update_pins dpin cpin s
  | failed e ↦ failed e
]

unfoldable pub new_on_spi : (ℕ → Bool) → ℕ → StripResult
unfolding update_length
new_on_spi malloc n = update_length malloc n (empty_strip true)

unfoldable pub delay : ℕ → Lpd8806 → Lpd8806
unfolding emit
delay duration s = emit (delay_milliseconds duration ∷ []) s
