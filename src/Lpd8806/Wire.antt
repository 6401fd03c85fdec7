-- ===== src/Lpd8806/Wire.antt =====
-- What a receiver on the clock and data pins reads of a frame.
use oclock.Common.{
  ℕ, ◌≡◌, List, [], ◌∷◌, ◌++◌, map, Bool, true, false, if◌then◌else◌, ◌==◌, Option, none, some,
}
use oclock.Lpd8806.{
  Lpd8806, WireEvent, configure_input, configure_output, write, transfer, delay_milliseconds,
  is_bit_set, bit_values,
}

-- The bits of a byte, the highest first.
abbrev pub bits_of_byte : ℕ → List Bool
bits_of_byte p = map (is_bit_set p) bit_values

unfoldable pub bits_of_bytes : List ℕ → List Bool
bits_of_bytes [] = []
bits_of_bytes (b ∷ bs) = bits_of_byte b ++ bits_of_bytes bs

-- A receiver: it has the level of the data pin and reads it at each rising clock edge.
unfoldable pub received : ℕ → ℕ → Bool → List WireEvent → List Bool
received datapin clk level [] = []
received datapin clk level (write pin true ∷ es) =
    if pin == clk
    then level ∷ received datapin clk level es
    else received datapin clk (if pin == datapin then true else level) es
received datapin clk level (write pin false ∷ es) =
    received datapin clk (if pin == datapin then false else level) es
received datapin clk level (configure_input pin ∷ es) = received datapin clk level es
received datapin clk level (configure_output pin b ∷ es) = received datapin clk level es
received datapin clk level (transfer bs ∷ es) = received datapin clk level es
received datapin clk level (delay_milliseconds d ∷ es) = received datapin clk level es

-- The pin has the level that the driver believes it has.
abbrev Agrees : Option Bool → Bool → Type 0
Agrees none level = Unit
Agrees (some b) level = b ≡ level
