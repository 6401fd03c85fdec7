-- ===== src/Ht1632/Address.antt =====
-- Where the pixels of the matrix stand in the memory of a board.
use oclock.Common.{ℕ, ◌+◌, ◌*◌, ◌/◌, ◌%◌, ◌<◌, ◌≡◌, arith}
use oclock.Ht1632.{get_addr_from_x_y, get_chip_from_x_y}

-- The chip, counted from 0, is below 16: the addresses of a pixel on the 128 x 16 matrix stay in
-- the 512 cells of a board.
pub get_addr_from_x_y_bounds : (x y : ℕ) → x < 128 → y < 16 → get_addr_from_x_y x y < 512
unfolding get_addr_from_x_y get_chip_from_x_y
get_addr_from_x_y_bounds x y h k = ground arith

-- Two pixels of the matrix with the same cell and the same bit of it are the same pixel.
pub get_addr_from_x_y_injective :
    (x y x' y' : ℕ)
    → x < 128
    → y < 16
    → x' < 128
    → y' < 16
    → get_addr_from_x_y x y ≡ get_addr_from_x_y x' y'
    → y % 4 ≡ y' % 4
    → (x ≡ x') × (y ≡ y')
unfolding get_addr_from_x_y get_chip_from_x_y
get_addr_from_x_y_injective x y x' y' h k h' k' e m = ground arith

-- The pixel that a bit of a cell shows.
unfoldable pub pixel_x : ℕ → ℕ
pixel_x a = a / 128 * 32 + a / 32 % 2 * 16 + a % 32 / 2

unfoldable pub pixel_y : ℕ → ℕ → ℕ
pixel_y a bit = a / 64 % 2 * 8 + a % 2 * 4 + bit

-- Every bit of every cell is the bit of a pixel of the matrix.
pub get_addr_from_x_y_onto :
    (a bit : ℕ)
    → a < 512
    → bit < 4
    → (pixel_x a < 128)
      × (pixel_y a bit < 16)
      × (get_addr_from_x_y (pixel_x a) (pixel_y a bit) ≡ a)
      × (pixel_y a bit % 4 ≡ bit)
unfolding get_addr_from_x_y get_chip_from_x_y pixel_x pixel_y
get_addr_from_x_y_onto a bit h k = ground arith
