-- ===== src/Bulk/Grid.antt =====
-- crates/roboprotocol-core/src/bulk.rs: the occupancy grid, encoding 1 of its kind.
use robotele.Prelude.{
  ℕ, ◌-◌, ◌*◌, ◌^◌, ◌<◌, ◌≡◌, refl, Option, none, some, List, ◌++◌, arith, ltb, ◌==◌, lt→ltb,
  if◌then◌else◌, length, drop, take,
}
use robotele.Prelude.Bytes.{to_be_bytes, from_be_bytes, slice, from_be_bytes-to_be_bytes}

abbrev pub occupancy_grid_encoding : ℕ
occupancy_grid_encoding = 1

abbrev pub occupancy_grid_header_len : ℕ
occupancy_grid_header_len = 20

-- Integers over the native numbers: `negsuc n` is -1 - n.
pub data ℤ : Type 0 where
  pos negsuc : ℕ → ℤ

-- An `i32` as its `u32` bits, and back (`as i32`).
abbrev pub to_u32 : ℤ → ℕ
to_u32 (pos n) = n
to_u32 (negsuc n) = 2 ^ 32 - 1 - n

unfoldable pub as_i32 : ℕ → ℤ
as_i32 bits = if ltb bits (2 ^ 31) then pos bits else negsuc (2 ^ 32 - 1 - bits)

pub record OccupancyGrid : Type 0 where
  pub width : ℕ  -- u32
  pub height : ℕ  -- u32
  pub resolution_mm : ℕ  -- u32
  pub origin_x_mm : ℤ  -- i32
  pub origin_y_mm : ℤ  -- i32
  pub cells : List ℕ

unfoldable pub encode : OccupancyGrid → List ℕ
encode g =
    to_be_bytes 4 g.width
    ++ (to_be_bytes 4 g.height
        ++ (to_be_bytes 4 g.resolution_mm
            ++ (to_be_bytes 4 (to_u32 g.origin_x_mm)
                ++ (to_be_bytes 4 (to_u32 g.origin_y_mm) ++ g.cells))))

unfoldable pub decode : List ℕ → Option OccupancyGrid
unfolding as_i32
decode bytes =
    let h = take occupancy_grid_header_len bytes in
    let width = from_be_bytes (slice 0 4 h) in
    let height = from_be_bytes (slice 4 8 h) in
    let cells = drop occupancy_grid_header_len bytes in
    if ltb (length bytes) occupancy_grid_header_len
    then none
    else if length cells == width * height
    then some (record {
      width = width;
      height = height;
      resolution_mm = from_be_bytes (slice 8 12 h);
      origin_x_mm = as_i32 (from_be_bytes (slice 12 16 h));
      origin_y_mm = as_i32 (from_be_bytes (slice 16 20 h));
      cells = cells;
    })
    else none

-- The value is in an `i32`'s range.
abbrev pub IsI32 : ℤ → Type 0
IsI32 (pos n) = n < 2 ^ 31
IsI32 (negsuc n) = n < 2 ^ 31

as_i32-to_u32 : (x : ℤ) → IsI32 x → as_i32 (to_u32 x) ≡ x
unfolding as_i32
as_i32-to_u32 (pos n) h = rw (lt→ltb n (2 ^ 31) h) refl
as_i32-to_u32 (negsuc n) h = ground arith

to_u32-lt : (x : ℤ) → IsI32 x → to_u32 x < 256 ^ 4
to_u32-lt (pos n) h = omega arith
to_u32-lt (negsuc n) h = omega arith

-- The fields fit their types, and there is a cell for each place.
pub record FitsGrid (g : OccupancyGrid) : Type 0 where
  pub width_fits : g.width < 256 ^ 4
  pub height_fits : g.height < 256 ^ 4
  pub resolution_fits : g.resolution_mm < 256 ^ 4
  pub x_fits : IsI32 g.origin_x_mm
  pub y_fits : IsI32 g.origin_y_mm
  pub full : length g.cells ≡ g.width * g.height

-- A grid with a cell for each place is read back as it was written, negative origins included.
pub decode-encode_grid : (g : OccupancyGrid) → FitsGrid g → decode (encode g) ≡ some g
unfolding decode encode to_be_bytes
decode-encode_grid g f =
    rw
      (
        from_be_bytes-to_be_bytes 4 g.width f.width_fits,
        from_be_bytes-to_be_bytes 4 g.height f.height_fits,
        from_be_bytes-to_be_bytes 4 g.resolution_mm f.resolution_fits,
        from_be_bytes-to_be_bytes 4 (to_u32 g.origin_x_mm) (to_u32-lt _ f.x_fits),
        from_be_bytes-to_be_bytes 4 (to_u32 g.origin_y_mm) (to_u32-lt _ f.y_fits),
        as_i32-to_u32 g.origin_x_mm f.x_fits,
        as_i32-to_u32 g.origin_y_mm f.y_fits,
      )
      (ground (arith, f.full))
