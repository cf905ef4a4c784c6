-- ===== src/Coroutine/Layout/Tests.antt =====
-- A coroutine of 960 bytes with 64 bytes of private data on a stack of 4096 bytes.
use libcopp.Base.{◌+◌, ◌-◌, ◌≤◌, ◌<◌, ◌≡◌, refl, some, arith}
use libcopp.Coroutine.Layout.{align_stack_size, Request, Placed, place, is_refused, stack_offset}
use libcopp.Coroutine.Layout.Fits.{place_fits}

abbrev on_a_stack : Request
on_a_stack = record {
  object_size = 208;
  p = 9000;
  callee_stack = record { size = 4096; sp = 10000 };
  coroutine_size = 960;
  private_buffer_size = 64;
}

abbrev placed_at : Placed
placed_at = record { priv_data = 9936; private_buffer_size = 64; top = 8976; room = 3072 }

on_a_stack-place : place on_a_stack ≡ some placed_at
unfolding place is_refused stack_offset align_stack_size
on_a_stack-place = refl

place_fits_example :
    (9936 + 64 ≡ 10000)
    × (9000 + 208 ≤ 9936)
    × (8976 ≤ 9000)
    × (10000 ≡ 4096 + (8976 - 3072))
    × (3072 ≤ 8976)
    × (0 < 3072)
place_fits_example =
    place_fits on_a_stack placed_at (ground arith) (ground arith) (ground arith) (ground arith)
      on_a_stack-place
