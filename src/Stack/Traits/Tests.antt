-- ===== src/Stack/Traits/Tests.antt =====
-- Runs of the rounding on a system with pages of 4096 bytes.
use libcopp.Base.{◌≡◌, refl, none}
use libcopp.Stack.Traits.{Os, round_to_page_size}

abbrev linux : Os
linux = record { page_bits = 12; minsigstksz = 2048; rlim_max = none }

rounds_up : round_to_page_size linux 5000 ≡ 8192
unfolding round_to_page_size
rounds_up = refl
