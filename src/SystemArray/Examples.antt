-- ===== src/SystemArray/Examples.antt =====
-- The array natives on a memory whose bytes are their addresses, and the theorem at it.
use iron_net.Prelude.{◌+◌, ◌*◌, ◌%◌, ◌^◌, ◌≡◌, refl, arith, ◌==◌, if◌then◌else◌, Memory}
use iron_net.SystemArray.{
  store_element, load_element, elements, element_offset, load_element-store_element,
}

abbrev ramp : Memory
ramp a = a % 2 ^ 8

stored : store_element ramp 100 4 2 200 112 ≡ 200
unfolding store_element element_offset
stored = refl

load_element-store_element_example :
    load_element (store_element ramp 100 4 2 200) 100 4 1 300 (300 + 3)
    ≡ (if 2 == 1 then ramp (200 + 3) else ramp (elements 100 + 1 * 4 + 3))
load_element-store_element_example =
    load_element-store_element ramp 100 4 2 1 200 300 3 (omega arith) (omega arith) (omega arith)
