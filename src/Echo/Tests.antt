-- ===== src/Echo/Tests.antt =====
-- The filter on what a real SVS answers to Y4: "4" and then the value, after a status line.
use svs_bridge.Base.{ℕ, ◌≡◌, refl, true, List, [], none, some}
use svs_bridge.Base.Text.{codes}
use svs_bridge.Echo.{Echo, line_is_number, filter_byte, filter}

abbrev answer : List ℕ
answer = codes "SVS CURRENT INPUT=4\r\n4\r\n0\r\n"

abbrev waits : Echo
waits = record { input = some 4; hold = []; dropped = 0 }

filter-answer :
    filter waits 200 answer
    ≡ (record { input = none; hold = []; dropped = 1 }, codes "SVS CURRENT INPUT=4\r\n0\r\n")
unfolding filter filter_byte line_is_number
filter-answer = refl

is_four : line_is_number (codes "4\r\n") 4 ≡ true
unfolding line_is_number
is_four = refl
